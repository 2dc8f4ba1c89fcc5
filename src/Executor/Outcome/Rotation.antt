-- ===== src/Executor/Outcome/Rotation.antt =====
-- services/executor/app/consumer.py, _record_outcome and _update_rotation_preferred: consecutive losses
-- degrade a strategy, and another is preferred then.
use messiah_fx_prod.Prelude.{
  String, Bool, true, false, not, ◌&&◌, ◌||◌, Option, none, some, List, [], ◌∷◌, ◌=ˢ◌,
  if◌then◌else◌,
}
use messiah_fx_prod.Prelude.Int.{leb_ℤ}
use messiah_fx_prod.Prelude.Dict.{lookup_or}
use messiah_fx_prod.Numbers.{Floats, num_zero}
use messiah_fx_prod.Payload.{Payload, text, object, no_fields, field}
use messiah_fx_prod.RedisKeys
use messiah_fx_prod.Redis.{
  Redis, Exec, pure, reads, send, increment, set_ex, delete, rpush, expire, ◌>>=◌, ◌>>◌,
}
use messiah_fx_prod.Regimes.{preferred_for_regime}
use messiah_fx_prod.Executor.Settings.{Settings}
use messiah_fx_prod.Executor.Outcome.Keys.{
  losses_key, degraded_key, rotation_preferred, rotation_ttl, edge_ttl,
}

-- The regime that is read: the client decodes its replies to texts, so a reply is never bytes.
abbrev pub regime_of : Option String → String
regime_of none = "unknown"
regime_of (some raw) = "unknown"

-- Another strategy than the failed one that is not degraded and is enabled.
abbrev pub is_candidate : {fl : Floats} (r : Redis fl) → String → String → r.S → Bool
is_candidate r failed candidate s =
    not (candidate =ˢ failed)
    && not (r.exists (degraded_key candidate) s)
    && lookup_or "enabled" "0" (r.hash_at (RedisKeys.strategy_state candidate) s) =ˢ "1"

module _ {fl : Floats} {r : Redis fl} where
  -- `_notify`
  abbrev pub notify : String → String → Payload fl → Exec r Unit
  notify now event details = send (
      rpush RedisKeys.notification_queue
        (object (field "event" (text event) (field "timestamp" (text now) details))))

  abbrev pub prefer : String → String → String → String → Exec r Unit
  prefer now failed candidate regime = do
    send (set_ex rotation_preferred candidate rotation_ttl)
    notify now "strategy.rotation.triggered" (
        field "failed_strategy" (text failed)
          (field "rotating_to" (text candidate) (field "regime" (text regime) no_fields)))

  -- The loop over the candidates, which stops at the first that is preferred.
  unfoldable pub prefer_first : String → String → String → List String → Exec r Unit
  prefer_first now failed regime [] w = pure tt w
  prefer_first now failed regime (candidate ∷ candidates) w =
      (if is_candidate r failed candidate w.server
          then prefer now failed candidate regime
          else prefer_first now failed regime candidates)
        w

  unfoldable pub update_rotation_preferred : String → String → String → Exec r Unit
  update_rotation_preferred now failed regime =
      prefer_first now failed regime (preferred_for_regime regime)

  -- A strategy that lost often enough in a row is degraded.
  abbrev pub degrade_if : String → String → Bool → Exec r Unit
  degrade_if now strategy false = pure tt
  degrade_if now strategy true = do
    send (set_ex (degraded_key strategy) "1" rotation_ttl)
    regime_raw ← reads (r.text_at "ai:regime:current")
    update_rotation_preferred now strategy (regime_of regime_raw)

  abbrev pub rotate : Settings fl → String → String → Bool → Bool → Exec r Unit
  rotate settings now strategy true lost =
      send (delete (losses_key strategy)) >> send (delete (degraded_key strategy))
  rotate settings now strategy false true = do
    count ← increment (losses_key strategy)
    send (expire (losses_key strategy) edge_ttl)
    degrade_if now strategy (leb_ℤ settings.rotation_consecutive_loss_threshold count)
  rotate settings now strategy false false = pure tt

  -- A loss is a leg that did not fill or a losing close; an open is neither a loss nor a win.
  unfoldable pub record_rotation : Settings fl → String → String → Bool → fl.F → Exec r Unit
  record_rotation settings now strategy filled_ok realized_pnl =
      rotate settings now strategy (filled_ok && fl.lt (num_zero fl) realized_pnl)
        (not filled_ok || fl.lt realized_pnl (num_zero fl))
