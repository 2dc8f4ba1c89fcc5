-- ===== src/Strategies/Rotation.antt =====
-- services/strategy/app/strategies/rotation.py: the rotation of strategies, of which the executor has a
-- copy of its own (Executor.Outcome.Rotation). The client decodes its replies to texts.
pub mod Agreement
use messiah_fx_prod.Prelude.{
  ℕ, String, Bool, true, false, Option, none, some, List, [], ◌∷◌, ◌=ˢ◌, if◌then◌else◌,
}
use messiah_fx_prod.Prelude.Int.{ℤ, pos, leb_ℤ}
use messiah_fx_prod.Prelude.ParseInt.{parse_int}
use messiah_fx_prod.Prelude.Dict.{Dict, lookup_or}
use messiah_fx_prod.Numbers.{Floats}
use messiah_fx_prod.Payload.{Value, null, num, text, object, no_fields, field}
use messiah_fx_prod.RedisKeys
use messiah_fx_prod.Redis.{
  Redis, Exec, pure, reads, or_raise, send, increment, set_ex, delete, rpush, expire, ◌>>=◌, ◌>>◌,
}
use messiah_fx_prod.Regimes.{preferred_for_regime, regime_strategy_map, all_strategies}
use messiah_fx_prod.Executor.Outcome.Keys.{
  losses_key, degraded_key, rotation_preferred, rotation_ttl, edge_ttl,
}

abbrev pub rotation_threshold : ℤ
rotation_threshold = pos 4

-- `await redis.get("ai:regime:current") or b"unknown"`, decoded
abbrev pub current_regime : Option String → String
current_regime none = "unknown"
current_regime (some regime) = if regime =ˢ "" then "unknown" else regime

-- `int(val) if val else 0`
abbrev pub loss_count : Option String → Option ℤ
loss_count none = some (pos 0)
loss_count (some val) = if val =ˢ "" then some (pos 0) else parse_int val

-- `val.decode() if val else None`: a text has no decode
abbrev pub decoded : Option String → Option (Option String)
decoded none = some none
decoded (some val) = if val =ˢ "" then some none else none

module _ {fl : Floats} where
  abbrev pub text_or_none : Option String → Value fl
  text_or_none none = null
  text_or_none (some s) = text s

  module _ (r : Redis fl) where
    abbrev pub get_strategy_loss_count : String → r.S → Option ℤ
    get_strategy_loss_count strategy_name s = loss_count (r.text_at (losses_key strategy_name) s)

    abbrev pub is_strategy_degraded : String → r.S → Bool
    is_strategy_degraded strategy_name = r.exists (degraded_key strategy_name)

    abbrev pub get_preferred_strategy : r.S → Option (Option String)
    get_preferred_strategy s = decoded (r.text_at rotation_preferred s)

    -- The first candidate that is another strategy, not degraded and enabled.
    abbrev pub best_alternative : String → List String → r.S → Option String
    best_alternative failed_strategy [] s = none
    best_alternative failed_strategy (candidate ∷ candidates) s =
        let rest = best_alternative failed_strategy candidates s in
        if candidate =ˢ failed_strategy
        then rest
        else if is_strategy_degraded candidate s
        then rest
        else if lookup_or "enabled" "0" (r.hash_at (RedisKeys.strategy_state candidate) s) =ˢ "1"
        then some candidate
        else rest

  module _ {r : Redis fl} where
    abbrev pub prefer_if : Option String → Exec r Unit
    prefer_if none = pure tt
    prefer_if (some best) = send (set_ex rotation_preferred best rotation_ttl)

    unfoldable pub handle_rotation_trigger : String → String → ℤ → Exec r Unit
    handle_rotation_trigger now failed_strategy loss_count = do
      send (set_ex (degraded_key failed_strategy) "1" rotation_ttl)
      regime_raw ← reads (r.text_at "ai:regime:current")
      best ←
          reads
            (best_alternative r failed_strategy (preferred_for_regime (current_regime regime_raw)))
      prefer_if best
      send (
          rpush RedisKeys.notification_queue (
            object (
              field "event" (text "strategy.rotation.triggered") (
                field "failed_strategy" (text failed_strategy) (
                  field "consecutive_losses" (num (fl.of_int loss_count)) (
                    field "regime" (text (current_regime regime_raw)) (
                      field "rotating_to" (text_or_none best)
                        (field "timestamp" (text now) no_fields))))))))

    abbrev pub trigger_if : String → String → ℤ → Bool → Exec r Unit
    trigger_if now strategy_name count false = pure tt
    trigger_if now strategy_name count true = handle_rotation_trigger now strategy_name count

    unfoldable pub record_strategy_loss : String → String → Exec r ℤ
    record_strategy_loss now strategy_name = do
      count ← increment (losses_key strategy_name)
      send (expire (losses_key strategy_name) edge_ttl)
      trigger_if now strategy_name count (leb_ℤ rotation_threshold count)
      pure count

    unfoldable pub record_strategy_win : String → Exec r Unit
    record_strategy_win strategy_name =
        send (delete (losses_key strategy_name)) >> send (delete (degraded_key strategy_name))

-- What the dashboard is told of a strategy, and of all of them, without the time and the constants.
pub record Status : Type 0 where
  pub name : String
  pub consecutive_losses : ℤ
  pub degraded : Bool

pub record RotationStatus : Type 0 where
  pub regime : String
  pub preferred_strategy : Option String
  pub preferences : List String
  pub strategies : List Status

module _ {fl : Floats} {r : Redis fl} where
  abbrev pub statuses : List String → Exec r (List Status)
  statuses [] = pure []
  statuses (name ∷ names) = do
    read ← reads (get_strategy_loss_count r name)
    losses ← or_raise read
    degraded ← reads (is_strategy_degraded r name)
    rest ← statuses names
    pure (record { name = name; consecutive_losses = losses; degraded = degraded } ∷ rest)

  unfoldable pub get_rotation_status : Exec r RotationStatus
  get_rotation_status = do
    regime_raw ← reads (r.text_at "ai:regime:current")
    found ← reads (get_preferred_strategy r)
    preferred ← or_raise found
    strategies ← statuses all_strategies
    pure (record {
      regime = current_regime regime_raw;
      preferred_strategy = preferred;
      preferences = lookup_or (current_regime regime_raw) [] regime_strategy_map;
      strategies = strategies;
    })
