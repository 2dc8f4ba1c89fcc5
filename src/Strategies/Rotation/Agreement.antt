-- ===== src/Strategies/Rotation/Agreement.antt =====
-- services/strategy/app/strategies/rotation.py: where it agrees with the executor's own copy.
use messiah_fx_prod.Prelude.{
  String, true, ◌≡◌, refl, ◌∙◌, ap, Option, none, some, List, [], ◌∷◌, ◌=ˢ◌, inl, inr, Bool-cases,
}
use messiah_fx_prod.Prelude.Int.{ℤ}
use messiah_fx_prod.Prelude.Text.Affixes.{prefix_ne_sym}
use messiah_fx_prod.Prelude.Dict.{lookup_or}
use messiah_fx_prod.Numbers.{Floats}
use messiah_fx_prod.Payload.{Value}
use messiah_fx_prod.RedisKeys
use messiah_fx_prod.Redis.{Redis, IsServer, World, Exec, pure, send, set_ex, rpush, ◌>>◌}
use messiah_fx_prod.Regimes.{preferred_for_regime}
use messiah_fx_prod.Executor.Outcome.Keys.{degraded_key, rotation_ttl}
use messiah_fx_prod.Executor.Outcome.Rotation.{
  regime_of, prefer, prefer_first, update_rotation_preferred, degrade_if,
}
use messiah_fx_prod.Strategies.EdgeMonitor.Agreement.{
  IsAlike, IsAlike-refl, IsAlike-sym, notice-IsAlike, both_told,
}
use messiah_fx_prod.Strategies.Rotation.{
  current_regime, is_strategy_degraded, best_alternative, prefer_if, handle_rotation_trigger,
}

regime_of_lem : (o : Option String) → regime_of o ≡ "unknown"
regime_of_lem none = refl
regime_of_lem (some raw) = refl

module _ {fl : Floats} {r : Redis fl} where
  abbrev prefer_found : String → String → String → Option String → Exec r Unit
  prefer_found now failed regime none = pure tt
  prefer_found now failed regime (some best) = prefer now failed best regime

  -- The executor's loop prefers the same strategy.
  prefer_first_lem :
      (now failed regime : String) (candidates : List String) (w : World r)
      → prefer_first now failed regime candidates w
        ≡ prefer_found now failed regime (best_alternative r failed candidates w.server) w
  unfolding prefer_first
  prefer_first_lem now failed regime [] w = refl
  prefer_first_lem now failed regime (candidate ∷ candidates) w =
      let rest = prefer_first_lem now failed regime candidates w in
      elim (Bool-cases (candidate =ˢ failed)) [
        | inl same ↦ rw same rest
        | inr other ↦ elim (Bool-cases (is_strategy_degraded r candidate w.server)) [
          | inl degraded ↦ rw (other, degraded) rest
          | inr healthy ↦
              elim (Bool-cases (
                lookup_or "enabled" "0" (r.hash_at (RedisKeys.strategy_state candidate) w.server)
                =ˢ "1")) [
                  | inl enabled ↦ rw (other, healthy, enabled) refl
                  | inr disabled ↦ rw (other, healthy, disabled) rest
                ]
        ]
      ]

  preferred-IsAlike :
      (laws : IsServer r) (now failed regime : String) (best : Option String) (v : Value fl)
      (w : World r)
      → IsAlike r
          (prefer_found now failed regime best w).1.server
          ((prefer_if best >> send (rpush RedisKeys.notification_queue v)) w).1.server
  preferred-IsAlike laws now failed regime none v w =
      IsAlike-sym laws _ _ (notice-IsAlike laws v w.server w.server (IsAlike-refl laws w.server))
  preferred-IsAlike laws now failed regime (some best) v w = both_told laws _ v _

  -- On a server that keeps the documented effect of its commands, while the regime is unknown: when a
  -- strategy is degraded, rotation.py and the executor leave the same texts, so the same degraded flags
  -- and the same preferred strategy, and the same lists but for the notifications.
  pub handle_rotation_trigger-IsAlike :
      (laws : IsServer r) (now failed : String) (loss_count : ℤ) (w : World r)
      → current_regime (r.text_at "ai:regime:current" w.server) ≡ "unknown"
      → IsAlike r
          (degrade_if now failed true w).1.server
          (handle_rotation_trigger now failed loss_count w).1.server
  unfolding handle_rotation_trigger update_rotation_preferred
  handle_rotation_trigger-IsAlike laws now failed loss_count w unknown =
      let w1 : World r = (send (set_ex (degraded_key failed) "1" rotation_ttl) w).1 in
      let kept : r.text_at "ai:regime:current" w1.server ≡ r.text_at "ai:regime:current" w.server =
        laws.text-run _ "ai:regime:current" w.server refl
        ∙ rw (prefix_ne_sym "strategy:degraded:" failed "ai:regime:current" refl) refl in
      let still : current_regime (r.text_at "ai:regime:current" w1.server) ≡ "unknown" =
        ap current_regime kept ∙ unknown in
      rw
        (
          regime_of_lem (r.text_at "ai:regime:current" w1.server),
          prefer_first_lem now failed "unknown" (preferred_for_regime "unknown") w1,
          still,
        )
        (preferred-IsAlike laws now failed "unknown"
          (best_alternative r failed (preferred_for_regime "unknown") w1.server) _ w1)
