-- ===== src/Strategies/Runner.antt =====
-- services/strategy/app/runner.py: one round of the scan loop of a strategy, without its sleeps.
use messiah_fx_prod.Prelude.{
  String, Bool, true, false, not, ◌≡◌, refl, ◌⊎◌, inl, inr, Option, some, if◌then◌else◌, Bool-cases,
}
use messiah_fx_prod.Prelude.Dict.{Dict, lookup}
use messiah_fx_prod.Numbers.{Floats}
use messiah_fx_prod.Redis.{Redis, World, Exec, swallowed}
use messiah_fx_prod.Strategies.Base.{is_text, is_halted, get_strategy_state, is_on_cooldown}

module _ {fl : Floats} {r : Redis fl} where
  -- In TradingView mode, during a halt, while disabled and on cooldown the round sleeps.
  unfoldable pub generic_round : Bool → String → (Dict String → Exec r Unit) → Exec r Unit
  generic_round tv_signal_mode strategy_name run_once w =
      let state = get_strategy_state r strategy_name w.server in
      if tv_signal_mode
      then (some tt, w)
      else if is_halted r w.server
      then (some tt, w)
      else if not (is_text "1" (lookup "enabled" state))
      then (some tt, w)
      else if is_on_cooldown r strategy_name w.server
      then (some tt, w)
      else swallowed (run_once state) w

  -- What a round needs to scan.
  pub record IsScanning (strategy_name : String) (run_once : Dict String → Exec r Unit)
      (w : World r) (out : Option Unit × World r) : Type 0 where
    pub running : is_halted r w.server ≡ false
    pub enabled :
        is_text "1" (lookup "enabled" (get_strategy_state r strategy_name w.server)) ≡ true
    pub no_cooldown : is_on_cooldown r strategy_name w.server ≡ false
    pub scans : out ≡ swallowed (run_once (get_strategy_state r strategy_name w.server)) w

  -- A round of the loop never raises, and either changes nothing, or it is not TradingView mode, there is no
  -- halt, the strategy is enabled and not on cooldown, and the round runs its scan once.
  pub generic_round-IsScanning :
      (tv_signal_mode : Bool) (strategy_name : String) (run_once : Dict String → Exec r Unit)
      (w : World r)
      → (generic_round tv_signal_mode strategy_name run_once w ≡ (some tt, w))
        ⊎ ((tv_signal_mode ≡ false)
            × IsScanning strategy_name run_once w
                (generic_round tv_signal_mode strategy_name run_once w))
  unfolding generic_round
  generic_round-IsScanning true strategy_name run_once w = inl refl
  generic_round-IsScanning false strategy_name run_once w =
      elim (Bool-cases (is_halted r w.server)) [
        | inl halted ↦ rw halted (inl refl)
        | inr running ↦
            elim (Bool-cases
              (is_text "1" (lookup "enabled" (get_strategy_state r strategy_name w.server)))) [
                | inr disabled ↦ rw (running, disabled) (inl refl)
                | inl enabled ↦ elim (Bool-cases (is_on_cooldown r strategy_name w.server)) [
                  | inl cooling ↦ rw (running, enabled, cooling) (inl refl)
                  | inr ready ↦
                      rw (running, enabled, ready)
                        (inr (
                          refl,
                          record {
                            running = running;
                            enabled = enabled;
                            no_cooldown = ready;
                            scans = refl;
                          },
                        ))
                ]
              ]
      ]
