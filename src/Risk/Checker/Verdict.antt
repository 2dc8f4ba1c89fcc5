-- ===== src/Risk/Checker/Verdict.antt =====
-- What a result of the pre-trade checks can look like.
use messiah_fx_prod.Prelude.{
  String, Bool, true, false, not, ◌&&◌, ◌≡◌, refl, ap, Option, none, some, List, [], ◌∷◌, ◌>>=◌,
  ◌=ˢ◌, inl, inr, ◌⊎◌, if◌then◌else◌,
}
use messiah_fx_prod.Prelude.Dict.{Dict, contains, lookup_or}
use messiah_fx_prod.Numbers.{Floats, num_zero}
use messiah_fx_prod.Payload.{Payload}
use messiah_fx_prod.Risk.Settings.{Settings}
use messiah_fx_prod.Risk.Checker.{
  CheckResult, approval, read_net_edge, read_int, read_float_or, read_float, check_edge,
  check_losses, check_exposure, check_positions, check_daily_loss, run_checks,
}
use messiah_fx_prod.Risk.Checker.Conditions.{
  all_passed, through, from_edge, from_losses, from_exposure, from_positions, from_daily_loss,
}

-- The checks in their order.
abbrev pub checks : List String
checks =
    "kill_switch" ∷ "strategy_enabled" ∷ "strategy_cooldown" ∷ "daily_drawdown" ∷ "daily_loss_limit"
    ∷ "max_open_positions" ∷ "gross_exposure" ∷ "strategy_exposure" ∷ "consecutive_losses"
    ∷ "net_edge_positive" ∷ []

-- The checks whose failure stops all trading.
abbrev pub halting : List String
halting = "daily_drawdown" ∷ "daily_loss_limit" ∷ []

-- A rejection names one failed check and a reason. It asks for a halt just for a halting check, and
-- for a cooldown just for the loss streak.
pub record IsRejection (r : CheckResult) : Type 0 where
  pub check : String
  pub reason : String
  pub known : contains check checks ≡ true
  pub result : r ≡ record {
    approved = false;
    rejection_reason = some reason;
    checks_passed = [];
    checks_failed = check ∷ [];
    auto_halt = contains check halting;
    trigger_cooldown = check =ˢ "consecutive_losses";
  }

-- The checks raise, or approve with all ten checks passed, or reject.
pub data IsVerdict : Option CheckResult → Type 0 where
  raised : IsVerdict none
  returned : {r : CheckResult} → (r ≡ all_passed) ⊎ IsRejection r → IsVerdict (some r)

IsVerdict-bind {ℓ} :
    {A : Type ℓ} (m : Option A) (k : A → Option CheckResult)
    → ((a : A) → IsVerdict (k a))
    → IsVerdict (m >>= k)
IsVerdict-bind none k h = raised
IsVerdict-bind (some a) k h = h a

IsVerdict-if :
    (b : Bool) (m n : Option CheckResult)
    → IsVerdict m
    → IsVerdict n
    → IsVerdict (if b then m else n)
IsVerdict-if true m n hm hn = hm
IsVerdict-if false m n hm hn = hn

abbrev rejected :
    (r : CheckResult) (check reason : String)
    → contains check checks ≡ true
    → r ≡ record {
      approved = false;
      rejection_reason = some reason;
      checks_passed = [];
      checks_failed = check ∷ [];
      auto_halt = contains check halting;
      trigger_cooldown = check =ˢ "consecutive_losses";
    }
    → IsVerdict (some r)
rejected r check reason known result =
    returned (inr (record { check = check; reason = reason; known = known; result = result }))

module _ {fl : Floats} (settings : Settings fl) where
  open fl use {F, lt, add, le}

  check_edge-IsVerdict :
      (opportunity : Payload fl) (passed : List String)
      → through passed from_edge ≡ checks
      → IsVerdict (check_edge settings passed opportunity)
  unfolding check_edge
  check_edge-IsVerdict opportunity passed e = IsVerdict-bind (read_net_edge fl opportunity) _ λ x.
      IsVerdict-if _ _ _ (rejected _ "net_edge_positive" _ refl refl)
        (returned (inl (ap approval e)))

  module _ (risk_hash : Dict String) (opportunity : Payload fl) where
    check_losses-IsVerdict :
        (passed : List String)
        → through passed from_losses ≡ checks
        → IsVerdict (check_losses settings passed risk_hash opportunity)
    unfolding check_losses
    check_losses-IsVerdict passed e =
        IsVerdict-bind (read_int "consecutive_losses" risk_hash) _ λ x.
          IsVerdict-if _ _ _ (rejected _ "consecutive_losses" _ refl refl)
            (check_edge-IsVerdict opportunity _ e)

    module _ (gross strategy new_notional : F) where
      check_exposure-IsVerdict :
          (passed : List String)
          → through passed from_exposure ≡ checks
          → IsVerdict
              (check_exposure settings passed risk_hash opportunity gross strategy new_notional)
      unfolding check_exposure
      check_exposure-IsVerdict passed e =
          IsVerdict-if
            (lt (num_zero fl) settings.risk_max_gross_exposure_usd
              && lt settings.risk_max_gross_exposure_usd (add gross new_notional))
            _ _ (rejected _ "gross_exposure" _ refl refl)
            (IsVerdict-if
              (lt (num_zero fl) settings.risk_max_strategy_exposure_usd
                && lt settings.risk_max_strategy_exposure_usd (add strategy new_notional))
              _ _ (rejected _ "strategy_exposure" _ refl refl) (check_losses-IsVerdict _ e))

      check_positions-IsVerdict :
          (passed : List String)
          → through passed from_positions ≡ checks
          → IsVerdict
              (check_positions settings passed risk_hash opportunity gross strategy new_notional)
      unfolding check_positions
      check_positions-IsVerdict passed e =
          IsVerdict-bind (read_int "open_position_count" risk_hash) _ λ x.
            IsVerdict-if _ _ _ (rejected _ "max_open_positions" _ refl refl)
              (check_exposure-IsVerdict _ e)

      check_daily_loss-IsVerdict :
          (passed : List String)
          → through passed from_daily_loss ≡ checks
          → IsVerdict
              (check_daily_loss settings passed risk_hash opportunity gross strategy new_notional)
      unfolding check_daily_loss
      check_daily_loss-IsVerdict passed e =
          IsVerdict-if _ _ _
            (IsVerdict-bind (read_float_or fl "daily_pnl_usd" risk_hash) _ λ x.
              IsVerdict-if _ _ _ (rejected _ "daily_loss_limit" _ refl refl)
                (check_positions-IsVerdict _ e))
            (check_positions-IsVerdict _ e)

      -- Whatever the inputs, a result is the approval or a rejection, and a rejection has exactly one
      -- failed check, a reason and no passed checks; it asks for a system-wide halt if and only if the
      -- failed check is the daily drawdown or the daily loss limit, and for a strategy cooldown if and
      -- only if it is the loss streak.
      pub run_checks-IsVerdict :
          (halt_flag : String) (strategy_state : Dict String) (on_cooldown : Bool)
          → IsVerdict (
              run_checks settings risk_hash opportunity halt_flag strategy_state on_cooldown gross
                strategy new_notional)
      unfolding run_checks
      run_checks-IsVerdict halt_flag strategy_state on_cooldown =
          IsVerdict-if (halt_flag =ˢ "1") _ _
            (rejected _ "kill_switch" "kill_switch_active" refl refl)
            (IsVerdict-if (not (lookup_or "enabled" "0" strategy_state =ˢ "1")) _ _
              (rejected _ "strategy_enabled" "strategy_disabled" refl refl)
              (IsVerdict-if on_cooldown _ _
                (rejected _ "strategy_cooldown" "strategy_on_cooldown" refl refl)
                (IsVerdict-bind (read_float fl "daily_drawdown_pct" risk_hash) _ λ x.
                  IsVerdict-if (le settings.risk_max_daily_drawdown_pct x) _ _
                    (rejected _ "daily_drawdown" _ refl refl) (check_daily_loss-IsVerdict _ refl))))
