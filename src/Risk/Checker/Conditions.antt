-- ===== src/Risk/Checker/Conditions.antt =====
-- The conditions under which the pre-trade checks approve, and what an approval says.
use messiah_fx_prod.Prelude.{
  String, Bool, true, false, ◌≡◌, Option, none, some, List, [], ◌∷◌, ◌=ˢ◌,
}
use messiah_fx_prod.Prelude.Int.{ℤ, leb_ℤ}
use messiah_fx_prod.Prelude.Dict.{Dict, lookup_or}
use messiah_fx_prod.Numbers.{Floats, num_zero}
use messiah_fx_prod.Payload.{Payload}
use messiah_fx_prod.Risk.Settings.{Settings}
use messiah_fx_prod.Risk.Checker.{
  CheckResult, also, read_int, read_float, read_float_or, read_net_edge,
}

-- What was passed after the checks of these names.
abbrev pub through : List String → List String → List String
through passed [] = passed
through passed (check ∷ later) = through (also passed check) later

-- The checks from one on.
abbrev pub from_edge : List String
from_edge = "net_edge_positive" ∷ []

abbrev pub from_losses : List String
from_losses = "consecutive_losses" ∷ from_edge

abbrev pub from_exposure : List String
from_exposure = "gross_exposure" ∷ "strategy_exposure" ∷ from_losses

abbrev pub from_positions : List String
from_positions = "max_open_positions" ∷ from_exposure

abbrev pub from_daily_loss : List String
from_daily_loss = "daily_loss_limit" ∷ from_positions

-- Approved after ten checks, with no reason, and neither a halt nor a cooldown asked for.
abbrev pub all_passed : CheckResult
all_passed = record {
  approved = true;
  rejection_reason = none;
  checks_passed =
      "kill_switch" ∷ "strategy_enabled" ∷ "strategy_cooldown" ∷ "daily_drawdown"
      ∷ "daily_loss_limit" ∷ "max_open_positions" ∷ "gross_exposure" ∷ "strategy_exposure"
      ∷ "consecutive_losses" ∷ "net_edge_positive" ∷ [];
  checks_failed = [];
  auto_halt = false;
  trigger_cooldown = false;
}

-- The checks return, with an approval.
abbrev pub Approves : Option CheckResult → Type 0
Approves none = ⊥
Approves (some r) = r.approved ≡ true

module _ {fl : Floats} (settings : Settings fl) where
  open fl use {F, add, neg, lt, le, fixed}

  -- A positive net edge.
  pub record HasEdge (opportunity : Payload fl) : Type 0 where
    pub edge : F
    pub edge_read : read_net_edge fl opportunity ≡ some edge
    pub edge_positive : le edge (num_zero fl) ≡ false

  -- There is room for one more open position.
  pub record HasRoom (risk_hash : Dict String) : Type 0 where
    pub positions : ℤ
    pub positions_read : read_int "open_position_count" risk_hash ≡ some positions
    pub positions_below : leb_ℤ settings.risk_max_open_positions positions ≡ false

  -- The streak of losses is below its limit.
  pub record HasFewLosses (risk_hash : Dict String) : Type 0 where
    pub losses : ℤ
    pub losses_read : read_int "consecutive_losses" risk_hash ≡ some losses
    pub losses_below : leb_ℤ settings.risk_max_consecutive_losses losses ≡ false

  -- Neither configured cap is passed by the projected exposure.
  pub record IsWithinCaps (gross strategy new_notional : F) : Type 0 where
    pub gross_cap :
        lt (num_zero fl) settings.risk_max_gross_exposure_usd ≡ true
        → lt settings.risk_max_gross_exposure_usd (add gross new_notional) ≡ false
    pub strategy_cap :
        lt (num_zero fl) settings.risk_max_strategy_exposure_usd ≡ true
        → lt settings.risk_max_strategy_exposure_usd (add strategy new_notional) ≡ false

  -- Today's drawdown is below its limit.
  pub record HasSmallDrawdown (risk_hash : Dict String) : Type 0 where
    pub drawdown : F
    pub drawdown_read : read_float fl "daily_drawdown_pct" risk_hash ≡ some drawdown
    pub drawdown_below : le settings.risk_max_daily_drawdown_pct drawdown ≡ false

  -- Where a limit on the day's loss is configured, the day's result is above it.
  abbrev pub IsAboveLossLimit : Dict String → Type 0
  IsAboveLossLimit risk_hash =
      lt (num_zero fl) settings.risk_daily_loss_limit_usd ≡ true
      → (pnl : F) × (read_float_or fl "daily_pnl_usd" risk_hash ≡ some pnl)
        × (le pnl (neg settings.risk_daily_loss_limit_usd) ≡ false)

  -- All that an approval asks for.
  pub record IsAdmissible (risk_hash : Dict String) (opportunity : Payload fl) (halt_flag : String)
      (strategy_state : Dict String) (on_cooldown : Bool) (gross strategy new_notional : F)
      : Type 0 where
    pub not_halted : (halt_flag =ˢ "1") ≡ false
    pub enabled : (lookup_or "enabled" "0" strategy_state =ˢ "1") ≡ true
    pub no_cooldown : on_cooldown ≡ false
    pub drawdown : HasSmallDrawdown risk_hash
    pub loss : IsAboveLossLimit risk_hash
    pub room : HasRoom risk_hash
    pub caps : IsWithinCaps gross strategy new_notional
    pub losses : HasFewLosses risk_hash
    pub edge : HasEdge opportunity
