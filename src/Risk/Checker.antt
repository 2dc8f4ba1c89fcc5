-- ===== src/Risk/Checker.antt =====
-- services/risk/app/checker.py: the pre-trade checks in their order. `none` is an exception, from a
-- number that cannot be read.
pub mod Conditions
pub mod Approval
pub mod Verdict
use Prim.Native.String.{◌++◌ as ◌++ˢ◌}
use messiah_fx_prod.Prelude.{
  String, Bool, true, false, not, ◌&&◌, Option, none, some, List, [], ◌∷◌, ◌++◌, ◌>>=◌, ◌=ˢ◌,
  if◌then◌else◌,
}
use messiah_fx_prod.Prelude.Int.{ℤ, pos, leb_ℤ}
use messiah_fx_prod.Prelude.ParseInt.{parse_int, show_int}
use messiah_fx_prod.Prelude.Dict.{Dict, lookup, lookup_or}
use messiah_fx_prod.Numbers.{Floats, num_zero}
use messiah_fx_prod.Payload.{Payload, Value, null, num, get_or, truthy, to_float}
use messiah_fx_prod.Risk.Settings.{Settings}

pub record CheckResult : Type 0 where
  pub approved : Bool
  pub rejection_reason : Option String
  pub checks_passed : List String
  pub checks_failed : List String
  pub auto_halt : Bool
  pub trigger_cooldown : Bool

abbrev pub reject : String → String → CheckResult
reject reason check = record {
  approved = false;
  rejection_reason = some reason;
  checks_passed = [];
  checks_failed = check ∷ [];
  auto_halt = false;
  trigger_cooldown = false;
}

-- `passed.append(check)`
abbrev pub also : List String → String → List String
also passed check = passed ++ check ∷ []

abbrev pub approval : List String → CheckResult
approval passed = record {
  approved = true;
  rejection_reason = none;
  checks_passed = passed;
  checks_failed = [];
  auto_halt = false;
  trigger_cooldown = false;
}

-- `int(d.get(k, 0))`
abbrev pub read_int : String → Dict String → Option ℤ
read_int k d = elim (lookup k d) [ none ↦ some (pos 0) | some s ↦ parse_int s ]

module _ (fl : Floats) where
  -- `float(d.get(k, 0))`
  abbrev pub read_float : String → Dict String → Option fl.F
  read_float k d = elim (lookup k d) [ none ↦ some (num_zero fl) | some s ↦ fl.parse s ]

  -- `float(d.get(k, 0) or 0)`
  abbrev pub read_float_or : String → Dict String → Option fl.F
  read_float_or k d = elim (lookup k d) [
    | none ↦ some (num_zero fl)
    | some s ↦ if s =ˢ "" then some (num_zero fl) else fl.parse s
  ]

  -- `float(opportunity.get("net_edge_bps") or 0)`
  abbrev pub read_net_edge : Payload fl → Option fl.F
  read_net_edge opportunity =
      let v = get_or "net_edge_bps" null opportunity in
      if truthy v then to_float v else some (num_zero fl)

module _ {fl : Floats} (settings : Settings fl) where
  open fl use {F, add, neg, lt, le, fixed}

  -- Check 7, and the approval.
  unfoldable pub check_edge : List String → Payload fl → Option CheckResult
  check_edge passed opportunity = do
    net_edge_bps ← read_net_edge fl opportunity
    if le net_edge_bps (num_zero fl)
        then some (reject ("net_edge_not_positive:" ++ˢ fl.show net_edge_bps) "net_edge_positive")
        else some (approval (also passed "net_edge_positive"))

  -- Check 6.
  unfoldable pub check_losses : List String → Dict String → Payload fl → Option CheckResult
  check_losses passed risk_hash opportunity = do
    consecutive_losses ← read_int "consecutive_losses" risk_hash
    if leb_ℤ settings.risk_max_consecutive_losses consecutive_losses
        then (let r =
              reject ("consecutive_loss_limit:" ++ˢ show_int consecutive_losses)
                "consecutive_losses" in
            some (record r { trigger_cooldown = true }))
        else check_edge (also passed "consecutive_losses") opportunity

  -- Check 5b.
  unfoldable pub check_exposure :
      List String → Dict String → Payload fl → F → F → F → Option CheckResult
  check_exposure passed risk_hash opportunity gross strategy new_notional =
      let projected = add gross new_notional in
      let projected_s = add strategy new_notional in
      if lt (num_zero fl) settings.risk_max_gross_exposure_usd
        && lt settings.risk_max_gross_exposure_usd projected
      then some (
          reject
            ("gross_exposure_cap:"
              ++ˢ fixed projected 0
              ++ˢ ">"
              ++ˢ fixed settings.risk_max_gross_exposure_usd 0)
            "gross_exposure")
      else if lt (num_zero fl) settings.risk_max_strategy_exposure_usd
          && lt settings.risk_max_strategy_exposure_usd projected_s
      then some (
          reject
            ("strategy_exposure_cap:"
              ++ˢ fixed projected_s 0
              ++ˢ ">"
              ++ˢ fixed settings.risk_max_strategy_exposure_usd 0)
            "strategy_exposure")
      else check_losses (also (also passed "gross_exposure") "strategy_exposure") risk_hash
          opportunity

  -- Check 5.
  unfoldable pub check_positions :
      List String → Dict String → Payload fl → F → F → F → Option CheckResult
  check_positions passed risk_hash opportunity gross strategy new_notional = do
    open_positions ← read_int "open_position_count" risk_hash
    if leb_ℤ settings.risk_max_open_positions open_positions
        then some (
            reject ("max_open_positions_reached:" ++ˢ show_int open_positions) "max_open_positions")
        else check_exposure (also passed "max_open_positions") risk_hash opportunity gross strategy
            new_notional

  -- Check 4b.
  unfoldable pub check_daily_loss :
      List String → Dict String → Payload fl → F → F → F → Option CheckResult
  check_daily_loss passed risk_hash opportunity gross strategy new_notional =
      let rest =
        check_positions (also passed "daily_loss_limit") risk_hash opportunity gross strategy
          new_notional in
      if lt (num_zero fl) settings.risk_daily_loss_limit_usd
      then (do
        daily_pnl_usd ← read_float_or fl "daily_pnl_usd" risk_hash
        if le daily_pnl_usd (neg settings.risk_daily_loss_limit_usd)
            then (let r =
                  reject ("daily_loss_limit_usd:" ++ˢ fixed daily_pnl_usd 2) "daily_loss_limit" in
                some (record r { auto_halt = true }))
            else rest)
      else rest

  -- Checks 1 to 4; the others follow in the functions above.
  unfoldable pub run_checks :
      Dict String → Payload fl → String → Dict String → Bool → F → F → F → Option CheckResult
  run_checks risk_hash opportunity halt_flag strategy_state on_cooldown gross strategy
        new_notional =
      if halt_flag =ˢ "1"
      then some (reject "kill_switch_active" "kill_switch")
      else if not (lookup_or "enabled" "0" strategy_state =ˢ "1")
      then some (reject "strategy_disabled" "strategy_enabled")
      else if on_cooldown
      then some (reject "strategy_on_cooldown" "strategy_cooldown")
      else do
        drawdown_pct ← read_float fl "daily_drawdown_pct" risk_hash
        if le settings.risk_max_daily_drawdown_pct drawdown_pct
            then (let r =
                  reject ("daily_drawdown_limit_breached:" ++ˢ fixed drawdown_pct 4)
                    "daily_drawdown" in
                some (record r { auto_halt = true }))
            else check_daily_loss
                (also (also (also (also [] "kill_switch") "strategy_enabled") "strategy_cooldown")
                  "daily_drawdown")
                risk_hash opportunity gross strategy new_notional
