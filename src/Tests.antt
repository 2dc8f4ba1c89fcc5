-- ===== src/Tests.antt =====
-- Runs of the model: concrete states and messages, and the theorems at them.
mod Execution
mod Outcomes
mod Research
mod Funding
mod Sizing
mod Shared
mod Control
mod Sessions
mod Documents
mod Strategies
mod Filter
mod Signals
mod Webhooks
use messiah_fx_prod.Prelude.{
  String, true, false, ◌≡◌, refl, none, some, [], ◌∷◌, ◌=ˢ◌, if◌then◌else◌,
}
use messiah_fx_prod.Prelude.Int.{pos, ◌-ℤ◌, ◌+ℤ◌}
use messiah_fx_prod.Prelude.ParseInt.{parse_int, show_int}
use messiah_fx_prod.Prelude.Dict.{Dict, contains}
use messiah_fx_prod.Numbers.Laws.{whole, whole-IsOrdered}
use messiah_fx_prod.Orders.State.{
  partially_filled, all_states, normalize_status, is_terminal, is_valid_transition,
}
use messiah_fx_prod.Orders.State.Lifecycle.{
  here, move, terminal_is_final, no_cycle, normalize_status_idem,
}
use messiah_fx_prod.Ledger.Pnl.{PositionState, apply_fill}
use messiah_fx_prod.Ledger.Pnl.Fees.{IsSound, Sound, apply_fill-Sound}
use messiah_fx_prod.Payload.{Payload, no_fields, field, text, num, object}
use messiah_fx_prod.Redis.{World}
use messiah_fx_prod.Redis.Memory.{Memory, memory, memory-IsServer}
use messiah_fx_prod.Risk.Settings.{Settings}
use messiah_fx_prod.Risk.Checker.{
  run_checks, check_daily_loss, check_positions, check_exposure, check_losses, check_edge,
}
use messiah_fx_prod.Risk.Checker.Conditions.{all_passed, Approves, IsAdmissible}
use messiah_fx_prod.Risk.Checker.Approval.{run_checks-IsAdmissible, run_checks-approves}
use messiah_fx_prod.Risk.Checker.Verdict.{IsVerdict, run_checks-IsVerdict}
use messiah_fx_prod.Risk.State.{decrement_open_positions}
use messiah_fx_prod.Risk.State.Decrement.{decrement_open_positions-Counts}
use messiah_fx_prod.Risk.Consumer.Untouched.{Counts}
use messiah_fx_prod.Risk.Consumer.{Moment, run}
use messiah_fx_prod.Risk.Consumer.PositionCap.{IsWithin, run-IsWithin}

no_cycle_example : partially_filled ≡ partially_filled
unfolding is_valid_transition
no_cycle_example = no_cycle (move {t = partially_filled} refl here) here

-- 10 units bought at 100, with 4 of fees.
abbrev long_position : PositionState whole
long_position = record { net_qty = pos 10; avg_price = pos 100; open_fees = pos 4 }

abbrev long_position-IsSound : IsSound whole whole-IsOrdered long_position
long_position-IsSound = record { price = refl; fees = refl }

apply_fill-Sound_example :
    Sound whole whole-IsOrdered (apply_fill whole long_position "sell" (pos 15) (pos 120) (pos 3))
apply_fill-Sound_example =
    apply_fill-Sound whole whole-IsOrdered long_position "sell" (pos 15) (pos 120) (pos 3)
      long_position-IsSound

abbrev pub settings_in_paper : Settings whole
settings_in_paper = record {
  trading_mode = "paper";
  risk_max_per_trade_pct = pos 1;
  risk_max_daily_drawdown_pct = pos 3;
  risk_max_open_positions = pos 5;
  risk_max_consecutive_losses = pos 4;
  risk_cooldown_minutes = 30;
  paper_capital_usd = pos 5000;
  risk_max_gross_exposure_usd = pos 20000;
  risk_max_strategy_exposure_usd = pos 0;
  risk_daily_loss_limit_usd = pos 200;
}

abbrev four_open : Dict String
four_open =
    ("open_position_count", "4") ∷ ("daily_pnl_usd", "-50") ∷ ("risk_date", "2026-01-05") ∷ []

abbrev pub swing_signal : Payload whole
swing_signal =
    field "strategy_type" (text "swing")
      (field "symbol_primary" (text "BTC/USDT") (field "net_edge_bps" (num (pos 12)) no_fields))

abbrev pub enabled_state : Dict String
enabled_state = ("enabled", "1") ∷ []

swing_is_approved : Approves (
    run_checks settings_in_paper four_open swing_signal "0" enabled_state false
      (pos 9000)
      (pos 9000)
      (pos 5000))
unfolding run_checks check_daily_loss check_positions check_exposure check_losses check_edge
    parse_int ◌-ℤ◌ ◌+ℤ◌
swing_is_approved = refl

run_checks-IsAdmissible_example :
    IsAdmissible settings_in_paper four_open swing_signal "0" enabled_state false
      (pos 9000)
      (pos 9000)
      (pos 5000)
run_checks-IsAdmissible_example =
    run_checks-IsAdmissible settings_in_paper four_open swing_signal (pos 9000) (pos 9000)
      (pos 5000) "0" enabled_state false swing_is_approved

run_checks-approves_example :
    run_checks settings_in_paper four_open swing_signal "0" enabled_state false
      (pos 9000)
      (pos 9000)
      (pos 5000)
    ≡ some all_passed
run_checks-approves_example =
    run_checks-approves settings_in_paper four_open swing_signal (pos 9000) (pos 9000) (pos 5000)
      "0" enabled_state false
      (run_checks-IsAdmissible settings_in_paper four_open swing_signal (pos 9000) (pos 9000)
        (pos 5000) "0" enabled_state false swing_is_approved)

-- The gross exposure would pass its cap.
run_checks-IsVerdict_example : IsVerdict (
    run_checks settings_in_paper four_open swing_signal "0" enabled_state false
      (pos 16000)
      (pos 9000)
      (pos 5000))
run_checks-IsVerdict_example =
    run_checks-IsVerdict settings_in_paper four_open swing_signal (pos 16000) (pos 9000) (pos 5000)
      "0" enabled_state false

abbrev pub server : Memory whole
server = record {
  texts = λ k. none;
  lists = λ k. [];
  hashes = λ k.
      if k =ˢ "risk:state"
      then four_open
      else if k =ˢ "strategy:state:swing"
      then enabled_state
      else [];
}

abbrev pub world : World (memory whole)
world = record { server = server; sent = [] }

abbrev pub morning : Moment whole
morning = record {
  today = "2026-01-05";
  now = "2026-01-05T09:00:00";
  exposure_rows = some (("swing", pos 9000) ∷ []);
}

abbrev pub swing_message : Payload whole
swing_message = field "payload" (object swing_signal) (field "opportunity_id" (text "a1") no_fields)

-- Five are open after the first message, and the second is rejected.
run-IsWithin_example :
    IsWithin
      (memory whole)
      (pos 5)
      (run settings_in_paper
        (("1-0", swing_message, morning) ∷ ("2-0", swing_message, morning) ∷ [])
        world).1.server
unfolding show_int
run-IsWithin_example =
    run-IsWithin (memory-IsServer whole) settings_in_paper
      (("1-0", swing_message, morning) ∷ ("2-0", swing_message, morning) ∷ []) world (4, refl, refl)

decrement_open_positions-Counts_example :
    ((decrement_open_positions {r = memory whole} "10:00" world).0 ≡ some (pos 3))
    × Counts (memory whole) 3 (decrement_open_positions {r = memory whole} "10:00" world).1.server
unfolding show_int
decrement_open_positions-Counts_example =
    decrement_open_positions-Counts (memory-IsServer whole) 4 "10:00" world refl
