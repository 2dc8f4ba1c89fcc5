-- ===== src/Tests/Strategies.antt =====
-- Runs of the regime map and of the order plan.
use messiah_fx_prod.Prelude.{refl}
use messiah_fx_prod.Numbers.Laws.{whole}
use messiah_fx_prod.Payload.{Payload, no_fields, field, text, object}
use messiah_fx_prod.Regimes.Known.{IsPlanned, build_order_plan-IsPlanned}
use messiah_fx_prod.Prelude.Text.{strip, lower}
use messiah_fx_prod.Executor.Plan.{side_of, resolve_side, build_order_plan}

abbrev long_signal : Payload whole
long_signal = field "direction" (text " Long") no_fields

abbrev breakout_payload : Payload whole
breakout_payload = field "strategy_type" (text "breakout") (
    field "symbol_primary" (text "EUR_USD") (
      field "symbol_secondary" (text "GBP_USD")
        (field "raw_signal" (object long_signal) no_fields)))

build_order_plan-IsPlanned_example : IsPlanned (build_order_plan breakout_payload)
unfolding resolve_side side_of strip lower
build_order_plan-IsPlanned_example =
    build_order_plan-IsPlanned breakout_payload long_signal "breakout" "buy" refl refl refl refl
      refl refl
