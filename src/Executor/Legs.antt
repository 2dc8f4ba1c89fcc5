-- ===== src/Executor/Legs.antt =====
-- services/executor/app/consumer.py: the legs of a plan, one after the other. The closes of
-- the bars of a symbol are an argument.
pub mod Tallies
pub mod Scaling
use Prim.Native.String.{◌++◌}
use messiah_fx_prod.Prelude.{
  ℕ, suc, ◌+◌, String, Bool, true, false, not, ◌&&◌, ◌||◌, ◌==◌, ltb, Option, none, some, List, [],
  ◌∷◌, length, ◌=ˢ◌, if◌then◌else◌,
}
use messiah_fx_prod.Prelude.Int.{pos}
use messiah_fx_prod.Numbers.{Floats, num_zero, num_one, or_zero}
use messiah_fx_prod.Payload.{
  Payload, Value, null, flag, num, text, object, no_fields, field, get, get_or,
}
use messiah_fx_prod.RedisKeys
use messiah_fx_prod.StreamNames
use messiah_fx_prod.Redis.{Redis, Exec, send, rpush, audit, mark_executed, xack}
use messiah_fx_prod.Executor.Settings.{Settings, is_paper}
use messiah_fx_prod.Executor.Plan.{Leg, build_order_plan}
use messiah_fx_prod.Executor.Sizing.{resolve_position_usd, calc_quantity}
use messiah_fx_prod.Executor.Orders.{OrderRequest, OrderResult}
use messiah_fx_prod.Executor.Desk.{
  Desk, Call, pure, or_raise, reads, on_server, persist, ◌>>=◌, ◌>>◌,
}
use messiah_fx_prod.Executor.VolSizing.{multiplier}
use messiah_fx_prod.Executor.Leg.{Outside, id_text, order_for, execute_leg}

-- What a message meets: the time, per leg two random ids, and the closes of the bars of a venue's
-- symbol, `none` where reading them raises.
pub record Moment (fl : Floats) : Type 0 where
  pub now : String
  pub random24 : ℕ → String
  pub uuid : ℕ → String
  pub closes : String → String → Option (List (Option fl.F))

-- What became of the legs so far.
pub record Tally (fl : Floats) : Type 0 where
  pub fills_attempted : ℕ
  pub fills_ok : ℕ
  pub realized_total : fl.F

module _ {fl : Floats} where
  -- The texts that name a strategy, a venue, a symbol; another value raises here.
  abbrev pub as_text : Value fl → Option String
  as_text (text s) = some s
  as_text _ = none

  abbrev pub text_or_null : Option String → Value fl
  text_or_null none = null
  text_or_null (some s) = text s

  abbrev pub id_of : Option (Value fl) → Option String
  id_of (some (text s)) = some s
  id_of _ = none

module _ (fl : Floats) where
  -- A quantity that is missing or not positive is none.
  abbrev pub usable : Option fl.F → Option fl.F
  usable none = none
  usable (some q) = if fl.le q (num_zero fl) then none else some q

  abbrev pub realized_of : Option fl.F → fl.F
  realized_of none = num_zero fl
  realized_of (some x) = or_zero fl x

-- The money for a leg, scaled by the multiplier unless that is one.
abbrev pub leg_usd :
    {fl : Floats} → Outside fl → Settings fl → Moment fl → fl.F → String → String → fl.F
leg_usd {fl} outside settings moment position_usd venue symbol =
    let mult = multiplier outside.roots settings (moment.closes venue symbol) in
    if settings.vol_target_enabled && not (fl.eq mult (num_one fl))
    then fl.mul position_usd mult
    else position_usd

module _ {fl : Floats} {r : Redis fl} (outside : Outside fl) (settings : Settings fl)
    (moment : Moment fl) (opportunity_id : Option String) (strategy_type : String) where
  -- The rejected trade of a leg that has no quantity; a failure of the database is swallowed.
  unfoldable pub no_tick : ℕ → String → String → String → Tally fl → Call r (Tally fl)
  no_tick i venue symbol side tally d =
      let order : OrderRequest fl = record {
        client_order_id = moment.uuid i;
        venue = venue;
        symbol = symbol;
        side = side;
        order_type = "market";
        quantity = num_zero fl;
        strategy_type = strategy_type;
        opportunity_id = opportunity_id;
        paper_mode = is_paper settings;
      } in
      let result : OrderResult fl = record {
        client_order_id = moment.uuid i;
        exchange_order_id = none;
        status = "rejected";
        filled_qty = num_zero fl;
        average_fill_price = num_zero fl;
        fee = num_zero fl;
        fee_currency = if venue =ˢ "oanda" then "USD" else "USDT";
        slippage_bps = num_zero fl;
        rejection_reason = some "no_tick_data_for_position_sizing";
      } in
      (
        some (record tally { fills_attempted = suc tally.fills_attempted }),
        (persist moment.now order result d).1,
      )

  -- The notification of a leg's result.
  abbrev pub notify_fill : OrderRequest fl → OrderResult fl → Call r Unit
  notify_fill order result = on_server (
      send (
        rpush RedisKeys.notification_queue (
          object (
            field "event" (text "trade.fill") (
              field "timestamp" (text moment.now) (
                field "symbol" (text order.symbol) (
                  field "side" (text order.side) (
                    field "status" (text result.status) (
                      field "filled_qty" (num result.filled_qty) (
                        field "avg_price" (num result.average_fill_price) (
                          field "fee" (num result.fee) (
                            field "fee_currency" (text result.fee_currency) (
                              field "slippage_bps" (num result.slippage_bps) (
                                field "strategy_type" (text strategy_type) (
                                  field "paper" (flag (is_paper settings)) (
                                    field "opportunity_id" (text_or_null opportunity_id) (
                                      field "reason" (text_or_null result.rejection_reason)
                                        no_fields)))))))))))))))))

  -- A leg with a quantity: the order, its notification and its persistence, which must succeed.
  unfoldable pub trade : ℕ → String → String → String → fl.F → Tally fl → Call r (Tally fl)
  trade i venue symbol side quantity tally = do
    (order, result) ← execute_leg outside settings (
        order_for outside settings (moment.random24 i) strategy_type opportunity_id i venue symbol
          side quantity)
    notify_fill order result
    realized ← persist moment.now order result
    pure (record {
      fills_attempted = suc tally.fills_attempted;
      fills_ok = if result.status =ˢ "filled" then suc tally.fills_ok else tally.fills_ok;
      realized_total = fl.add tally.realized_total (realized_of fl realized);
    })

  abbrev pub with_quantity :
      ℕ → String → String → String → Tally fl → Option fl.F → Call r (Tally fl)
  with_quantity i venue symbol side tally none = no_tick i venue symbol side tally
  with_quantity i venue symbol side tally (some q) = trade i venue symbol side q tally

  unfoldable pub run_leg : fl.F → ℕ → Leg fl → Tally fl → Call r (Tally fl)
  run_leg position_usd i leg tally = do
    venue ← or_raise (as_text leg.venue)
    symbol ← or_raise (as_text leg.symbol)
    quantity ← reads (
        calc_quantity r venue symbol leg.side
          (leg_usd outside settings moment position_usd venue symbol))
    with_quantity i venue symbol leg.side tally (usable fl quantity)

  unfoldable pub run_legs : fl.F → ℕ → List (Leg fl) → Tally fl → Call r (Tally fl)
  run_legs position_usd i [] tally = pure tally
  run_legs position_usd i (leg ∷ legs) tally = do
    next ← run_leg position_usd i leg tally
    run_legs position_usd (suc i) legs next
