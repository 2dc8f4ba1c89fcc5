-- ===== src/Executor/Leg.antt =====
-- services/executor/app/consumer.py, idempotency.py, adapters/registry.py and
-- shared/mezna_shared/order_ids.py: one leg becomes one order. A venue's answer to an order is a
-- parameter, and so are the first 24 hex digits of SHA-256 and of a random UUID.
pub mod Replay
use Prim.Native.String.{◌++◌}
use mathlib.Core.List.{◌++◌ as ◌++ˡ◌}
use messiah_fx_prod.Prelude.{
  ℕ, String, Bool, true, false, Option, none, some, List, [], ◌∷◌, ◌=ˢ◌, if◌then◌else◌,
}
use messiah_fx_prod.Prelude.Int.{pos}
use messiah_fx_prod.Prelude.ParseInt.{show_int}
use messiah_fx_prod.Prelude.Dict.{Dict, contains, lookup, insert}
use messiah_fx_prod.Numbers.{Floats, num_zero}
use messiah_fx_prod.Volatility.{Roots}
use messiah_fx_prod.Redis.{Redis}
use messiah_fx_prod.RedisKeys
use messiah_fx_prod.Executor.Settings.{Settings, is_paper}
use messiah_fx_prod.Executor.Orders.{OrderRequest, OrderResult}
use messiah_fx_prod.Executor.Desk.{Desk, Call}

-- An adapter returns a result, or raises with a message.
pub data Answer (fl : Floats) : Type 0 where
  returned : OrderResult fl → Answer fl
  failed : String → Answer fl

pub record Outside (fl : Floats) : Type 0 where
  pub hash24 : String → String
  pub roots : Roots fl
  -- The answer to an order, after the orders sent before it.
  pub answer : List (OrderRequest fl) → OrderRequest fl → Answer fl

abbrev pub id_text : Option String → String
id_text none = ""
id_text (some id) = id

-- The venues that `build` registers.
abbrev pub adapters : List String
adapters = "paper" ∷ "mt5" ∷ "binance" ∷ "bybit" ∷ "okx" ∷ "kraken" ∷ "oanda" ∷ []

module _ {fl : Floats} (outside : Outside fl) where
  unfoldable pub make_client_order_id : String → Option String → ℕ → String → String → String
  make_client_order_id random24 opportunity_id leg_index side symbol =
      if id_text opportunity_id =ˢ ""
      then "mx-" ++ random24
      else "mx-"
        ++ outside.hash24 (
            id_text opportunity_id
            ++ ":"
            ++ show_int (pos leg_index)
            ++ ":"
            ++ side
            ++ ":"
            ++ symbol)

  -- The market order of a leg.
  abbrev pub order_for :
      Settings fl
      → String
      → String
      → Option String
      → ℕ
      → String
      → String
      → String
      → fl.F
      → OrderRequest fl
  order_for settings random24 strategy_type opportunity_id leg_index venue symbol side quantity =
      record {
        client_order_id = make_client_order_id random24 opportunity_id leg_index side symbol;
        venue = venue;
        symbol = symbol;
        side = side;
        order_type = "market";
        quantity = quantity;
        strategy_type = strategy_type;
        opportunity_id = opportunity_id;
        paper_mode = is_paper settings;
      }

  -- The name of the adapter for a leg: paper mode has one for every venue.
  abbrev pub resolve : Settings fl → String → Option String
  resolve settings venue =
      if is_paper settings
      then some "paper"
      else if contains venue adapters
      then some venue
      else none

  abbrev pub error_result : OrderRequest fl → String → OrderResult fl
  error_result order message = record {
    client_order_id = order.client_order_id;
    exchange_order_id = none;
    status = "error";
    filled_qty = num_zero fl;
    average_fill_price = num_zero fl;
    fee = num_zero fl;
    fee_currency = if order.venue =ˢ "oanda" then "USD" else "USDT";
    slippage_bps = num_zero fl;
    rejection_reason = some message;
  }

  abbrev pub result_of : OrderRequest fl → Answer fl → OrderResult fl
  result_of order (returned result) = result
  result_of order (failed message) = error_result order message

  module _ {r : Redis fl} where
    -- The order goes to the adapter; an unknown venue is an error like a failed call.
    abbrev pub submit : Option String → OrderRequest fl → Desk r → OrderResult fl × Desk r
    submit none order d = (error_result order ("Unknown venue: '" ++ order.venue ++ "'"), d)
    submit (some adapter) order d = (
      result_of order (outside.answer d.submitted order),
      record d { submitted = d.submitted ++ˡ order ∷ [] },
    )

    abbrev pub recover_result : String → Desk r → Option (OrderResult fl)
    recover_result result_key d = lookup result_key d.results

    abbrev pub record_result : String → OrderResult fl → Desk r → Desk r
    record_result result_key result d = record d { results = insert result_key result d.results }

    -- A recorded result is reused; otherwise the order is sent and its result recorded.
    abbrev pub send_or_reuse :
        Settings fl
        → OrderRequest fl
        → String
        → Option (OrderResult fl)
        → Call r (OrderRequest fl × OrderResult fl)
    send_or_reuse settings order result_key (some recovered) d = (some (order, recovered), d)
    send_or_reuse settings order result_key none d =
        let sent = submit (resolve settings order.venue) order d in
        (some (order, sent.0), record_result result_key sent.0 sent.1)

    unfoldable pub execute_leg :
        Settings fl → OrderRequest fl → Call r (OrderRequest fl × OrderResult fl)
    execute_leg settings order d =
        let result_key = RedisKeys.execution_result order.client_order_id in
        send_or_reuse settings order result_key (recover_result result_key d) d
