-- ===== src/Executor/Paper.antt =====
-- services/executor/app/adapters/paper.py: an order is filled at the latest tick. The random digits of
-- the order id are an argument, and the raw response is left out.
pub mod Fills
use Prim.Native.Char.{code}
use Prim.Native.String
use Prim.Native.String.{◌++◌}
use messiah_fx_prod.Prelude.{
  ℕ, String, Bool, true, false, ◌||◌, ◌==◌, ◌≡◌, refl, Option, none, some, List, [], ◌∷◌, ◌=ˢ◌,
  ◌>>=◌, if◌then◌else◌,
}
use messiah_fx_prod.Prelude.Dict.{Dict, lookup}
use messiah_fx_prod.Numbers.{Floats, num_zero}
use messiah_fx_prod.Redis.{Redis}
use messiah_fx_prod.Executor.Sizing.{latest_tick}
use messiah_fx_prod.Executor.Orders.{OrderRequest, OrderResult}

-- `symbol.split("/")[1]`, without its end, or `none` for a symbol without a slash
after_slash : String → Option String
after_slash String.[] = none
after_slash (String.◌∷◌ c s) = if code c == 47 then some s else after_slash s

-- What stands before the next slash or colon.
until_mark : String → String
until_mark String.[] = ""
until_mark (String.◌∷◌ c s) =
    if code c == 47 || code c == 58 then "" else String.◌∷◌ c (until_mark s)

quote_of : Option String → String
unfolding until_mark
quote_of none = "USDT"
quote_of (some s) = until_mark s

unfoldable pub infer_fee_currency : String → String → String
unfolding after_slash quote_of
infer_fee_currency symbol venue = if venue =ˢ "oanda" then "USD" else quote_of (after_slash symbol)

infer_fee_currency_runs : infer_fee_currency "BTC/USDC:USDT" "bybit" ≡ "USDC"
unfolding infer_fee_currency until_mark
infer_fee_currency_runs = refl

pub record Quote (fl : Floats) : Type 0 where
  pub bid : fl.F
  pub ask : fl.F
  pub mid : fl.F

-- `float(tick[key])`, `none` where it raises
abbrev pub price_of : (fl : Floats) → String → Dict String → Option fl.F
price_of fl key tick = do raw ← lookup key tick; fl.parse raw

module _ {fl : Floats} where
  open fl use {F, lit, sub, mul, div, lt, round}

  abbrev pub quote_from : Option F → Option F → Option F → Option (Quote fl)
  quote_from (some bid) (some ask) (some mid) = some (record { bid = bid; ask = ask; mid = mid })
  quote_from _ _ _ = none

  abbrev pub quote_in : Dict String → Option (Quote fl)
  quote_in tick =
      quote_from (price_of fl "bid" tick) (price_of fl "ask" tick) (price_of fl "mid" tick)

  -- An order that was not filled.
  abbrev pub unfilled : OrderRequest fl → String → String → OrderResult fl
  unfilled order status reason = record {
    client_order_id = order.client_order_id;
    exchange_order_id = none;
    status = status;
    filled_qty = num_zero fl;
    average_fill_price = num_zero fl;
    fee = num_zero fl;
    fee_currency = "USDT";
    slippage_bps = num_zero fl;
    rejection_reason = some reason;
  }

  -- A buyer pays the ask, a seller receives the bid.
  abbrev pub fill_price : String → Quote fl → F
  fill_price side quote = if side =ˢ "buy" then quote.ask else quote.bid

  abbrev pub slippage : String → Quote fl → F
  slippage side quote =
      if lt (num_zero fl) quote.mid
      then round
          (mul
            (div (if side =ˢ "buy" then sub quote.ask quote.mid else sub quote.mid quote.bid)
              quote.mid)
            (lit 10000 0))
          4
      else num_zero fl

  abbrev pub fill : String → OrderRequest fl → F → Quote fl → OrderResult fl
  fill random12 order fee_bps quote =
      let price = fill_price order.side quote in
      let notional = mul order.quantity price in
      record {
        client_order_id = order.client_order_id;
        exchange_order_id = some ("paper_" ++ random12);
        status = "filled";
        filled_qty = order.quantity;
        average_fill_price = price;
        fee = round (mul notional (div fee_bps (lit 10000 0))) 8;
        fee_currency = infer_fee_currency order.symbol order.venue;
        slippage_bps = slippage order.side quote;
        rejection_reason = none;
      }

  abbrev pub filled_or_error : String → OrderRequest fl → F → Option (Quote fl) → OrderResult fl
  filled_or_error random12 order fee_bps none = unfilled order "error" "malformed_tick_data"
  filled_or_error random12 order fee_bps (some quote) = fill random12 order fee_bps quote

  abbrev pub fill_at : String → OrderRequest fl → F → Dict String → OrderResult fl
  fill_at random12 order fee_bps [] = unfilled order "rejected" "no_tick_data_available"
  fill_at random12 order fee_bps (e ∷ tick) =
      filled_or_error random12 order fee_bps (quote_in (e ∷ tick))

  unfoldable pub simulate : (r : Redis fl) → String → OrderRequest fl → F → r.S → OrderResult fl
  simulate r random12 order fee_bps s =
      fill_at random12 order fee_bps (r.hash_at (latest_tick order.venue order.symbol) s)
