-- ===== src/Backtest/Engine/Funding.antt =====
-- services/backtest/app/engine.py, run_funding_arb: the simulation of funding arbitrage, without the
-- metrics of its result.
pub mod Holding
use messiah_fx_prod.Prelude.{
  ℕ, zero, suc, ◌+◌, ◌-◌, ◌≤◌, ◌<◌, String, Bool, true, false, ltb, ◌≡◌, refl, ap, ◌∙◌, arith,
  Option, none, some, List, [], ◌∷◌, length, inl, inr, Bool-cases, Option-cases, ◌>>=◌,
  if◌then◌else◌,
}
use messiah_fx_prod.Prelude.Int.{ℤ, ltb_ℤ}
use messiah_fx_prod.Prelude.Dict.{Dict, lookup}
use messiah_fx_prod.Numbers.{Floats, num_zero, divide}
use messiah_fx_prod.Backtest.WalkForward.{by_ts}
use messiah_fx_prod.Backtest.Engine.{key_of, TradeRecord}

pub record SpotCandle (fl : Floats) : Type 0 where
  pub ts : ℤ
  pub close : fl.F
  pub symbol : Option String

pub record FundingRate (fl : Floats) : Type 0 where
  pub ts : ℤ
  pub ts_dt : String
  pub rate_bps : fl.F

-- entry_record
pub record FundingEntry (fl : Floats) : Type 0 where
  pub candle_idx : ℕ
  pub at_ts : String
  pub price : fl.F
  pub qty : fl.F
  pub fee : fl.F
  pub funding_rate_bps : fl.F

pub record FundingParams (fl : Floats) : Type 0 where
  pub min_edge_bps : fl.F
  pub fee_bps : fl.F
  pub position_usd : fl.F

module _ {fl : Floats} where
  open fl use {F, lit, add, sub, mul, div, lt, eq, round}

  -- `sorted(funding_rates, key=...)`, which is stable
  unfoldable pub insert_rate : FundingRate fl → List (FundingRate fl) → List (FundingRate fl)
  insert_rate rate [] = rate ∷ []
  insert_rate rate (next ∷ rates) =
      if ltb_ℤ next.ts rate.ts then next ∷ insert_rate rate rates else rate ∷ next ∷ rates

  unfoldable pub sort_rates : List (FundingRate fl) → List (FundingRate fl)
  sort_rates [] = []
  sort_rates (rate ∷ rates) = insert_rate rate (sort_rates rates)

  abbrev funding_fee : FundingParams fl → F
  funding_fee params = mul (mul params.position_usd (div params.fee_bps (lit 10000 0))) (lit 2 0)

  -- `none` is a ZeroDivisionError, here and below.
  abbrev enter_funding :
      FundingParams fl → ℕ → FundingRate fl → SpotCandle fl → Option (FundingEntry fl)
  enter_funding params i rate spot = do
    quantity ← divide fl params.position_usd spot.close
    some (record {
      candle_idx = i;
      at_ts = rate.ts_dt;
      price = spot.close;
      qty = quantity;
      fee = funding_fee params;
      funding_rate_bps = rate.rate_bps;
    })

  abbrev close_funding :
      FundingParams fl
      → String
      → ℕ
      → FundingRate fl
      → SpotCandle fl
      → FundingEntry fl
      → Option (TradeRecord fl)
  close_funding params symbol i rate spot entry = do
    change ← divide fl (sub spot.close entry.price) entry.price
    let funding_income = mul (div entry.funding_rate_bps (lit 10000 0)) params.position_usd
    let total_fee = add entry.fee (funding_fee params)
    let gross_pnl = add funding_income (mul change params.position_usd)
    some (record {
      entry_ts = entry.at_ts;
      exit_ts = rate.ts_dt;
      symbol = symbol;
      strategy = "funding_arb";
      side = "long_spot_short_perp";
      entry_price = entry.price;
      exit_price = spot.close;
      quantity = entry.qty;
      pnl_usd = round gross_pnl 6;
      fee_usd = round total_fee 6;
      net_pnl_usd = round (sub gross_pnl total_fee) 6;
      hold_candles = i - entry.candle_idx;
    })

  -- The loop over the sorted rates: at one of them, and from it on.
  abbrev is_worth : FundingParams fl → FundingRate fl → Bool
  is_worth params rate = lt (add params.min_edge_bps (mul (lit 2 0) params.fee_bps)) rate.rate_bps

  unfoldable pub fund_from :
      FundingParams fl
      → Dict (SpotCandle fl)
      → String
      → ℕ
      → Option (FundingEntry fl)
      → List (FundingRate fl)
      → Option (List (TradeRecord fl))
  fund_from params spots symbol i position [] = some []
  fund_from params spots symbol i none (rate ∷ rates) =
      if is_worth params rate
      then elim (lookup (key_of rate.ts) spots) [
        | none ↦ fund_from params spots symbol (suc i) none rates
        | some spot ↦ enter_funding params i rate spot >>= λ entry.
            fund_from params spots symbol (suc i) (some entry) rates
      ]
      else fund_from params spots symbol (suc i) none rates
  fund_from params spots symbol i (some entry) (rate ∷ rates) =
      if ltb entry.candle_idx i
      then elim (lookup (key_of rate.ts) spots) [
        | none ↦ fund_from params spots symbol (suc i) (some entry) rates
        | some spot ↦ close_funding params symbol i rate spot entry >>= λ trade.
            fund_from params spots symbol (suc i) none rates >>= λ trades. some (trade ∷ trades)
      ]
      else fund_from params spots symbol (suc i) (some entry) rates

  -- `spot_candles[0].get("symbol", "")`, asked only where a candle was found
  abbrev pub symbol_of : List (SpotCandle fl) → String
  symbol_of [] = ""
  symbol_of (spot ∷ spots) = elim spot.symbol [ none ↦ "" | some symbol ↦ symbol ]

  -- The trades of run_funding_arb.
  unfoldable pub funding_arb_trades :
      FundingParams fl
      → List (SpotCandle fl)
      → List (FundingRate fl)
      → Option (List (TradeRecord fl))
  funding_arb_trades params spots rates =
      fund_from params (by_ts (λ (c : SpotCandle fl). key_of c.ts) [] spots) (symbol_of spots) 0
        none (sort_rates rates)
