-- ===== src/Tests/Funding.antt =====
-- Runs of the simulation of funding arbitrage, and the theorem at one.
use messiah_fx_prod.Prelude.{ℕ, ◌≡◌, refl, ◌>>=◌, none, some, List, [], ◌∷◌, map}
use messiah_fx_prod.Prelude.Int.{ℤ, pos, ◌/ℤ◌, ◌-ℤ◌, ◌+ℤ◌, ◌*ℤ◌}
use messiah_fx_prod.Prelude.ParseInt.{show_int}
use messiah_fx_prod.Numbers.Laws.{whole}
use messiah_fx_prod.Backtest.WalkForward.{by_ts}
use messiah_fx_prod.Backtest.Engine.{TradeRecord}
use messiah_fx_prod.Backtest.Engine.Schedule.{IsSchedule}
use messiah_fx_prod.Backtest.Engine.Funding.{
  SpotCandle, FundingRate, FundingParams, insert_rate, sort_rates, fund_from, funding_arb_trades,
}
use messiah_fx_prod.Backtest.Engine.Funding.Holding.{funding_arb_trades-IsSchedule}

abbrev closed : ℕ → ℕ → SpotCandle whole
closed at price = record { ts = pos at; close = pos price; symbol = none }

-- There is no candle at 3.
abbrev spots : List (SpotCandle whole)
spots = closed 1 100 ∷ closed 2 110 ∷ closed 4 120 ∷ []

abbrev rate_at : ℕ → ℕ → FundingRate whole
rate_at at bps = record { ts = pos at; ts_dt = ""; rate_bps = pos bps }

-- They are out of order.
abbrev rates : List (FundingRate whole)
rates = rate_at 2 90 ∷ rate_at 1 5 ∷ rate_at 4 90 ∷ rate_at 3 90 ∷ []

abbrev params : FundingParams whole
params = record { min_edge_bps = pos 10; fee_bps = pos 4; position_usd = pos 1000 }

exits : List (TradeRecord whole) → List ℤ
exits trades = map (λ (t : TradeRecord whole). t.exit_price) trades

-- It enters at 2, and waits for the candle of 4.
traded :
    (funding_arb_trades params spots rates >>= λ trades. some (exits trades)) ≡ some (pos 120 ∷ [])
unfolding funding_arb_trades fund_from sort_rates insert_rate by_ts exits ◌/ℤ◌ ◌-ℤ◌ show_int ◌+ℤ◌
    ◌*ℤ◌
traded = refl

funding_arb_trades-IsSchedule_example : IsSchedule 4 (funding_arb_trades params spots rates)
funding_arb_trades-IsSchedule_example =
    funding_arb_trades-IsSchedule params spots rates ((refl), (refl, (refl, tt)))
