-- ===== src/Tests/Research.antt =====
-- Runs of the resampling of ticks and of the walk-forward analysis, and the theorems at them.
use messiah_fx_prod.Prelude.{
  ℕ, String, ◌≡◌, refl, arith, ◌>>=◌, none, some, List, [], ◌∷◌, map, length,
}
use messiah_fx_prod.Prelude.Int.{ℤ, pos, ◌/ℤ◌, ◌-ℤ◌, abs}
use messiah_fx_prod.Prelude.ParseInt.{show_int}
use messiah_fx_prod.Numbers.Laws.{whole, whole-IsOrdered}
use messiah_fx_prod.Payload.{Payload, no_fields, field, num}
use messiah_fx_prod.Bars.{Times, Row, rows_of, ticks_to_ohlcv}
use messiah_fx_prod.Bars.Candles.{AllDated, IsSeries, ticks_to_ohlcv-IsSeries}
use messiah_fx_prod.Backtest.WalkForward.{Run, by_ts, align, optimise, wfa_windows}
use messiah_fx_prod.Backtest.WalkForward.Windows.{stepped, fitting, wfa_windows-stepped}
use messiah_fx_prod.Backtest.WalkForward.Optimum.{IsOptimum, optimise-IsOptimum}
use messiah_fx_prod.Backtest.Engine.{
  Numpy, Candle, Params, TradeRecord, rolling_z, simulate_from, stat_arb_trades,
}
use messiah_fx_prod.Backtest.Engine.Schedule.{IsSchedule, stat_arb_trades-IsSchedule}

abbrev times : Times whole
times = record {
  from_iso = λ s. none;
  iso = λ n. some (show_int n);
  floor_div = λ x n. some (x /ℤ n);
}

abbrev tick : ℕ → ℕ → Payload whole
tick at_time mid = field "timestamp" (num (pos at_time)) (field "mid" (num (pos mid)) no_fields)

abbrev ticks : List (Payload whole)
ticks = tick 125 30 ∷ tick 61 20 ∷ tick 62 10 ∷ []

all-dated : (rows : List (Row whole)) → AllDated times (pos 60) rows
all-dated [] = tt
all-dated (row ∷ rows) = (
  record { index = row.at_time /ℤ pos 60; label = _; is_index = refl; is_label = refl },
  all-dated rows,
)

ticks_to_ohlcv-IsSeries_example :
    IsSeries whole
      (length (rows_of times "mid" "timestamp" ticks))
      (ticks_to_ohlcv times ticks (pos 60) "mid" "timestamp")
ticks_to_ohlcv-IsSeries_example =
    ticks_to_ohlcv-IsSeries whole-IsOrdered times (pos 60) ticks "mid" "timestamp" refl
      (all-dated (rows_of times "mid" "timestamp" ticks))

wfa_windows-stepped_example :
    wfa_windows 10 (pos 4) (pos 2) (pos 2) ≡ some (stepped 4 2 2 0 (fitting 10 6 2 0))
wfa_windows-stepped_example =
    wfa_windows-stepped 10 4 2 2 (ground arith) (ground arith) (ground arith)

-- A wider window does better.
abbrev run : ℤ → ℤ → Run whole
run w ez = record { sharpe_ratio = w; total_trades = 1; net_pnl_usd = ez }

optimise-IsOptimum_example :
    IsOptimum whole-IsOrdered run
      (pos 20 ∷ pos 60 ∷ [])
      (pos 2 ∷ [])
      (optimise run (pos 20 ∷ pos 60 ∷ []) (pos 2 ∷ []) none)
optimise-IsOptimum_example =
    optimise-IsOptimum whole-IsOrdered run (pos 20) (pos 60 ∷ []) (pos 2) []

abbrev candle_time : String × ℕ → String
candle_time c = c.0

abbrev spot : List (String × ℕ)
spot = ("10:00", 1) ∷ ("10:01", 2) ∷ []

abbrev perp : List (String × ℕ)
perp = ("10:01", 3) ∷ ("10:02", 4) ∷ []

abbrev priced : ℕ → ℤ → Candle whole
priced at mid = record { ts = pos at; ts_dt = ""; mid = mid }

abbrev perps : List (Candle whole)
perps =
    priced 0 (pos 10)
    ∷ priced 1 (pos 10)
    ∷ priced 2 (pos 10)
    ∷ priced 3 (pos 10)
    ∷ priced 4 (pos 10)
    ∷ priced 5 (pos 10)
    ∷ priced 6 (pos 10)
    ∷ priced 7 (pos 10)
    ∷ priced 8 (pos 10)
    ∷ priced 9 (pos 10)
    ∷ priced 10 (pos 10)
    ∷ priced 11 (pos 10)
    ∷ []

-- The price jumps at 3 and is back at the mean at 6.
abbrev spots : List (Candle whole)
spots =
    priced 0 (pos 10)
    ∷ priced 1 (pos 10)
    ∷ priced 2 (pos 10)
    ∷ priced 3 (pos 15)
    ∷ priced 4 (pos 20)
    ∷ priced 5 (pos 25)
    ∷ priced 6 (pos 25)
    ∷ priced 7 (pos 25)
    ∷ priced 8 (pos 25)
    ∷ priced 9 (pos 25)
    ∷ priced 10 (pos 25)
    ∷ priced 11 (pos 25)
    ∷ []

-- The mean is the first value of the window.
abbrev first_value : List ℤ → ℤ
first_value [] = pos 0
first_value (x ∷ xs) = x

abbrev numpy : Numpy whole
numpy = record { np_mean = first_value; np_std = λ xs. pos 1 }

abbrev params : Params whole
params = record {
  window = 1;
  entry_z = pos 3;
  exit_z = pos 1;
  fee_bps = pos 0;
  position_usd = pos 1000;
}

holds : List (TradeRecord whole) → List ℕ
holds trades = map (λ (t : TradeRecord whole). t.hold_candles) trades

traded :
    (stat_arb_trades whole numpy params spots perps >>= λ trades. some (holds trades))
    ≡ some (3 ∷ [])
unfolding stat_arb_trades rolling_z simulate_from align by_ts holds abs ◌/ℤ◌ ◌-ℤ◌ show_int
traded = refl

stat_arb_trades-IsSchedule_example : IsSchedule 12 (stat_arb_trades whole numpy params spots perps)
unfolding align by_ts abs show_int
stat_arb_trades-IsSchedule_example = stat_arb_trades-IsSchedule numpy params spots perps (
  (refl, refl),
  (
    (refl, refl),
    (
      (refl, refl),
      (
        (refl, refl),
        (
          (refl, refl),
          (
            (refl, refl),
            (
              (refl, refl),
              ((refl, refl), ((refl, refl), ((refl, refl), ((refl, refl), ((refl, refl), tt))))),
            ),
          ),
        ),
      ),
    ),
  ),
)
