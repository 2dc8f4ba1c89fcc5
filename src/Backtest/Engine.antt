-- ===== src/Backtest/Engine.antt =====
-- services/backtest/app/engine.py: the simulation of statistical arbitrage. The mean and the sample
-- deviation of numpy are a parameter.
pub mod Schedule
pub mod Funding
use messiah_fx_prod.Prelude.{
  ℕ, zero, suc, ◌+◌, ◌-◌, String, Bool, true, false, not, ◌&&◌, ltb, leb, Option, none, some, List,
  [], ◌∷◌, ◌++◌, length, ◌>>=◌, if◌then◌else◌,
}
use messiah_fx_prod.Prelude.Int.{ℤ, pos, negsuc}
use messiah_fx_prod.Prelude.ParseInt.{show_int}
use messiah_fx_prod.Numbers.{Floats, num_zero, divide}
use messiah_fx_prod.Backtest.WalkForward.{align, slice}

pub record Numpy (fl : Floats) : Type 0 where
  pub np_mean : List fl.F → fl.F
  -- `np.std(xs, ddof=1)`
  pub np_std : List fl.F → fl.F

-- The text under which a candle's time, an int, is kept in a dict.
abbrev pub key_of : ℤ → String
key_of = show_int

pub record Candle (fl : Floats) : Type 0 where
  pub ts : ℤ
  pub ts_dt : String
  pub mid : fl.F

pub record TradeRecord (fl : Floats) : Type 0 where
  pub entry_ts : String
  pub exit_ts : String
  pub symbol : String
  pub strategy : String
  pub side : String
  pub entry_price : fl.F
  pub exit_price : fl.F
  pub quantity : fl.F
  pub pnl_usd : fl.F
  pub fee_usd : fl.F
  pub net_pnl_usd : fl.F
  pub hold_candles : ℕ

-- The position that the loop is in.
pub record Entry (fl : Floats) : Type 0 where
  pub entry_idx : ℕ
  pub is_above : Bool
  pub at_ts : String
  pub spread : fl.F
  pub price : fl.F
  pub qty : fl.F
  pub fee : fl.F

-- What is asked of a run; `position_usd` is the capital times DEFAULT_POSITION_PCT.
pub record Params (fl : Floats) : Type 0 where
  pub window : ℕ
  pub entry_z : fl.F
  pub exit_z : fl.F
  pub fee_bps : fl.F
  pub position_usd : fl.F

module _ (fl : Floats) where
  open fl use {F, lit, of_int, add, sub, mul, div, lt, abs, round}

  -- `values[i]`; the code stays in range
  abbrev value_at : ℕ → List F → F
  value_at i [] = num_zero fl
  value_at zero (x ∷ values) = x
  value_at (suc i) (x ∷ values) = value_at i values

  abbrev z_at : Numpy fl → List F → ℕ → ℕ → F
  z_at numpy values window i =
      let window_vals = slice (i - window) i values in
      if lt (num_zero fl) (numpy.np_std window_vals)
      then div (sub (value_at i values) (numpy.np_mean window_vals)) (numpy.np_std window_vals)
      else num_zero fl

  -- The scores of so many places from one on.
  abbrev z_from : Numpy fl → List F → ℕ → ℕ → ℕ → List (Option F)
  z_from numpy values window zero i = []
  z_from numpy values window (suc k) i =
      some (z_at numpy values window i) ∷ z_from numpy values window k (suc i)

  abbrev nones : ℕ → List (Option F)
  nones zero = []
  nones (suc n) = none ∷ nones n

  unfoldable pub rolling_z : Numpy fl → List F → ℕ → List (Option F)
  rolling_z numpy values window =
      nones window ++ z_from numpy values window (length values - window) window

  abbrev pub leg_fee : Params fl → F
  leg_fee params = mul (mul params.position_usd (div params.fee_bps (lit 10000 0))) (lit 2 0)

  -- `none` is a ZeroDivisionError.
  abbrev pub enter : Params fl → ℕ → F → Candle fl → F → Option (Entry fl)
  enter params i z candle spread = do
    quantity ← divide fl params.position_usd candle.mid
    some (record {
      entry_idx = i;
      is_above = lt (num_zero fl) z;
      at_ts = candle.ts_dt;
      spread = spread;
      price = candle.mid;
      qty = quantity;
      fee = leg_fee params;
    })

  abbrev pub sign_of : Bool → F
  sign_of above = if above then of_int (pos 1) else of_int (negsuc 0)

  abbrev pub close_entry : Params fl → ℕ → Candle fl → F → Entry fl → Option (TradeRecord fl)
  close_entry params i candle exit_spread entry = do
    ratio ←
        divide fl (mul (sign_of entry.is_above) (sub entry.spread exit_spread)) (abs entry.price)
    let pnl = mul ratio params.position_usd
    let total_fee = add entry.fee (leg_fee params)
    some (record {
      entry_ts = entry.at_ts;
      exit_ts = candle.ts_dt;
      symbol = "";
      strategy = "stat_arb";
      side = if entry.is_above then "sell_spread" else "buy_spread";
      entry_price = entry.price;
      exit_price = candle.mid;
      quantity = entry.qty;
      pnl_usd = round pnl 6;
      fee_usd = round total_fee 6;
      net_pnl_usd = round (sub pnl total_fee) 6;
      hold_candles = i - entry.entry_idx;
    })

  -- The loop over the scores, candles and spreads.
  unfoldable pub simulate_from :
      Params fl
      → ℕ
      → Option (Entry fl)
      → List (Option F)
      → List (Candle fl)
      → List F
      → Option (List (TradeRecord fl))
  simulate_from params i position (none ∷ zs) (candle ∷ candles) (spread ∷ spreads) =
      simulate_from params (suc i) position zs candles spreads
  simulate_from params i none (some z ∷ zs) (candle ∷ candles) (spread ∷ spreads) =
      if lt params.entry_z (abs z)
      then (enter params i z candle spread >>= λ entry.
          simulate_from params (suc i) (some entry) zs candles spreads)
      else simulate_from params (suc i) none zs candles spreads
  simulate_from params i (some entry) (some z ∷ zs) (candle ∷ candles) (spread ∷ spreads) =
      if lt (abs z) params.exit_z
      then (close_entry params i candle spread entry >>= λ trade.
          simulate_from params (suc i) none zs candles spreads >>= λ trades. some (trade ∷ trades))
      else simulate_from params (suc i) (some entry) zs candles spreads
  simulate_from params i position _ _ _ = some []

  abbrev spreads_of : List (Candle fl) → List (Candle fl) → List F
  spreads_of [] perp = []
  spreads_of (s ∷ spot) [] = []
  spreads_of (s ∷ spot) (p ∷ perp) = sub s.mid p.mid ∷ spreads_of spot perp

  -- The trades of run_stat_arb, none for too few candles.
  unfoldable pub stat_arb_trades :
      Numpy fl → Params fl → List (Candle fl) → List (Candle fl) → Option (List (TradeRecord fl))
  stat_arb_trades numpy params spot perp =
      let aligned = align (λ (c : Candle fl). key_of c.ts) spot perp in
      let spreads = spreads_of aligned.0 aligned.1 in
      if ltb (length aligned.0) (params.window + 10)
      then some []
      else simulate_from params 0 none (rolling_z numpy spreads params.window) aligned.0 spreads
