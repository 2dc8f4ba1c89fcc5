-- ===== src/Backtest/WalkForward.antt =====
-- services/backtest/app/walk_forward.py: parameters that are chosen on a window of the past and tried
-- on the window that follows. The engine that runs a strategy over candles is an argument, and so is
-- the median of the statistics module; the stability of the parameters is left out.
pub mod Windows
pub mod Alignment
pub mod Optimum
pub mod Summary
use messiah_fx_prod.Prelude.{
  ℕ, zero, suc, ◌+◌, ◌-◌, String, Bool, true, false, not, ◌&&◌, ◌||◌, leb, Option, none, some, List,
  [], ◌∷◌, map, length, ◌>>=◌, if◌then◌else◌,
}
use messiah_fx_prod.Prelude.Int.{ℤ, pos, pos_part, leb_ℤ}
use messiah_fx_prod.Prelude.Dict.{Dict, lookup, insert}
use messiah_fx_prod.Numbers.{Floats, num_zero}

pub record Window : Type 0 where
  pub is_start : ℕ
  pub is_end : ℕ
  pub oos_start : ℕ
  pub oos_end : ℕ

abbrev pub window_at : ℕ → ℕ → ℕ → Window
window_at is_size oos_size is_start = record {
  is_start = is_start;
  is_end = is_start + is_size;
  oos_start = is_start + is_size;
  oos_end = is_start + is_size + oos_size;
}

-- The loop, on fuel; one round per observation and one more are enough.
unfoldable pub roll : ℕ → ℕ → ℕ → ℕ → ℕ → ℕ → List Window
roll zero n is_size oos_size step is_start = []
roll (suc fuel) n is_size oos_size step is_start =
    let rest = roll fuel n is_size oos_size step (is_start + step) in
    if leb (is_start + is_size + oos_size) n then window_at is_size oos_size is_start ∷ rest else []

-- `none` is the ValueError for a size that is not positive.
unfoldable pub wfa_windows : ℕ → ℤ → ℤ → ℤ → Option (List Window)
wfa_windows n is_size oos_size step =
    if leb_ℤ is_size (pos 0) || leb_ℤ oos_size (pos 0) || leb_ℤ step (pos 0)
    then none
    else some (roll (suc n) n (pos_part is_size) (pos_part oos_size) (pos_part step) 0)

module _ {C : Type 0} (ts : C → String) where
  -- `{c["ts"]: c for c in perp}`
  unfoldable pub by_ts : Dict C → List C → Dict C
  by_ts d [] = d
  by_ts d (c ∷ perp) = by_ts (insert (ts c) c d) perp

  abbrev pub with_match : C → Option C → List C × List C → List C × List C
  with_match c none rest = rest
  with_match c (some p) rest = (c ∷ rest.0, p ∷ rest.1)

  abbrev pub matches : Dict C → List C → List C × List C
  matches d [] = ([], [])
  matches d (c ∷ spot) = with_match c (lookup (ts c) d) (matches d spot)

  -- `_align`
  unfoldable pub align : List C → List C → List C × List C
  align spot perp = matches (by_ts [] perp) spot

-- `xs[i:j]`
abbrev drop {ℓ} : {A : Type ℓ} → ℕ → List A → List A
drop zero xs = xs
drop (suc n) [] = []
drop (suc n) (x ∷ xs) = drop n xs

abbrev take {ℓ} : {A : Type ℓ} → ℕ → List A → List A
take zero xs = []
take (suc n) [] = []
take (suc n) (x ∷ xs) = x ∷ take n xs

abbrev pub slice {ℓ} : {A : Type ℓ} → ℕ → ℕ → List A → List A
slice i j xs = take (j - i) (drop i xs)

-- What is read of a run of the engine.
pub record Run (fl : Floats) : Type 0 where
  pub sharpe_ratio : fl.F
  pub total_trades : ℕ
  pub net_pnl_usd : fl.F

pub record Best (fl : Floats) : Type 0 where
  pub best_window : ℤ
  pub best_entry_z : fl.F
  pub is_sharpe : fl.F
  pub is_trades : ℕ

pub record Fold (fl : Floats) : Type 0 where
  pub best : Best fl
  pub oos : Run fl

module _ {fl : Floats} where
  abbrev pub best_of : ℤ → fl.F → Run fl → Best fl
  best_of w ez r = record {
    best_window = w;
    best_entry_z = ez;
    is_sharpe = r.sharpe_ratio;
    is_trades = r.total_trades;
  }

  -- A run replaces the best one if its Sharpe ratio is higher.
  abbrev pub better : Option (Best fl) → ℤ → fl.F → Run fl → Option (Best fl)
  better none w ez r = some (best_of w ez r)
  better (some b) w ez r =
      if fl.lt b.is_sharpe r.sharpe_ratio then some (best_of w ez r) else some b

  unfoldable pub try_entries :
      (ℤ → fl.F → Run fl) → ℤ → List fl.F → Option (Best fl) → Option (Best fl)
  try_entries run w [] best = best
  try_entries run w (ez ∷ entry_z_grid) best =
      try_entries run w entry_z_grid (better best w ez (run w ez))

  -- The in-sample optimisation, `none` for an empty grid.
  unfoldable pub optimise :
      (ℤ → fl.F → Run fl) → List ℤ → List fl.F → Option (Best fl) → Option (Best fl)
  optimise run [] entry_z_grid best = best
  optimise run (w ∷ window_grid) entry_z_grid best =
      optimise run window_grid entry_z_grid (try_entries run w entry_z_grid best)

  module _ {C : Type 0} (run_stat_arb : List C → List C → ℤ → fl.F → Run fl) (window_grid : List ℤ)
      (entry_z_grid : List fl.F) (a_spot a_perp : List C) where
    -- One window; without a best run the code raises.
    unfoldable pub fold_of : Window → Option (Fold fl)
    fold_of w = do
      best ←
          optimise
            (run_stat_arb (slice w.is_start w.is_end a_spot) (slice w.is_start w.is_end a_perp))
            window_grid entry_z_grid none
      some (record {
        best = best;
        oos =
            run_stat_arb (slice w.oos_start w.oos_end a_spot) (slice w.oos_start w.oos_end a_perp)
              best.best_window best.best_entry_z;
      })

    unfoldable pub folds_of : List Window → Option (List (Fold fl))
    folds_of [] = some []
    folds_of (w ∷ windows) = do fold ← fold_of w; folds ← folds_of windows; some (fold ∷ folds)

  -- The folds of `walk_forward_stat_arb`.
  unfoldable pub walk_forward_stat_arb :
      {C : Type 0}
      → (C → String)
      → (List C → List C → ℤ → fl.F → Run fl)
      → List C
      → List C
      → List ℤ
      → List fl.F
      → ℤ
      → ℤ
      → ℤ
      → Option (List (Fold fl))
  walk_forward_stat_arb ts run_stat_arb spot perp window_grid entry_z_grid is_size oos_size step =
      do
        let aligned = align ts spot perp
        windows ← wfa_windows (length aligned.0) is_size oos_size step
        folds_of run_stat_arb window_grid entry_z_grid aligned.0 aligned.1 windows
