-- ===== src/Backtest/WalkForward/Summary.antt =====
-- services/backtest/app/walk_forward.py, summarize_walk_forward: the verdict on the folds. The median
-- of the statistics module is an argument.
use messiah_fx_prod.Prelude.{
  ℕ, ◌+◌, String, Bool, true, false, ◌&&◌, ◌||◌, Option, none, some, List, [], ◌∷◌, map, length,
  if◌then◌else◌,
}
use messiah_fx_prod.Prelude.Int.{pos}
use messiah_fx_prod.Numbers.{Floats, num_zero, or_zero}
use messiah_fx_prod.Backtest.WalkForward.{Fold}

pub record Summary (fl : Floats) : Type 0 where
  pub folds : ℕ
  pub verdict : String
  pub median_oos_sharpe : Option fl.F
  pub mean_oos_sharpe : Option fl.F
  pub mean_is_sharpe : Option fl.F
  pub walk_forward_efficiency : Option fl.F
  pub positive_fold_fraction : Option fl.F
  pub total_oos_net_pnl : fl.F
  pub total_oos_trades : ℕ

module _ (fl : Floats) where
  open fl use {F, lit, div, lt, le, round, total, of_int}

  abbrev mean : List F → F
  mean xs = div (total xs) (of_int (pos (length xs)))

  abbrev count_positive : List F → ℕ
  count_positive [] = 0
  count_positive (x ∷ xs) =
      let rest = count_positive xs in if lt (num_zero fl) x then rest + 1 else rest

  abbrev sum_ℕ : List ℕ → ℕ
  sum_ℕ [] = 0
  sum_ℕ (n ∷ ns) = n + sum_ℕ ns

  abbrev pub efficiency : F → F → Option F
  efficiency mean_oos mean_is =
      if lt (num_zero fl) mean_is then some (round (div mean_oos mean_is) 4) else none

  -- `wfe is None or wfe >= 0.5`, and `wfe is not None and wfe < 0.3`
  abbrev is_efficient : Option F → Bool
  is_efficient none = true
  is_efficient (some wfe) = le (lit 5 1) wfe

  abbrev is_inefficient : Option F → Bool
  is_inefficient none = false
  is_inefficient (some wfe) = lt wfe (lit 3 1)

  abbrev pub verdict_of : F → F → Option F → String
  verdict_of med_oos positive_fraction wfe =
      if lt (num_zero fl) med_oos && le (lit 5 1) positive_fraction && is_efficient wfe
      then "robust"
      else if le med_oos (num_zero fl) || lt positive_fraction (lit 4 1) || is_inefficient wfe
      then "overfit"
      else "marginal"

  unfoldable pub summarize_walk_forward : (List F → F) → List (Fold fl) → Summary fl
  summarize_walk_forward median [] = record {
    folds = 0;
    verdict = "insufficient_data";
    median_oos_sharpe = none;
    mean_oos_sharpe = none;
    mean_is_sharpe = none;
    walk_forward_efficiency = none;
    positive_fold_fraction = none;
    total_oos_net_pnl = num_zero fl;
    total_oos_trades = 0;
  }
  summarize_walk_forward median (fold ∷ folds) =
      let all = fold ∷ folds in
      let oos_sharpes = map (λ (f : Fold fl). or_zero fl f.oos.sharpe_ratio) all in
      let is_sharpes = map (λ (f : Fold fl). or_zero fl f.best.is_sharpe) all in
      let oos_pnls = map (λ (f : Fold fl). or_zero fl f.oos.net_pnl_usd) all in
      let wfe = efficiency (mean oos_sharpes) (mean is_sharpes) in
      let positive_fraction =
        round (div (of_int (pos (count_positive oos_pnls))) (of_int (pos (length oos_pnls)))) 4 in
      record {
        folds = length all;
        verdict = verdict_of (median oos_sharpes) positive_fraction wfe;
        median_oos_sharpe = some (round (median oos_sharpes) 4);
        mean_oos_sharpe = some (round (mean oos_sharpes) 4);
        mean_is_sharpe = some (round (mean is_sharpes) 4);
        walk_forward_efficiency = wfe;
        positive_fold_fraction = some positive_fraction;
        total_oos_net_pnl = round (total oos_pnls) 4;
        total_oos_trades = sum_ℕ (map (λ (f : Fold fl). f.oos.total_trades) all);
      }
