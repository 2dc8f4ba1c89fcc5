-- ===== src/Backtest/WalkForward/Optimum.antt =====
-- services/backtest/app/walk_forward.py: the parameters that are chosen on a window.
use messiah_fx_prod.Prelude.{
  true, ◌≡◌, refl, Option, none, some, List, [], ◌∷◌, inl, inr, Bool-cases,
}
use messiah_fx_prod.Prelude.Int.{ℤ}
use messiah_fx_prod.Numbers.{Floats}
use messiah_fx_prod.Numbers.Laws.{IsOrdered}
use messiah_fx_prod.Backtest.WalkForward.{Run, Best, best_of, better, try_entries, optimise}

module _ {fl : Floats} (laws : IsOrdered fl) (run : ℤ → fl.F → Run fl) where
  -- At least as good in sample as a run.
  abbrev pub Beats : Best fl → ℤ → fl.F → Type 0
  Beats b w ez = fl.le (run w ez).sharpe_ratio b.is_sharpe ≡ true

  abbrev pub BeatsEntries : Best fl → ℤ → List fl.F → Type 0
  BeatsEntries b w [] = Unit
  BeatsEntries b w (ez ∷ ezs) = Beats b w ez × BeatsEntries b w ezs

  abbrev pub BeatsGrid : Best fl → List ℤ → List fl.F → Type 0
  BeatsGrid b [] ezs = Unit
  BeatsGrid b (w ∷ ws) ezs = BeatsEntries b w ezs × BeatsGrid b ws ezs

  -- The figures are those of the run with these parameters.
  abbrev pub IsRun : Best fl → Type 0
  IsRun b = b ≡ best_of b.best_window b.best_entry_z (run b.best_window b.best_entry_z)

  -- A best run after another one.
  record Follows (b : Best fl) (answer : Option (Best fl)) : Type 0 where
    next : Best fl
    is_next : answer ≡ some next
    no_worse : fl.le b.is_sharpe next.is_sharpe ≡ true
    is_run : IsRun next

  better-Follows :
      (b : Best fl) (w : ℤ) (ez : fl.F)
      → IsRun b
      → (h : Follows b (better (some b) w ez (run w ez))) × Beats h.next w ez
  better-Follows b w ez r = elim (Bool-cases (fl.lt b.is_sharpe (run w ez).sharpe_ratio)) [
    | inl higher ↦ (
      record {
        next = best_of w ez (run w ez);
        is_next = rw higher refl;
        no_worse = laws.le_of_lt _ _ higher;
        is_run = refl;
      },
      laws.le_refl _,
    )
    | inr not_higher ↦ (
      record { next = b; is_next = rw not_higher refl; no_worse = laws.le_refl _; is_run = r },
      laws.le_of_not_lt _ _ not_higher,
    )
  ]

  BeatsEntries-mono :
      (b c : Best fl) (w : ℤ) (ezs : List fl.F)
      → fl.le b.is_sharpe c.is_sharpe ≡ true
      → BeatsEntries b w ezs
      → BeatsEntries c w ezs
  BeatsEntries-mono b c w [] h k = tt
  BeatsEntries-mono b c w (ez ∷ ezs) h k =
      (laws.le_trans _ _ _ k.0 h, BeatsEntries-mono b c w ezs h k.1)

  try_entries-Follows :
      (b : Best fl) (w : ℤ) (ezs : List fl.F)
      → IsRun b
      → (h : Follows b (try_entries run w ezs (some b))) × BeatsEntries h.next w ezs
  unfolding try_entries
  try_entries-Follows b w [] r =
      (record { next = b; is_next = refl; no_worse = laws.le_refl _; is_run = r }, tt)
  try_entries-Follows b w (ez ∷ ezs) r =
      let (tried, beats) = better-Follows b w ez r in
      let (rest, beats_rest) = try_entries-Follows tried.next w ezs tried.is_run in
      (
        record {
          next = rest.next;
          is_next = rw tried.is_next rest.is_next;
          no_worse = laws.le_trans _ _ _ tried.no_worse rest.no_worse;
          is_run = rest.is_run;
        },
        (laws.le_trans _ _ _ beats rest.no_worse, beats_rest),
      )

  optimise-Follows :
      (b : Best fl) (ws : List ℤ) (ezs : List fl.F)
      → IsRun b
      → (h : Follows b (optimise run ws ezs (some b))) × BeatsGrid h.next ws ezs
  unfolding optimise
  optimise-Follows b [] ezs r =
      (record { next = b; is_next = refl; no_worse = laws.le_refl _; is_run = r }, tt)
  optimise-Follows b (w ∷ ws) ezs r =
      let (tried, beats) = try_entries-Follows b w ezs r in
      let (rest, beats_rest) = optimise-Follows tried.next ws ezs tried.is_run in
      (
        record {
          next = rest.next;
          is_next = rw tried.is_next rest.is_next;
          no_worse = laws.le_trans _ _ _ tried.no_worse rest.no_worse;
          is_run = rest.is_run;
        },
        (BeatsEntries-mono tried.next rest.next w ezs rest.no_worse beats, beats_rest),
      )

  -- A run of the grid than which no run of the grid is better.
  pub record IsOptimum (ws : List ℤ) (ezs : List fl.F) (answer : Option (Best fl)) : Type 0 where
    pub best : Best fl
    pub returns : answer ≡ some best
    pub is_run : IsRun best
    pub is_best : BeatsGrid best ws ezs

  -- For floats that meet IsOrdered: over a grid that is not empty, the optimisation answers a run with
  -- the parameters that it names, and no run of the grid has a higher Sharpe ratio.
  pub optimise-IsOptimum :
      (w : ℤ) (ws : List ℤ) (ez : fl.F) (ezs : List fl.F)
      → IsOptimum (w ∷ ws) (ez ∷ ezs) (optimise run (w ∷ ws) (ez ∷ ezs) none)
  unfolding optimise try_entries
  optimise-IsOptimum w ws ez ezs =
      let (tried, beats) = try_entries-Follows (best_of w ez (run w ez)) w ezs refl in
      let (rest, beats_rest) = optimise-Follows tried.next ws (ez ∷ ezs) tried.is_run in
      record {
        best = rest.next;
        returns = rw tried.is_next rest.is_next;
        is_run = rest.is_run;
        is_best = (
          (
            laws.le_trans _ _ _ tried.no_worse rest.no_worse,
            BeatsEntries-mono tried.next rest.next w ezs rest.no_worse beats,
          ),
          beats_rest,
        );
      }
