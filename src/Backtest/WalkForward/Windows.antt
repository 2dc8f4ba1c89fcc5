-- ===== src/Backtest/WalkForward/Windows.antt =====
-- services/backtest/app/walk_forward.py, wfa_windows: how many windows there are, and which.
use native.Mathlib.Nat.{div-eq_of_lt, add-div_right}
use messiah_fx_prod.Prelude.{
  ℕ, zero, suc, ◌+◌, ◌-◌, ◌/◌, ◌≤◌, ◌<◌, false, leb, ◌||◌, ◌≡◌, refl, ap, arith, Option, none, some,
  List, [], ◌∷◌, inl, inr, Bool-cases,
}
use messiah_fx_prod.Prelude.Int.{ℤ, pos, pos_part, leb_ℤ}
use messiah_fx_prod.Backtest.WalkForward.{Window, roll, wfa_windows}

-- So many windows, each a step after the one before: its in-sample part begins where the window does,
-- and its out-of-sample part where that ends.
abbrev pub stepped : ℕ → ℕ → ℕ → ℕ → ℕ → List Window
stepped is_size oos_size step is_start zero = []
stepped is_size oos_size step is_start (suc k) =
    record {
      is_start = is_start;
      is_end = is_start + is_size;
      oos_start = is_start + is_size;
      oos_end = is_start + is_size + oos_size;
    }
    ∷ stepped is_size oos_size step (is_start + step) k

-- How many windows of a size fit from a place on.
abbrev pub fitting : ℕ → ℕ → ℕ → ℕ → ℕ
fitting n size step is_start = (n + step - (is_start + size)) / step

-- Where none fits, and where one does.
fitting_past :
    (n size step is_start : ℕ) → n < is_start + size → 1 ≤ step → fitting n size step is_start ≡ 0
fitting_past n size step is_start h p = div-eq_of_lt (omega arith)

fitting_more :
    (n size step is_start : ℕ)
    → is_start + size ≤ n
    → 1 ≤ step
    → fitting n size step is_start ≡ suc (fitting n size step (is_start + step))
fitting_more n size step is_start h p =
    let split : n + step - (is_start + size) ≡ (n + step - (is_start + step + size)) + step =
      omega arith in
    let more : (n + step - (is_start + step + size) + step) / step
        ≡ (n + step - (is_start + step + size)) / step + 1 =
      add-div_right (n + step - (is_start + step + size)) (omega arith) in
    omega (arith, ap (λ k. k / step) split, more)

roll-stepped :
    (fuel n is_size oos_size step is_start : ℕ)
    → 1 ≤ step
    → 1 ≤ is_size
    → n < fuel + is_start
    → roll fuel n is_size oos_size step is_start
      ≡ stepped is_size oos_size step is_start (fitting n (is_size + oos_size) step is_start)
unfolding roll
roll-stepped zero n is_size oos_size step is_start s p h =
    rw (fitting_past n (is_size + oos_size) step is_start (omega arith) s) refl
roll-stepped (suc fuel) n is_size oos_size step is_start s p h =
    elim (Bool-cases (leb (is_start + is_size + oos_size) n)) [
      | inl fits ↦
          rw
            (
              fits,
              fitting_more n (is_size + oos_size) step is_start (ground arith) s,
              roll-stepped fuel n is_size oos_size step (is_start + step) s p (omega arith),
            )
            refl
      | inr past ↦
          rw (past, fitting_past n (is_size + oos_size) step is_start (ground arith) s) refl
    ]

-- For positive sizes the windows are returned: as many as fit one step after the other, the first
-- at 0, each out-of-sample part right after its in-sample part.
pub wfa_windows-stepped :
    (n is_size oos_size step : ℕ)
    → 1 ≤ is_size
    → 1 ≤ oos_size
    → 1 ≤ step
    → wfa_windows n (pos is_size) (pos oos_size) (pos step)
      ≡ some (stepped is_size oos_size step 0 (fitting n (is_size + oos_size) step 0))
unfolding wfa_windows
wfa_windows-stepped n is_size oos_size step p q s =
    let none_below : (leb_ℤ (pos is_size) (pos 0)
          || leb_ℤ (pos oos_size) (pos 0)
          || leb_ℤ (pos step) (pos 0))
        ≡ false =
      ground arith in
    rw none_below (ap some (roll-stepped (suc n) n is_size oos_size step 0 s p (omega arith)))

-- The window lies in the observations, and its two parts are not empty.
pub record IsWithin (n : ℕ) (w : Window) : Type 0 where
  pub has_past : w.is_start < w.is_end
  pub follows : w.oos_start ≡ w.is_end
  pub has_future : w.oos_start < w.oos_end
  pub within : w.oos_end ≤ n

abbrev pub AllWithin : ℕ → Option (List Window) → Type 0
AllWithin n none = Unit
AllWithin n (some []) = Unit
AllWithin n (some (w ∷ windows)) = IsWithin n w × AllWithin n (some windows)

roll-AllWithin :
    (fuel n is_size oos_size step is_start : ℕ)
    → 1 ≤ is_size
    → 1 ≤ oos_size
    → AllWithin n (some (roll fuel n is_size oos_size step is_start))
unfolding roll
roll-AllWithin zero n is_size oos_size step is_start p q = tt
roll-AllWithin (suc fuel) n is_size oos_size step is_start p q =
    elim (Bool-cases (leb (is_start + is_size + oos_size) n)) [
      | inl fits ↦ rw fits (
        record {
          has_past = omega arith;
          follows = refl;
          has_future = omega arith;
          within = ground arith;
        },
        roll-AllWithin fuel n is_size oos_size step (is_start + step) p q,
      )
      | inr past ↦ rw past tt
    ]

-- Whatever the sizes are, every window lies in the observations, its parts are not empty and follow
-- one another.
pub wfa_windows-AllWithin :
    (n : ℕ) (is_size oos_size step : ℤ) → AllWithin n (wfa_windows n is_size oos_size step)
unfolding wfa_windows
wfa_windows-AllWithin n is_size oos_size step =
    elim (Bool-cases (leb_ℤ is_size (pos 0) || leb_ℤ oos_size (pos 0) || leb_ℤ step (pos 0))) [
      | inl raises ↦ rw raises tt
      | inr positive ↦ rw positive (
          roll-AllWithin (suc n) n (pos_part is_size) (pos_part oos_size) (pos_part step) 0
            (ground arith) (ground arith))
    ]
