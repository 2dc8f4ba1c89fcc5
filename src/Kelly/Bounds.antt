-- ===== src/Kelly/Bounds.antt =====
-- shared/mezna_shared/kelly.py: the bounds of a fraction and of a size.
use messiah_fx_prod.Prelude.{
  Bool, true, false, ◌||◌, ◌≡◌, inl, inr, Option, none, some, ◌>>=◌, if◌then◌else◌, Bool-cases,
}
use messiah_fx_prod.Numbers.{Floats, num_zero, num_one, divide, min_of}
use messiah_fx_prod.Numbers.Laws.{IsOrdered, min_le_right, le_max_right}
use messiah_fx_prod.Kelly.{
  kelly_min, kelly_max, clamped, compute_kelly_fraction, capped, kelly_position_usd,
}

module _ (fl : Floats) (laws : IsOrdered fl) where
  open fl use {F, lt, le, round, mul}

  -- No edge, or a rounded share of at least 0.5% and at most 25%.
  pub data IsFraction : Option F → Type 0 where
    raised : IsFraction none
    no_edge : IsFraction (some (num_zero fl))
    sized :
        (x : F)
        → le (kelly_min fl) x ≡ true
        → le x (kelly_max fl) ≡ true
        → IsFraction (some (round x 6))

  le_min : (a x y : F) → le a x ≡ true → le a y ≡ true → le a (min_of fl x y) ≡ true
  le_min a x y h k = elim (Bool-cases (lt y x)) [ inl less ↦ rw less k | inr other ↦ rw other h ]

  clamped_bounds :
      le (kelly_min fl) (kelly_max fl) ≡ true
      → (full_kelly kelly_multiplier : F)
      → (le (kelly_min fl) (clamped fl full_kelly kelly_multiplier) ≡ true)
        × (le (clamped fl full_kelly kelly_multiplier) (kelly_max fl) ≡ true)
  unfolding clamped
  clamped_bounds ordered full_kelly kelly_multiplier =
      (le_min _ _ _ (le_max_right fl laws _ _) ordered, min_le_right fl laws _ _)

  IsFraction-bind :
      (m : Option F) (k : F → Option F) → ((a : F) → IsFraction (k a)) → IsFraction (m >>= k)
  IsFraction-bind none k h = raised
  IsFraction-bind (some a) k h = h a

  IsFraction-if :
      (b : Bool) (m n : Option F) → IsFraction m → IsFraction n → IsFraction (if b then m else n)
  IsFraction-if true m n h k = h
  IsFraction-if false m n h k = k

  -- For floats that meet `IsOrdered`: whatever the statistics are, a Kelly fraction that is returned is 0, or rounds a number from 0.005
  -- to 0.25, for an order of floats in which 0.005 is at most 0.25.
  pub compute_kelly_fraction-IsFraction :
      le (kelly_min fl) (kelly_max fl) ≡ true
      → (win_rate avg_win_usd avg_loss_usd kelly_multiplier : F)
      → IsFraction (compute_kelly_fraction fl win_rate avg_win_usd avg_loss_usd kelly_multiplier)
  unfolding compute_kelly_fraction
  compute_kelly_fraction-IsFraction ordered w a l m = IsFraction-if _ _ _ no_edge (
      IsFraction-if _ _ _ no_edge (
        IsFraction-bind (divide fl a l) _ λ ratio.
          IsFraction-bind (divide fl (fl.sub (num_one fl) w) ratio) _ λ share.
            IsFraction-if _ _ _ no_edge
              (let (low, high) = clamped_bounds ordered (fl.sub w share) m in sized _ low high)))

  -- No position, or the rounding of one from the minimum to the cap.
  pub data IsPosition (capital_usd max_position_pct min_position_usd : F) : F → Type 0 where
    no_position : IsPosition capital_usd max_position_pct min_position_usd (num_zero fl)
    held :
        (x : F)
        → le min_position_usd x ≡ true
        → le x (mul capital_usd max_position_pct) ≡ true
        → IsPosition capital_usd max_position_pct min_position_usd (round x 2)

  -- For floats that meet `IsOrdered`: a position size is 0, or rounds a number that is at least the minimum and at most the hard cap,
  -- whatever the Kelly fraction is.
  pub kelly_position_usd-IsPosition :
      (capital_usd kelly_fraction max_position_pct min_position_usd : F)
      → IsPosition capital_usd max_position_pct min_position_usd
          (kelly_position_usd fl capital_usd kelly_fraction max_position_pct min_position_usd)
  unfolding kelly_position_usd
  kelly_position_usd-IsPosition c k x m =
      elim (Bool-cases (le k (num_zero fl) || le c (num_zero fl))) [
        | inl nothing ↦ rw nothing no_position
        | inr something ↦ elim (Bool-cases (le m (capped fl c k x))) [
          | inl enough ↦
              rw (something, enough) (held (capped fl c k x) enough (min_le_right fl laws _ _))
          | inr short ↦ rw (something, short) no_position
        ]
      ]
