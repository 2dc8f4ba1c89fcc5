-- ===== src/Numbers/Laws.antt =====
-- Laws of IEEE arithmetic on numbers that are not NaN and where no infinity is subtracted from
-- itself: comparisons, and the signs and bounds that rounding respects. A theorem that needs them
-- takes `IsOrdered`; the integers are an instance.
use native.Mathlib.Nat.{div-lt_iff_lt-mul}
use mathlib.Core.List.{foldl}
use messiah_fx_prod.Prelude.{
  ◌≤◌, ◌<◌, ℕ, ◌/◌, ◌^◌, true, false, some, ◌≡◌, arith, inl, inr, Bool-cases,
}
use messiah_fx_prod.Prelude.Int.{ℤ, pos, pos_part, ◌+ℤ◌, ◌-ℤ◌, ◌*ℤ◌, ◌/ℤ◌, abs, ltb_ℤ, leb_ℤ, eqb_ℤ}
use messiah_fx_prod.Prelude.ParseInt.{parse_int, show_int}
use messiah_fx_prod.Numbers.{Floats, divide, min_of, max_of}

pub record IsOrdered (fl : Floats) : Type 0 where
  pub lt_of_not_le : (a b : fl.F) → fl.le a b ≡ false → fl.lt b a ≡ true
  pub le_of_lt : (a b : fl.F) → fl.lt a b ≡ true → fl.le a b ≡ true
  pub le_of_not_lt : (a b : fl.F) → fl.lt a b ≡ false → fl.le b a ≡ true
  pub not_lt_of_le : (a b : fl.F) → fl.le a b ≡ true → fl.lt b a ≡ false
  pub le_refl : (a : fl.F) → fl.le a a ≡ true
  pub le_trans : (a b c : fl.F) → fl.le a b ≡ true → fl.le b c ≡ true → fl.le a c ≡ true
  pub lt_of_le_lt : (a b c : fl.F) → fl.le a b ≡ true → fl.lt b c ≡ true → fl.lt a c ≡ true
  pub lt_of_lt_le : (a b c : fl.F) → fl.lt a b ≡ true → fl.le b c ≡ true → fl.lt a c ≡ true
  -- a positive number is no divisor that raises
  pub ne_zero_of_pos : (a : fl.F) → fl.lt (fl.lit 0 0) a ≡ true → fl.eq a (fl.lit 0 0) ≡ false
  pub lit_nonneg : (m k : ℕ) → fl.le (fl.lit 0 0) (fl.lit m k) ≡ true
  pub abs_nonneg : (a : fl.F) → fl.le (fl.lit 0 0) (fl.abs a) ≡ true
  pub le-abs : (a : fl.F) → fl.le a (fl.abs a) ≡ true
  pub neg-le-abs : (a b : fl.F) → fl.lt a (fl.neg b) ≡ true → fl.lt b (fl.abs a) ≡ true
  pub add_nonneg :
      (a b : fl.F)
      → fl.le (fl.lit 0 0) a ≡ true
      → fl.le (fl.lit 0 0) b ≡ true
      → fl.le (fl.lit 0 0) (fl.add a b) ≡ true
  pub le-add_left : (a b : fl.F) → fl.le (fl.lit 0 0) a ≡ true → fl.le b (fl.add a b) ≡ true
  pub mul_nonneg :
      (a b : fl.F)
      → fl.le (fl.lit 0 0) a ≡ true
      → fl.le (fl.lit 0 0) b ≡ true
      → fl.le (fl.lit 0 0) (fl.mul a b) ≡ true
  pub div_nonneg :
      (a b : fl.F)
      → fl.le (fl.lit 0 0) a ≡ true
      → fl.lt (fl.lit 0 0) b ≡ true
      → fl.le (fl.lit 0 0) (fl.div a b) ≡ true
  pub div_le_one :
      (a b : fl.F)
      → fl.lt (fl.lit 0 0) b ≡ true
      → fl.le a b ≡ true
      → fl.le (fl.div a b) (fl.lit 1 0) ≡ true
  pub mul_le :
      (a b : fl.F)
      → fl.le (fl.lit 0 0) a ≡ true
      → fl.le b (fl.lit 1 0) ≡ true
      → fl.le (fl.mul a b) a ≡ true
  pub sub_nonneg : (a b : fl.F) → fl.le b a ≡ true → fl.le (fl.lit 0 0) (fl.sub a b) ≡ true

module _ (fl : Floats) (laws : IsOrdered fl) where
  open fl use {F, lit, div, lt, le}
  open laws use {
    le_of_lt, le_of_not_lt, lt_of_not_le, lt_of_le_lt, le_refl, lit_nonneg, ne_zero_of_pos,
  }

  pub min_le_left : (a b : F) → le (min_of fl a b) a ≡ true
  min_le_left a b = elim (Bool-cases (lt b a)) [
    | inl less ↦ rw less (le_of_lt b a less)
    | inr not_less ↦ rw not_less (le_refl a)
  ]

  pub min_le_right : (a b : F) → le (min_of fl a b) b ≡ true
  min_le_right a b = elim (Bool-cases (lt b a)) [
    | inl less ↦ rw less (le_refl b)
    | inr not_less ↦ rw not_less (le_of_not_lt b a not_less)
  ]

  pub le_max_left : (a b : F) → le a (max_of fl a b) ≡ true
  le_max_left a b = elim (Bool-cases (lt a b)) [
    | inl less ↦ rw less (le_of_lt a b less)
    | inr not_less ↦ rw not_less (le_refl a)
  ]

  pub le_max_right : (a b : F) → le b (max_of fl a b) ≡ true
  le_max_right a b = elim (Bool-cases (lt a b)) [
    | inl less ↦ rw less (le_refl b)
    | inr not_less ↦ rw not_less (le_of_not_lt a b not_less)
  ]

  pub divide_of_pos : (a b : F) → lt (lit 0 0) b ≡ true → divide fl a b ≡ some (div a b)
  divide_of_pos a b h = rw (ne_zero_of_pos b h)

  -- What is past a literal is positive.
  pub pos_of_past : (m k : ℕ) (a : F) → lt (lit m k) a ≡ true → lt (lit 0 0) a ≡ true
  pos_of_past m k a h = lt_of_le_lt (lit 0 0) (lit m k) a (lit_nonneg m k) h

-- Whole numbers in place of floats, to run examples: a literal below one is 0, and division rounds
-- towards zero.
abbrev pub whole : Floats
whole = record {
  F = ℤ;
  lit = λ m k. pos (m / 10 ^ k);
  of_int = λ n. n;
  add = ◌+ℤ◌;
  sub = ◌-ℤ◌;
  mul = ◌*ℤ◌;
  div = ◌/ℤ◌;
  neg = λ a. pos 0 -ℤ a;
  abs = abs;
  lt = ltb_ℤ;
  le = leb_ℤ;
  eq = eqb_ℤ;
  total = foldl ◌+ℤ◌ (pos 0);
  round = λ a k. a;
  parse = parse_int;
  show = show_int;
  fixed = λ a k. show_int a;
}

quotient_le_one : (m n : ℕ) → 0 < n → m ≤ n → m / n ≤ 1
quotient_le_one m n p h =
    let below : m / n < 2 = (div-lt_iff_lt-mul p).1 (omega arith) in omega arith

module _ (a b : ℤ) where
  abs_laws :
      (leb_ℤ (pos 0) (abs a) ≡ true)
      × (leb_ℤ a (abs a) ≡ true)
      × (ltb_ℤ a (pos 0 -ℤ b) ≡ true → ltb_ℤ b (abs a) ≡ true)
  unfolding abs ◌-ℤ◌
  abs_laws = (ground arith, ground arith, λ h. ground arith)

  add_laws :
      leb_ℤ (pos 0) a ≡ true
      → (leb_ℤ (pos 0) b ≡ true → leb_ℤ (pos 0) (a +ℤ b) ≡ true) × (leb_ℤ b (a +ℤ b) ≡ true)
  unfolding ◌+ℤ◌
  add_laws p = (λ q. ground arith, ground arith)

  sub_law : leb_ℤ b a ≡ true → leb_ℤ (pos 0) (a -ℤ b) ≡ true
  unfolding ◌-ℤ◌
  sub_law p = ground arith

  mul_laws :
      leb_ℤ (pos 0) a ≡ true
      → (leb_ℤ (pos 0) b ≡ true → leb_ℤ (pos 0) (a *ℤ b) ≡ true)
        × (leb_ℤ b (pos 1) ≡ true → leb_ℤ (a *ℤ b) a ≡ true)
  unfolding ◌*ℤ◌
  mul_laws p = (λ q. ground arith, λ q. grind arith)

  div_laws :
      ltb_ℤ (pos 0) b ≡ true
      → (leb_ℤ (pos 0) a ≡ true → leb_ℤ (pos 0) (a /ℤ b) ≡ true)
        × (leb_ℤ a b ≡ true → leb_ℤ (a /ℤ b) (pos 1) ≡ true)
  unfolding ◌/ℤ◌
  div_laws p = (λ q. grind arith, λ q. ground (arith, quotient_le_one (pos_part a) (pos_part b)))

pub whole-IsOrdered : IsOrdered whole
whole-IsOrdered = record {
  lt_of_not_le = λ a b h. ground arith;
  le_of_lt = λ a b h. ground arith;
  le_of_not_lt = λ a b h. ground arith;
  not_lt_of_le = λ a b h. ground arith;
  le_refl = λ a. ground arith;
  le_trans = λ a b c h k. ground arith;
  lt_of_le_lt = λ a b c h k. ground arith;
  lt_of_lt_le = λ a b c h k. ground arith;
  ne_zero_of_pos = λ a h. ground arith;
  lit_nonneg = λ m k. ground arith;
  abs_nonneg = λ a. (abs_laws a a).0;
  le-abs = λ a. (abs_laws a a).1;
  neg-le-abs = λ a b. (abs_laws a b).2;
  add_nonneg = λ a b p. (add_laws a b p).0;
  le-add_left = λ a b p. (add_laws a b p).1;
  mul_nonneg = λ a b p. (mul_laws a b p).0;
  div_nonneg = λ a b p q. (div_laws a b q).0 p;
  div_le_one = λ a b q. (div_laws a b q).1;
  mul_le = λ a b p. (mul_laws a b p).1;
  sub_nonneg = sub_law;
}
