-- ===== src/Prelude/Text/Affixes.antt =====
-- Texts that begin or end with a known part differ from texts that do not.
use Prim.Native.Nat.{◌+◌}
use Prim.Native.Char.{code}
use Prim.Native.String.{String, [], ◌∷◌, ◌++◌, count}
use mathlib.Core.Path.{◌≡◌, ap, sym, ◌∙◌}
use mathlib.Core.Logic.{inl, inr}
use mathlib.Core.Bool.{Bool, true, false, not, ◌||◌, false≢true}
use native.Mathlib.Omega.{arith}
use text.Mathlib.Text.{◌==◌ as ◌=ˢ◌, starts_with}
use text.Mathlib.TextEquality.{eq_iff, starts_with_iff}
use text.Mathlib.TextLemmas.{
  append_inj, length-append, cons-append, head-eq_of_cons-eq, tail-eq_of_cons-eq,
}
use messiah_fx_prod.Prelude.Tests.{Bool-cases, ◌==◌}

pub prefix_ne : (p s t : String) → starts_with t p ≡ false → (p ++ s =ˢ t) ≡ false
prefix_ne p s t h = elim (Bool-cases (p ++ s =ˢ t)) [
  | inr differ ↦ differ
  | inl same ↦
      let e : p ++ s ≡ t = (eq_iff _ _).0 same in
      absurd (false≢true (sym h ∙ (starts_with_iff t p).1 (s, e)))
]

-- `q ++ t` is the other text, split where a suffix as long as `p` begins.
pub suffix_ne :
    (s p q t : String) → count p ≡ count t → (p =ˢ t) ≡ false → (s ++ p =ˢ q ++ t) ≡ false
suffix_ne s p q t n h = elim (Bool-cases (s ++ p =ˢ q ++ t)) [
  | inr differ ↦ differ
  | inl same ↦
      let e : s ++ p ≡ q ++ t = (eq_iff _ _).0 same in
      let counts : count s + count p ≡ count q + count t =
        sym (length-append s p) ∙ ap count e ∙ length-append q t in
      let fronts : count s ≡ count q = omega arith in
      absurd (false≢true (sym h ∙ (eq_iff p t).1 (append_inj e fronts).1))
]

-- The same, the other way round.
pub prefix_ne_sym : (p s t : String) → starts_with t p ≡ false → (t =ˢ p ++ s) ≡ false
prefix_ne_sym p s t h =
    let differ = prefix_ne p s t h in ground (arith, eq_iff t (p ++ s), eq_iff (p ++ s) t)

pub suffix_ne_sym :
    (s p q t : String) → count p ≡ count t → (p =ˢ t) ≡ false → (q ++ t =ˢ s ++ p) ≡ false
suffix_ne_sym s p q t n h =
    let differ = suffix_ne s p q t n h in
    ground (arith, eq_iff (q ++ t) (s ++ p), eq_iff (s ++ p) (q ++ t))

-- The two texts differ at a place that both have.
abbrev pub parts : String → String → Bool
parts [] q = false
parts (c ∷ p) [] = false
parts (c ∷ p) (d ∷ q) = not (code c == code d) || parts p q

-- Then so do all texts that begin with them.
parts_append : (p q s t : String) → parts p q ≡ true → p ++ s ≡ q ++ t → ⊥
parts_append [] q s t h e = false≢true h
parts_append (c ∷ p) [] s t h e = false≢true h
parts_append (c ∷ p) (d ∷ q) s t h e =
    let e' : c ∷ (p ++ s) ≡ d ∷ (q ++ t) = sym (cons-append c p s) ∙ e ∙ cons-append d q t in
    let heads : code c ≡ code d = ap code (head-eq_of_cons-eq e') in
    let same : (code c == code d) ≡ true = ground arith in
    parts_append p q s t (rw same at h) (tail-eq_of_cons-eq e')

pub parts_ne : (p q s t : String) → parts p q ≡ true → (p ++ s =ˢ q ++ t) ≡ false
parts_ne p q s t h = elim (Bool-cases (p ++ s =ˢ q ++ t)) [
  | inr differ ↦ differ
  | inl same ↦ absurd (parts_append p q s t h ((eq_iff _ _).0 same))
]
