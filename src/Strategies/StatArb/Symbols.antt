-- ===== src/Strategies/StatArb/Symbols.antt =====
-- services/strategy/app/strategies/stat_arb.py, _spot_to_perp: neither symbol is empty.
use mathlib.Core.Bool.{false≢true}
use Prim.Native.Char.{Char}
use Prim.Native.String.{◌++◌, [] as empty, ◌∷◌ as ◌∷ˢ◌}
use text.Mathlib.TextEquality.{eq_iff}
use text.Mathlib.TextLemmas.{append-eq-nil_iff}
use messiah_fx_prod.Prelude.{
  String, false, ◌≡◌, ◌≢◌, ◌∙◌, some, List, [], ◌∷◌, ◌=ˢ◌, inl, inr, Bool-cases,
}
use messiah_fx_prod.Strategies.StatArb.Spread.{split_slash, perp_of, spot_to_perp}

ne_empty : (s : String) → s ≢ "" → (s =ˢ "") ≡ false
ne_empty s h = elim (Bool-cases (s =ˢ "")) [
  | inl same ↦ absurd (h ((eq_iff s "").0 same))
  | inr differ ↦ differ
]

cons_ne : (c : Char) (s : String) → c ∷ˢ s ≢ ""
cons_ne c s h = cc h

perp_ne : (parts : List String) (perp : String) → perp_of parts ≡ some perp → (perp =ˢ "") ≡ false
perp_ne [] perp h = cc h
perp_ne (base ∷ []) perp h = cc h
perp_ne (base ∷ quote ∷ []) perp h =
    let e : base ++ "/" ++ quote ++ ":" ++ quote ≡ perp = cc h in
    let slash : "/" ++ quote ++ ":" ++ quote ≢ "" =
      λ k. false≢true ((eq_iff "/" "").1 ((append-eq-nil_iff.0 k).0)) in
    ne_empty perp (λ k. slash ((append-eq-nil_iff.0 (e ∙ k)).1))
perp_ne (base ∷ quote ∷ part ∷ parts) perp h = cc h

pub spot_to_perp-ne :
    (spot perp : String)
    → spot_to_perp spot ≡ some perp
    → ((spot =ˢ "") ≡ false) × ((perp =ˢ "") ≡ false)
unfolding split_slash
spot_to_perp-ne empty perp h = absurd (cc h)
spot_to_perp-ne (c ∷ˢ s) perp h =
    (ne_empty (c ∷ˢ s) (cons_ne c s), perp_ne (split_slash (c ∷ˢ s)) perp h)
