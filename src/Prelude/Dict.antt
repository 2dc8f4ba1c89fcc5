-- ===== src/Prelude/Dict.antt =====
-- A Python dict keyed by texts, as an association list in insertion order.
use Prim.Native.String.{String}
use mathlib.Core.Path.{◌≡◌, refl, subst}
use mathlib.Core.Logic.{inl, inr}
use mathlib.Core.Bool.{Bool, true, false, ◌||◌, false≢true}
use mathlib.Core.Option.{Option, none, some}
use mathlib.Core.List.{List, [], ◌∷◌}
use native.Mathlib.Omega.{arith}
use text.Mathlib.Text.{◌==◌}
use text.Mathlib.TextEquality.{eq_iff}
use messiah_fx_prod.Prelude.Tests.{Bool-cases, if◌then◌else◌}

abbrev pub Dict {ℓ} : Type ℓ → Type ℓ
Dict V = List (String × V)

-- `k in frozenset(...)`
abbrev pub contains : String → List String → Bool
contains k [] = false
contains k (j ∷ s) = k == j || contains k s

-- A predicate that holds of every listed text.
abbrev pub All : (String → Type 0) → List String → Type 0
All P [] = Unit
All P (j ∷ s) = P j × All P s

pub All-contains :
    (P : String → Type 0) (s : List String) (k : String) → All P s → contains k s ≡ true → P k
All-contains P [] k h e = absurd (false≢true e)
All-contains P (j ∷ s) k h e = elim (Bool-cases (k == j)) [
  | inl same ↦ rw ((eq_iff k j).0 same) h.0
  | inr other ↦ All-contains P s k h.1 (rw other at e)
]

module _ {ℓ} {V : Type ℓ} where
  -- `d.get(k)`
  abbrev pub lookup : String → Dict V → Option V
  lookup k [] = none
  lookup k ((j, v) ∷ d) = if k == j then some v else lookup k d

  -- `d.get(k, default)`
  abbrev pub lookup_or : String → V → Dict V → V
  lookup_or k v [] = v
  lookup_or k v ((j, w) ∷ d) = if k == j then w else lookup_or k v d

  -- `d[k] = v`
  abbrev pub insert : String → V → Dict V → Dict V
  insert k v [] = (k, v) ∷ []
  insert k v ((j, w) ∷ d) = if k == j then (j, v) ∷ d else (j, w) ∷ insert k v d

  -- A predicate that holds of every entry.
  abbrev pub AllEntries : (String → V → Type 0) → Dict V → Type 0
  AllEntries P [] = Unit
  AllEntries P ((j, v) ∷ d) = P j v × AllEntries P d

  pub AllEntries-lookup_or :
      (P : String → V → Type 0) (d : Dict V) (k : String) (v : V)
      → AllEntries P d
      → P k v
      → P k (lookup_or k v d)
  AllEntries-lookup_or P [] k v h p = p
  AllEntries-lookup_or P ((j, w) ∷ d) k v h p = elim (Bool-cases (k == j)) [
    | inl same ↦ rw same (rw ((eq_iff k j).0 same) h.0)
    | inr other ↦ rw other (AllEntries-lookup_or P d k v h.1 p)
  ]

  pub AllEntries-lookup :
      (P : String → V → Type 0) (d : Dict V) (k : String) {v : V}
      → AllEntries P d
      → lookup k d ≡ some v
      → P k v
  AllEntries-lookup P [] k h e = cc
  AllEntries-lookup P ((j, w) ∷ d) k {v} h e = elim (Bool-cases (k == j)) [
    | inl same ↦
        let e' : some w ≡ some v = rw same at e in
        rw ((eq_iff k j).0 same) (subst (P j) (cc e') h.0)
    | inr other ↦ AllEntries-lookup P d k h.1 (rw other at e)
  ]

  pub lookup-insert :
      (j k : String) (v : V) (d : Dict V)
      → lookup j (insert k v d) ≡ (if j == k then some v else lookup j d)
  lookup-insert j k v [] = refl
  lookup-insert j k v ((i, w) ∷ d) =
      ground (arith, eq_iff j k, eq_iff k i, eq_iff j i, lookup-insert j k v d)
