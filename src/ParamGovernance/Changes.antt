-- ===== src/ParamGovernance/Changes.antt =====
-- shared/mezna_shared/param_governance.py: a difference says all that changed.
use messiah_fx_prod.Prelude.{
  String, true, ◌≡◌, refl, ap, Option, none, some, [], ◌∷◌, ◌=ˢ◌, eq_iff, inl, inr, Bool-cases,
  Option-cases, if◌then◌else◌,
}
use messiah_fx_prod.Prelude.Dict.{Dict, lookup}
use messiah_fx_prod.ParamGovernance.{
  Values, Change, Diff, keep_if, only_in, change_if, changed_in, diff_params,
}

-- No key stands twice, as in every Python dict.
abbrev pub IsDistinct : {V : Type 0} → Dict V → Type 0
IsDistinct [] = Unit
IsDistinct ((k, v) ∷ d) = (lookup k d ≡ none) × IsDistinct d

module _ {V : Type 0} where
  -- The second value, where there is no first.
  abbrev only_there : Option V → Option V → Option V
  only_there none v = v
  only_there (some w) v = none

  lookup-keep_if :
      (o : Option V) (k j : String) (v : V) (old new d : Dict V)
      → lookup j old ≡ o
      → lookup k d ≡ only_there (lookup k old) (lookup k new)
      → lookup k (keep_if o j v d) ≡ only_there (lookup k old) (lookup k ((j, v) ∷ new))
  lookup-keep_if none k j v old new d e h = elim (Bool-cases (k =ˢ j)) [
    | inl same ↦
        let missing : lookup k old ≡ none = rw ((eq_iff k j).0 same) e in rw (same, missing) refl
    | inr other ↦ rw other h
  ]
  lookup-keep_if (some w) k j v old new d e h = elim (Bool-cases (k =ˢ j)) [
    | inl same ↦
        let found : lookup k old ≡ some w = rw ((eq_iff k j).0 same) e in rw (h, found) refl
    | inr other ↦ rw other h
  ]

  lookup-only_in :
      (k : String) (old new : Dict V)
      → lookup k (only_in old new) ≡ only_there (lookup k old) (lookup k new)
  unfolding only_in
  lookup-only_in k old [] = elim (Option-cases (lookup k old)) [
    | inl missing ↦ rw missing refl
    | inr found ↦ rw found.1 refl
  ]
  lookup-only_in k old ((j, v) ∷ new) =
      lookup-keep_if (lookup j old) k j v old new (only_in old new) refl (lookup-only_in k old new)

module _ (vs : Values) where
  open vs use {V, same}

  -- Both values, where there are two that differ.
  abbrev changed_there : Option V → Option V → Option (Change vs)
  changed_there none v = none
  changed_there (some w) none = none
  changed_there (some w) (some v) = if same w v then none else some (record { old = w; new = v })

  lookup-change_if :
      (o : Option V) (k j : String) (v : V) (old new : Dict V) (d : Dict (Change vs))
      → lookup j new ≡ none
      → lookup j old ≡ o
      → lookup k d ≡ changed_there (lookup k old) (lookup k new)
      → lookup k (change_if vs o j v d) ≡ changed_there (lookup k old) (lookup k ((j, v) ∷ new))
  lookup-change_if none k j v old new d once e h = elim (Bool-cases (k =ˢ j)) [
    | inl at_j ↦
        let missing : lookup k old ≡ none = rw ((eq_iff k j).0 at_j) e in rw (h, missing) refl
    | inr other ↦ rw other h
  ]
  lookup-change_if (some w) k j v old new d once e h = elim (Bool-cases (k =ˢ j)) [
    | inl at_j ↦
        let found : lookup k old ≡ some w = rw ((eq_iff k j).0 at_j) e in
        let gone : lookup k new ≡ none = rw ((eq_iff k j).0 at_j) once in
        let none_later : lookup k d ≡ none = rw (found, gone) at h in
        elim (Bool-cases (same w v)) [
          | inl kept ↦ rw (at_j, found, kept) none_later
          | inr differ ↦ rw (differ, found) (rw at_j (rw differ refl))
        ]
    | inr other ↦ elim (Bool-cases (same w v)) [
      | inl kept ↦ rw (kept, other) h
      | inr differ ↦ rw (differ, other) h
    ]
  ]

  lookup-changed_in :
      (k : String) (old new : Dict V)
      → IsDistinct new
      → lookup k (changed_in vs old new) ≡ changed_there (lookup k old) (lookup k new)
  unfolding changed_in
  lookup-changed_in k old [] distinct = elim (Option-cases (lookup k old)) [
    | inl missing ↦ rw missing refl
    | inr found ↦ rw found.1 refl
  ]
  lookup-changed_in k old ((j, v) ∷ new) distinct =
      lookup-change_if (lookup j old) k j v old new (changed_in vs old new) distinct.0 refl
        (lookup-changed_in k old new distinct.1)

  patched_by : Option (Change vs) → Option V → Option V → Option V → Option V
  patched_by (some change) added removed old = some change.new
  patched_by none (some v) removed old = some v
  patched_by none none (some v) old = none
  patched_by none none none old = old

  -- The value of a parameter after a difference is applied.
  unfoldable pub patched : Diff vs → Dict V → String → Option V
  unfolding patched_by
  patched diff old k =
      patched_by (lookup k diff.changed) (lookup k diff.added) (lookup k diff.removed)
        (lookup k old)

  patched_by_lem :
      ((a b : V) → same a b ≡ true → a ≡ b)
      → (o n : Option V) → patched_by (changed_there o n) (only_there o n) (only_there n o) o ≡ n
  unfolding patched_by
  patched_by_lem sound none none = refl
  patched_by_lem sound none (some v) = refl
  patched_by_lem sound (some w) none = refl
  patched_by_lem sound (some w) (some v) = elim (Bool-cases (same w v)) [
    | inl kept ↦ rw kept (ap some (sound w v kept))
    | inr differ ↦ rw differ refl
  ]

  -- Where values that compare equal are equal: the difference of two parameter sets, applied to the
  -- old set, gives every parameter its new value, and removes what the new set lacks.
  pub patched-diff_params :
      ((a b : V) → same a b ≡ true → a ≡ b)
      → (old new : Dict V) → IsDistinct new
      → (k : String) → patched (diff_params vs old new) old k ≡ lookup k new
  unfolding patched diff_params
  patched-diff_params sound old new distinct k =
      rw (lookup-changed_in k old new distinct, lookup-only_in k old new, lookup-only_in k new old)
        (patched_by_lem sound (lookup k old) (lookup k new))
