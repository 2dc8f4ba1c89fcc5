-- ===== src/Redis/Trim.antt =====
-- The lists that LTRIM key -n -1 leaves.
use messiah_fx_prod.Prelude.{
  ℕ, ◌+◌, true, ◌&&◌, ltb, length, length-append, ◌≡◌, refl, arith, List, [], ◌∷◌, ◌++◌, inl, inr,
  Bool-cases,
}
use messiah_fx_prod.Redis.{trim}

module _ {ℓ} {A : Type ℓ} (n : ℕ) where
  -- An element that is trimmed now would be trimmed with more after it.
  pub trim-trim_append :
      (xs : List A) (x : A) → trim n (trim n xs ++ x ∷ []) ≡ trim n (xs ++ x ∷ [])
  unfolding trim
  trim-trim_append [] x = refl
  trim-trim_append (y ∷ xs) x = elim (Bool-cases (ltb 0 n && ltb n (length (y ∷ xs)))) [
    | inl cut ↦
        let longer : length (xs ++ x ∷ []) ≡ length xs + 1 = length-append xs (x ∷ []) in
        let still : (ltb 0 n && ltb n (length (y ∷ xs ++ x ∷ []))) ≡ true = ground arith in
        rw (cut, still) (trim-trim_append xs x)
    | inr whole ↦ rw whole refl
  ]
