-- ===== src/Volatility/Limits.antt =====
-- shared/mezna_shared/volatility.py: how far volatility moves a size.
use messiah_fx_prod.Prelude.{true, ◌≡◌, refl, ◌⊎◌, inl, inr, List, length, ltb, Bool-cases}
use messiah_fx_prod.Numbers.{Floats, num_zero, num_one, min_of}
use messiah_fx_prod.Numbers.Laws.{IsOrdered, le_max_left, min_le_left}
use messiah_fx_prod.Volatility.{Roots, clamp, ewma_vol, relative_sizing_multiplier}

module _ {fl : Floats} (laws : IsOrdered fl) where
  open fl use {F, lt, le}

  -- One, or within the limits.
  abbrev pub IsMultiplier : F → F → F → Type 0
  IsMultiplier lo hi m = (m ≡ num_one fl) ⊎ ((le lo m ≡ true) × (le m hi ≡ true))

  clamp-IsMultiplier : (lo hi x : F) → le lo hi ≡ true → IsMultiplier lo hi (clamp fl lo hi x)
  clamp-IsMultiplier lo hi x h = inr (
    le_max_left fl laws lo (min_of fl hi x),
    elim (Bool-cases (lt lo (min_of fl hi x))) [
      | inl past ↦ rw past (min_le_left fl laws hi x)
      | inr not_past ↦ rw not_past h
    ],
  )

  -- For floats that meet IsOrdered and limits in order: the relative multiplier of a size is one, or
  -- within the limits, whatever the returns are.
  pub relative_sizing_multiplier-IsMultiplier :
      (roots : Roots fl) (returns : List F) (lam lo hi : F)
      → le lo hi ≡ true
      → IsMultiplier lo hi (relative_sizing_multiplier fl roots returns lam lo hi)
  unfolding relative_sizing_multiplier
  relative_sizing_multiplier-IsMultiplier roots returns lam lo hi h =
      elim (Bool-cases (ltb (length returns) 5)) [
        | inl few ↦ rw few (inl refl)
        | inr enough ↦ elim (Bool-cases (le (ewma_vol fl roots returns lam) (num_zero fl))) [
          | inl still ↦ rw (enough, still) (inl refl)
          | inr moves ↦ rw (enough, moves) (clamp-IsMultiplier lo hi _ h)
        ]
      ]
