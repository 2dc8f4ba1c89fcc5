-- ===== src/Rag/Pages/Search.antt =====
-- services/rag/app/chunker.py, _offset_to_page: the halving finds the last page that begins before.
use messiah_fx_prod.Prelude.{
  ℕ, zero, suc, ◌+◌, ◌-◌, ◌/◌, ◌≤◌, ◌<◌, ltb, leb, length, ◌≡◌, refl, arith, List, [], ◌∷◌, inl,
  inr, Bool-cases,
}
use messiah_fx_prod.Rag.Pages.{entry_at, search, offset_to_page}

-- Each page begins at or after the one before.
abbrev pub IsAscending : List (ℕ × ℕ) → Type 0
IsAscending [] = Unit
IsAscending (e ∷ []) = Unit
IsAscending (e ∷ f ∷ page_index) = (e.0 ≤ f.0) × IsAscending (f ∷ page_index)

-- The last page that begins at or before the place.
pub record IsLast (page_index : List (ℕ × ℕ)) (offset i : ℕ) : Type 0 where
  pub begins : (entry_at i page_index).0 ≤ offset
  pub in_index : i < length page_index
  pub later_past : (j : ℕ) → i < j → j < length page_index → offset < (entry_at j page_index).0

ascends_from :
    (e : ℕ × ℕ) (page_index : List (ℕ × ℕ)) (j : ℕ)
    → IsAscending (e ∷ page_index)
    → j < length page_index
    → e.0 ≤ (entry_at j page_index).0
ascends_from e [] j h k = absurd (omega arith)
ascends_from e (f ∷ page_index) zero h k = h.0
ascends_from e (f ∷ page_index) (suc j) h k =
    let rest = ascends_from f page_index j h.1 (omega arith) in omega (arith, h.0, rest)

tail-IsAscending :
    (e : ℕ × ℕ) (page_index : List (ℕ × ℕ)) → IsAscending (e ∷ page_index) → IsAscending page_index
tail-IsAscending e [] h = tt
tail-IsAscending e (f ∷ page_index) h = h.1

ascends :
    (page_index : List (ℕ × ℕ)) (i j : ℕ)
    → IsAscending page_index
    → i < j
    → j < length page_index
    → (entry_at i page_index).0 ≤ (entry_at j page_index).0
ascends [] i j h p q = absurd (omega arith)
ascends (e ∷ page_index) i zero h p q = absurd (omega arith)
ascends (e ∷ page_index) zero (suc j) h p q = ascends_from e page_index j h (omega arith)
ascends (e ∷ page_index) (suc i) (suc j) h p q =
    ascends page_index i j (tail-IsAscending e page_index h) (omega arith) (omega arith)

-- What is past a place is past it further on too.
from_mid :
    (page_index : List (ℕ × ℕ)) (offset mid j : ℕ)
    → IsAscending page_index
    → offset < (entry_at mid page_index).0
    → mid ≤ j
    → j < length page_index
    → offset < (entry_at j page_index).0
from_mid page_index offset mid j asc h p q = elim (Bool-cases (ltb mid j)) [
  | inl less ↦ let more = ascends page_index mid j asc (ground arith) q in omega (arith, h, more)
  | inr not_less ↦ let same : j ≡ mid = ground arith in rw same h
]

search-IsLast :
    (fuel : ℕ) (page_index : List (ℕ × ℕ)) (offset lo hi : ℕ)
    → IsAscending page_index
    → hi < lo + fuel
    → lo ≤ hi
    → hi < length page_index
    → (entry_at lo page_index).0 ≤ offset
    → ((j : ℕ) → hi < j → j < length page_index → offset < (entry_at j page_index).0)
    → IsLast page_index offset (search fuel page_index offset lo hi)
unfolding search
search-IsLast zero page_index offset lo hi asc f o b at_lo past = absurd (omega arith)
search-IsLast (suc fuel) page_index offset lo hi asc f o b at_lo past =
    let mid = (lo + hi + 1) / 2 in
    elim (Bool-cases (ltb lo hi)) [
      | inr done ↦ rw done (record {
        begins = at_lo;
        in_index = omega arith;
        later_past = λ j p q. past j (ground arith) q;
      })
      | inl open_still ↦
          let apart : lo < hi = ground arith in
          elim (Bool-cases (leb (entry_at mid page_index).0 offset)) [
            | inl before ↦
                rw (open_still, before)
                  (search-IsLast fuel page_index offset mid hi asc (omega arith) (omega arith) b
                    (ground arith) past)
            | inr beyond ↦
                let mid_past : offset < (entry_at mid page_index).0 = ground arith in
                rw (open_still, beyond)
                  (search-IsLast fuel page_index offset lo (mid - 1) asc (omega arith) (omega arith)
                    (omega arith) at_lo
                    λ j p q. from_mid page_index offset mid j asc mid_past (omega arith) q)
          ]
    ]

-- For an index that ascends and begins at 0: the page of a place is that of the last entry that begins
-- at or before it.
pub offset_to_page-IsLast :
    (page : ℕ) (page_index : List (ℕ × ℕ)) (offset : ℕ)
    → IsAscending ((0, page) ∷ page_index)
    → (i : ℕ) × (IsLast ((0, page) ∷ page_index) offset i
        × (offset_to_page ((0, page) ∷ page_index) offset
            ≡ (entry_at i ((0, page) ∷ page_index)).1))
unfolding offset_to_page
offset_to_page-IsLast page page_index offset asc =
    let all = (0, page) ∷ page_index in
    (
      search (length all) all offset 0 (length all - 1),
      (
        search-IsLast (length all) all offset 0 (length all - 1) asc (omega arith) (omega arith)
            (omega arith) (omega arith) (λ j p q. absurd (omega arith)),
        refl,
      ),
    )
