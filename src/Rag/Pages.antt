-- ===== src/Rag/Pages.antt =====
-- services/rag/app/chunker.py: the page of a place in a document. The index of the pages, which a
-- regular expression finds, is an argument.
pub mod Search
use messiah_fx_prod.Prelude.{
  ℕ, zero, suc, ◌+◌, ◌-◌, ◌/◌, ltb, leb, length, List, [], ◌∷◌, if◌then◌else◌,
}

-- `page_index[i]`; past the end, where the code does not look, page 1
abbrev pub entry_at : ℕ → List (ℕ × ℕ) → ℕ × ℕ
entry_at i [] = (0, 1)
entry_at zero (e ∷ page_index) = e
entry_at (suc i) (e ∷ page_index) = entry_at i page_index

-- The halving of the interval, on fuel; one round for each page is enough.
unfoldable pub search : ℕ → List (ℕ × ℕ) → ℕ → ℕ → ℕ → ℕ
search zero page_index offset lo hi = lo
search (suc fuel) page_index offset lo hi =
    let mid = (lo + hi + 1) / 2 in
    let upper = search fuel page_index offset mid hi in
    let lower = search fuel page_index offset lo (mid - 1) in
    if ltb lo hi then (if leb (entry_at mid page_index).0 offset then upper else lower) else lo

unfoldable pub offset_to_page : List (ℕ × ℕ) → ℕ → ℕ
offset_to_page page_index offset =
    (entry_at (search (length page_index) page_index offset 0 (length page_index - 1)) page_index).1
