-- ===== src/Tests/Documents.antt =====
-- Runs of the search for a page, and the theorem at one.
use messiah_fx_prod.Prelude.{ℕ, ◌≡◌, refl, arith, List, [], ◌∷◌}
use messiah_fx_prod.Rag.Pages.{entry_at, offset_to_page, search}
use messiah_fx_prod.Rag.Pages.Search.{IsLast, offset_to_page-IsLast}

abbrev pages : List (ℕ × ℕ)
pages = (40, 2) ∷ (95, 3) ∷ (210, 4) ∷ []

offset_to_page_runs : offset_to_page ((0, 1) ∷ pages) 100 ≡ 3
unfolding offset_to_page search
offset_to_page_runs = refl

offset_to_page-IsLast_example :
    (i : ℕ) × (IsLast ((0, 1) ∷ pages) 100 i
      × (offset_to_page ((0, 1) ∷ pages) 100 ≡ (entry_at i ((0, 1) ∷ pages)).1))
offset_to_page-IsLast_example =
    offset_to_page-IsLast 1 pages 100 (omega arith, (omega arith, (omega arith, tt)))
