-- ===== src/Backtest/WalkForward/Alignment.antt =====
-- services/backtest/app/walk_forward.py, _align: the two legs are of the same times.
use messiah_fx_prod.Prelude.{
  String, ◌≡◌, refl, List, [], ◌∷◌, map, Option-cases, inl, inr, ◌=ˢ◌, eq_iff, Bool-cases,
}
use messiah_fx_prod.Prelude.Dict.{Dict, lookup, insert, AllEntries, AllEntries-lookup}
use messiah_fx_prod.Backtest.WalkForward.{by_ts, matches, align}

module _ {C : Type 0} (ts : C → String) where
  -- Every candle stands under its time.
  abbrev IsIndex : Dict C → Type 0
  IsIndex d = AllEntries (λ k c. k ≡ ts c) d

  insert-IsIndex : (k : String) (c : C) (d : Dict C) → k ≡ ts c → IsIndex d → IsIndex (insert k c d)
  insert-IsIndex k c [] e h = (e, tt)
  insert-IsIndex k c ((j, b) ∷ d) e h = elim (Bool-cases (k =ˢ j)) [
    | inl same ↦ let joined : j ≡ ts c = cc ((eq_iff k j).0 same) in rw same (joined, h.1)
    | inr other ↦ rw other (h.0, insert-IsIndex k c d e h.1)
  ]

  by_ts-IsIndex : (d : Dict C) (perp : List C) → IsIndex d → IsIndex (by_ts ts d perp)
  unfolding by_ts
  by_ts-IsIndex d [] h = h
  by_ts-IsIndex d (c ∷ perp) h =
      by_ts-IsIndex (insert (ts c) c d) perp (insert-IsIndex (ts c) c d refl h)

  matches_times :
      (d : Dict C) (spot : List C)
      → IsIndex d
      → map ts (matches ts d spot).0 ≡ map ts (matches ts d spot).1
  matches_times d [] h = refl
  matches_times d (c ∷ spot) h = elim (Option-cases (lookup (ts c) d)) [
    | inl missing ↦ rw missing (matches_times d spot h)
    | inr found ↦
        let same : ts c ≡ ts found.0 = AllEntries-lookup _ d (ts c) h found.1 in
        rw (found.1, same, matches_times d spot h) refl
  ]

  -- After the alignment the candles of the two legs have the same times, one by one.
  pub map-align :
      (spot perp : List C) → map ts (align ts spot perp).0 ≡ map ts (align ts spot perp).1
  unfolding align
  map-align spot perp = matches_times (by_ts ts [] perp) spot (by_ts-IsIndex [] perp tt)
