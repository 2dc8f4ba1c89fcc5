-- ===== src/Backtest/Engine/Funding/Holding.antt =====
-- services/backtest/app/engine.py, run_funding_arb: how long its trades are held.
use messiah_fx_prod.Prelude.{
  ℕ, suc, ◌+◌, ◌-◌, ◌<◌, String, true, false, ltb, ◌≡◌, refl, ap, ◌∙◌, arith, Option, none, some,
  List, [], ◌∷◌, length, inl, inr, Bool-cases, Option-cases, ◌=ˢ◌,
}
use messiah_fx_prod.Prelude.Int.{ltb_ℤ}
use messiah_fx_prod.Prelude.Dict.{Dict, lookup, insert, AllEntries, AllEntries-lookup}
use messiah_fx_prod.Numbers.{Floats, num_zero}
use messiah_fx_prod.Backtest.WalkForward.{by_ts}
use messiah_fx_prod.Backtest.Engine.{key_of}
use messiah_fx_prod.Backtest.Engine.Schedule.{IsSchedule, no_trades, wider}
use messiah_fx_prod.Backtest.Engine.Funding.{
  SpotCandle, FundingRate, FundingEntry, FundingParams, insert_rate, sort_rates, is_worth,
  fund_from, symbol_of, funding_arb_trades,
}

module _ {fl : Floats} where
  open fl use {F, eq}

  length-insert_rate :
      (rate : FundingRate fl) (rates : List (FundingRate fl))
      → length (insert_rate rate rates) ≡ suc (length rates)
  unfolding insert_rate
  length-insert_rate rate [] = refl
  length-insert_rate rate (next ∷ rates) = elim (Bool-cases (ltb_ℤ next.ts rate.ts)) [
    | inl later ↦ rw later (ap suc (length-insert_rate rate rates))
    | inr not_later ↦ rw not_later refl
  ]

  length-sort_rates : (rates : List (FundingRate fl)) → length (sort_rates rates) ≡ length rates
  unfolding sort_rates
  length-sort_rates [] = refl
  length-sort_rates (rate ∷ rates) =
      length-insert_rate rate (sort_rates rates) ∙ ap suc (length-sort_rates rates)

  -- The close is a price to divide by.
  abbrev HasClose : String → SpotCandle fl → Type 0
  HasClose k spot = eq spot.close (num_zero fl) ≡ false

  abbrev pub AllClosed : List (SpotCandle fl) → Type 0
  AllClosed [] = Unit
  AllClosed (spot ∷ spots) = (eq spot.close (num_zero fl) ≡ false) × AllClosed spots

  insert-HasClose :
      (k : String) (spot : SpotCandle fl) (d : Dict (SpotCandle fl))
      → HasClose k spot
      → AllEntries HasClose d
      → AllEntries HasClose (insert k spot d)
  insert-HasClose k spot [] c h = (c, tt)
  insert-HasClose k spot ((j, b) ∷ d) c h = elim (Bool-cases (k =ˢ j)) [
    | inl same ↦ rw same (c, h.1)
    | inr other ↦ rw other (h.0, insert-HasClose k spot d c h.1)
  ]

  by_ts-HasClose :
      (d : Dict (SpotCandle fl)) (spots : List (SpotCandle fl))
      → AllClosed spots
      → AllEntries HasClose d
      → AllEntries HasClose (by_ts (λ (c : SpotCandle fl). key_of c.ts) d spots)
  unfolding by_ts
  by_ts-HasClose d [] c h = h
  by_ts-HasClose d (spot ∷ spots) c h =
      by_ts-HasClose (insert (key_of spot.ts) spot d) spots c.1
        (insert-HasClose (key_of spot.ts) spot d c.0 h)

  -- A position was entered before, at a price.
  abbrev IsOpen : ℕ → Option (FundingEntry fl) → Type 0
  IsOpen i none = Unit
  IsOpen i (some entry) = (entry.candle_idx < i) × (eq entry.price (num_zero fl) ≡ false)

  abbrev held_for : ℕ → Option (FundingEntry fl) → ℕ
  held_for i none = 0
  held_for i (some entry) = i - entry.candle_idx

  fund_from-IsSchedule :
      (params : FundingParams fl) (d : Dict (SpotCandle fl)) (symbol : String) (i : ℕ)
      (position : Option (FundingEntry fl)) (rates : List (FundingRate fl))
      → AllEntries HasClose d
      → IsOpen i position
      → IsSchedule (length rates + held_for i position) (fund_from params d symbol i position rates)
  unfolding fund_from
  fund_from-IsSchedule params d symbol i position [] h o = no_trades _
  fund_from-IsSchedule params d symbol i none (rate ∷ rates) h o =
      let waiting : IsSchedule (suc (length rates) + 0)
          (fund_from params d symbol (suc i) none rates) =
        wider (omega arith) (fund_from-IsSchedule params d symbol (suc i) none rates h tt) in
      elim (Bool-cases (is_worth params rate)) [
        | inl worth ↦ elim (Option-cases (lookup (key_of rate.ts) d)) [
          | inl missing ↦ rw (worth, missing) waiting
          | inr found ↦
              let priced = AllEntries-lookup HasClose d (key_of rate.ts) h found.1 in
              rw (worth, found.1, priced)
                (wider (omega arith) (
                  fund_from-IsSchedule params d symbol (suc i) (some _) rates h
                    (omega arith, priced)))
        ]
        | inr small ↦ rw small waiting
      ]
  fund_from-IsSchedule params d symbol i (some entry) (rate ∷ rates) h o =
      let later : ltb entry.candle_idx i ≡ true = ground (arith, o.0) in
      elim (Option-cases (lookup (key_of rate.ts) d)) [
        | inl missing ↦
            rw (later, missing)
              (wider (omega (arith, o.0)) (
                fund_from-IsSchedule params d symbol (suc i) (some entry) rates h
                  (omega (arith, o.0), o.1)))
        | inr found ↦
            let rest = fund_from-IsSchedule params d symbol (suc i) none rates h tt in
            rw (later, found.1, o.1, rest.is_result)
              record {
                trades = _ ∷ rest.trades;
                is_result = refl;
                held = (omega (arith, o.0), rest.held);
                within = omega (arith, rest.within);
              }
      ]

  -- For spot candles that do not close at 0, the simulation answers trades: each is held for a
  -- funding period or more, and all of them together for no more than the funding rates, since one
  -- is closed before the next is entered.
  pub funding_arb_trades-IsSchedule :
      (params : FundingParams fl) (spots : List (SpotCandle fl)) (rates : List (FundingRate fl))
      → AllClosed spots
      → IsSchedule (length rates) (funding_arb_trades params spots rates)
  unfolding funding_arb_trades
  funding_arb_trades-IsSchedule params spots rates c =
      wider (omega (arith, length-sort_rates rates)) (
        fund_from-IsSchedule params (by_ts (λ (s : SpotCandle fl). key_of s.ts) [] spots)
          (symbol_of spots) 0 none (sort_rates rates) (by_ts-HasClose [] spots c tt) tt)
