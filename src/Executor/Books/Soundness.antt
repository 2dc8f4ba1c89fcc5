-- ===== src/Executor/Books/Soundness.antt =====
-- services/executor/app/db.py: the rows of the positions table stay sound.
use messiah_fx_prod.Prelude.{
  ℕ, String, Bool, true, ◌≡◌, Option, none, some, List, [], ◌∷◌, inl, inr, Bool-cases,
}
use messiah_fx_prod.Prelude.Dict.{lookup}
use messiah_fx_prod.Numbers.{Floats, num_zero, or_zero}
use messiah_fx_prod.Numbers.Laws.{IsOrdered}
use messiah_fx_prod.Ledger.Pnl.{FillOutcome}
use messiah_fx_prod.Ledger.Pnl.Fees.{IsSound, Sound, apply_fill-Sound}
use messiah_fx_prod.Executor.Orders.{OrderRequest, OrderResult}
use messiah_fx_prod.Executor.Books.{
  Trade, Position, Books, Prior, prior_of, prior_in, find_position, is_fill, has_key, insert_unless,
  upsert_position, book_fill, persist_trade,
}

module _ {fl : Floats} (laws : IsOrdered fl) where
  open fl use {F, le, round}

  -- Neither the entry price nor the carried fees of a row are negative.
  abbrev pub IsSoundRow : Position fl → Type 0
  IsSoundRow row = (le (num_zero fl) row.avg_price ≡ true) × (le (num_zero fl) row.open_fees ≡ true)

  abbrev pub AllSound : List (Position fl) → Type 0
  AllSound [] = Unit
  AllSound (row ∷ rows) = IsSoundRow row × AllSound rows

  find_position-IsSound :
      (v s t : String) (m : Bool) (rows : List (Position fl))
      → AllSound rows
      → IsSound fl laws (prior_of (find_position v s t m rows)).current
  find_position-IsSound v s t m [] h = record { price = laws.le_refl _; fees = laws.le_refl _ }
  find_position-IsSound v s t m (row ∷ rows) h = elim (Bool-cases (has_key v s t m row)) [
    | inl here ↦ rw here (record { price = h.0.0; fees = h.0.1 })
    | inr other ↦ rw other (find_position-IsSound v s t m rows h.1)
  ]

  upsert-AllSound :
      (new : Position fl) (rows : List (Position fl))
      → IsSoundRow new
      → AllSound rows
      → AllSound (upsert_position new rows)
  upsert-AllSound new [] n h = (n, tt)
  upsert-AllSound new (row ∷ rows) n h =
      elim (Bool-cases (has_key new.venue new.symbol new.strategy_type new.paper_mode row)) [
        | inl here ↦ rw here (n, h.1)
        | inr other ↦ rw other (h.0, upsert-AllSound new rows n h.1)
      ]

  -- The call returns, and the rows are sound.
  pub data Keeps : Option (Option F) × Books fl → Type 0 where
    returns : (x : Option F) (books : Books fl) → AllSound books.positions → Keeps (some x, books)

  insert_unless-Keeps :
      (o : Option (Trade fl)) (t : Trade fl) (rows : List (Position fl)) (books : Books fl)
      → AllSound rows
      → AllSound books.positions
      → Keeps (insert_unless o t rows books)
  insert_unless-Keeps none t rows books h k = returns _ _ h
  insert_unless-Keeps (some prior) t rows books h k = returns _ _ k

  module _
      (round_nonneg : (x : F) (k : ℕ)
        → le (num_zero fl) x ≡ true
        → le (num_zero fl) (round x k) ≡ true) where
    book_fill-Keeps :
        (now : String) (order : OrderRequest fl) (result : OrderResult fl) (prior : Prior fl)
        (o : Option (FillOutcome fl)) (books : Books fl)
        → Sound fl laws o
        → AllSound books.positions
        → Keeps (book_fill now order result prior o books)
    book_fill-Keeps now order result prior none books h k = absurd h
    book_fill-Keeps now order result prior (some outcome) books h k =
        insert_unless-Keeps (lookup result.client_order_id books.trades) _ _ books
          (upsert-AllSound _ books.positions (round_nonneg _ 8 h.0.price, round_nonneg _ 8 h.0.fees)
            k)
          k

    -- For floats that meet `IsOrdered`: if no row of the positions table has a negative entry price or negative carried fees, then
    -- persisting any result returns, without a division by zero, and leaves such rows. The floats
    -- round a number that is not negative to one that is not negative.
    pub persist_trade-Keeps :
        (now : String) (order : OrderRequest fl) (result : OrderResult fl) (books : Books fl)
        → AllSound books.positions
        → Keeps (persist_trade now order result books)
    unfolding persist_trade
    persist_trade-Keeps now order result books h = elim (Bool-cases (is_fill result)) [
      | inl fill ↦ rw fill (
          book_fill-Keeps now order result (prior_in order books) _ books
            (apply_fill-Sound fl laws (prior_in order books).current order.side result.filled_qty
              result.average_fill_price (or_zero fl result.fee)
              (find_position-IsSound _ _ _ _ books.positions h))
            h)
      | inr other ↦ rw other (
          insert_unless-Keeps (lookup result.client_order_id books.trades) _ books.positions books h
            h)
    ]
