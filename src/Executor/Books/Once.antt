-- ===== src/Executor/Books/Once.antt =====
-- services/executor/app/db.py: a result is booked once.
use messiah_fx_prod.Prelude.{
  String, true, ◌≡◌, refl, Option, none, some, List, inl, inr, Bool-cases, ◌=ˢ◌, eq_iff,
}
use messiah_fx_prod.Prelude.Dict.{lookup, lookup-insert}
use messiah_fx_prod.Numbers.{Floats, or_zero}
use messiah_fx_prod.Ledger.Pnl.{FillOutcome, apply_fill}
use messiah_fx_prod.Executor.Orders.{OrderRequest, OrderResult}
use messiah_fx_prod.Executor.Books.{
  Trade, Position, Books, Prior, prior_in, is_fill, insert_unless, book_fill, persist_trade,
}

module _ {fl : Floats} where
  -- A trade is booked under a client_order_id.
  abbrev pub IsBooked : String → Books fl → Type 0
  IsBooked id books = (t : Trade fl) × (lookup id books.trades ≡ some t)

  insert_unless-IsBooked :
      (o : Option (Trade fl)) (t : Trade fl) (rows : List (Position fl)) (books : Books fl)
      → lookup t.result.client_order_id books.trades ≡ o
      → IsBooked t.result.client_order_id (insert_unless o t rows books).1
  insert_unless-IsBooked (some prior) t rows books e = (prior, e)
  insert_unless-IsBooked none t rows books e =
      let id = t.result.client_order_id in
      let same : (id =ˢ id) ≡ true = (eq_iff id id).1 refl in
      (t, rw (lookup-insert id id t books.trades, same) refl)

  book_fill-IsBooked :
      (now : String) (order : OrderRequest fl) (result : OrderResult fl) (prior : Prior fl)
      (o : Option (FillOutcome fl)) (books : Books fl) {x : Option fl.F}
      → (book_fill now order result prior o books).0 ≡ some x
      → IsBooked result.client_order_id (book_fill now order result prior o books).1
  book_fill-IsBooked now order result prior none books e = cc
  book_fill-IsBooked now order result prior (some outcome) books e =
      insert_unless-IsBooked _ _ _ books refl

  persist_trade-IsBooked :
      (now : String) (order : OrderRequest fl) (result : OrderResult fl) (books : Books fl)
      (x : Option fl.F)
      → (persist_trade now order result books).0 ≡ some x
      → IsBooked result.client_order_id (persist_trade now order result books).1
  unfolding persist_trade
  persist_trade-IsBooked now order result books x e = elim (Bool-cases (is_fill result)) [
    | inl fill ↦
        let e' : (book_fill now order result (prior_in order books)
              (apply_fill fl (prior_in order books).current order.side result.filled_qty
                result.average_fill_price (or_zero fl result.fee))
              books).0
            ≡ some x =
          rw fill at e in
        rw fill (book_fill-IsBooked now order result (prior_in order books) _ books e')
    | inr other ↦
        rw other
          (insert_unless-IsBooked (lookup result.client_order_id books.trades) _ _ books refl)
  ]

  book_fill-unchanged :
      (now : String) (order : OrderRequest fl) (result : OrderResult fl) (prior : Prior fl)
      (o : Option (FillOutcome fl)) (books : Books fl)
      → IsBooked result.client_order_id books
      → (book_fill now order result prior o books).1 ≡ books
  book_fill-unchanged now order result prior none books h = refl
  book_fill-unchanged now order result prior (some outcome) books h = rw h.1

  persist_trade-unchanged :
      (now : String) (order : OrderRequest fl) (result : OrderResult fl) (books : Books fl)
      → IsBooked result.client_order_id books
      → (persist_trade now order result books).1 ≡ books
  unfolding persist_trade
  persist_trade-unchanged now order result books h = elim (Bool-cases (is_fill result)) [
    | inl fill ↦ rw fill (book_fill-unchanged now order result (prior_in order books) _ books h)
    | inr other ↦ rw (other, h.1) refl
  ]

  -- Once a result is persisted, persisting it again, at whatever time, changes neither the trades nor
  -- the positions.
  pub persist_trade-once :
      (now later : String) (order : OrderRequest fl) (result : OrderResult fl) (books : Books fl)
      (x : Option fl.F)
      → (persist_trade now order result books).0 ≡ some x
      → (persist_trade later order result (persist_trade now order result books).1).1
        ≡ (persist_trade now order result books).1
  persist_trade-once now later order result books x e =
      persist_trade-unchanged later order result _
        (persist_trade-IsBooked now order result books x e)
