-- ===== src/Executor/Paper/Fills.antt =====
-- services/executor/app/adapters/paper.py: what a simulated fill costs.
use messiah_fx_prod.Prelude.{
  String, false, ◌≡◌, refl, sym, ◌∙◌, ap, ◌⊎◌, inl, inr, Option, none, some, [], ◌∷◌, ◌=ˢ◌,
  Bool-cases, ◌>>=◌, if◌then◌else◌,
}
use messiah_fx_prod.Prelude.Dict.{Dict, lookup}
use messiah_fx_prod.Numbers.{Floats, num_zero, num_one, max_of}
use messiah_fx_prod.Redis.{Redis}
use messiah_fx_prod.Executor.Sizing.{latest_tick, tick_price, calc_quantity, quantity_at}
use messiah_fx_prod.Executor.Orders.{OrderRequest, OrderResult}
use messiah_fx_prod.Executor.Paper.{
  Quote, quote_from, quote_in, fill_price, fill_at, unfilled, filled_or_error, simulate,
}

-- The result of an order: a fill of all of it at a price, or the error of a tick that cannot be read.
pub record IsFillAt {fl : Floats} (order : OrderRequest fl) (price : Option fl.F)
    (result : OrderResult fl) : Type 0 where
  pub at_price : price ≡ some result.average_fill_price
  pub whole_order : result.filled_qty ≡ order.quantity
  pub is_filled : result.status ≡ "filled"

-- The price that the tick shows for the side, the ask to a buyer and the bid to a seller.
abbrev pub shown : (fl : Floats) → String → Dict String → Option fl.F
shown fl side tick =
    if side =ˢ "buy"
    then (lookup "ask" tick >>= λ raw. fl.parse raw)
    else (lookup "bid" tick >>= λ raw. fl.parse raw)

-- A quantity for the dollars at a price past 0: whole units, at least one, at oanda, and else eight
-- digits.
pub record IsSizedAt (fl : Floats) (venue : String) (usd price q : fl.F) : Type 0 where
  pub positive : fl.le price (num_zero fl) ≡ false
  pub units : q ≡ (
      if venue =ˢ "oanda"
      then max_of fl (num_one fl) (fl.round (fl.div usd price) 0)
      else fl.round (fl.div usd price) 8)

-- One of the three prices of the tick is missing or no number.
abbrev pub IsUnreadable : (fl : Floats) → Dict String → Type 0
IsUnreadable fl tick =
    ((lookup "bid" tick >>= λ raw. fl.parse raw) ≡ none)
    ⊎ ((lookup "ask" tick >>= λ raw. fl.parse raw) ≡ none)
    ⊎ ((lookup "mid" tick >>= λ raw. fl.parse raw) ≡ none)

module _ {fl : Floats} (r : Redis fl) where
  quote_missing :
      (bid ask mid : Option fl.F)
      → quote_from {fl = fl} bid ask mid ≡ none
      → (bid ≡ none) ⊎ (ask ≡ none) ⊎ (mid ≡ none)
  quote_missing none ask mid e = inl refl
  quote_missing (some b) none mid e = inr (inl refl)
  quote_missing (some b) (some a) none e = inr (inr refl)
  quote_missing (some b) (some a) (some m) e = absurd (cc e)

  quote_parts :
      (bid ask mid : Option fl.F) (quote : Quote fl)
      → quote_from bid ask mid ≡ some quote
      → (bid ≡ some quote.bid) × (ask ≡ some quote.ask)
  quote_parts none ask mid quote e = cc e
  quote_parts (some b) none mid quote e = cc e
  quote_parts (some b) (some a) none quote e = cc e
  quote_parts (some b) (some a) (some m) quote e =
      let same : record { bid = b; ask = a; mid = m } ≡ quote = cc e in
      (ap (λ (q : Quote fl). some q.bid) same, ap (λ (q : Quote fl). some q.ask) same)

  same_price :
      (side : String) (tick : Dict String) (quote : Quote fl)
      → quote_in tick ≡ some quote
      → shown fl side tick ≡ some (fill_price side quote)
  same_price side tick quote e =
      let parts = quote_parts _ _ _ quote e in
      elim (Bool-cases (side =ˢ "buy")) [
        | inl buys ↦ rw buys parts.1
        | inr sells ↦ rw sells parts.0
      ]

  -- A tick gives a fill at the price that it shows for the side, or an error where it is unreadable.
  filled_or_error-IsFillAt :
      (random12 : String) (order : OrderRequest fl) (fee_bps : fl.F) (tick : Dict String)
      (answer : Option (Quote fl))
      → quote_in tick ≡ answer
      → ((filled_or_error random12 order fee_bps answer
            ≡ unfilled order "error" "malformed_tick_data")
          × IsUnreadable fl tick)
        ⊎ IsFillAt order (shown fl order.side tick) (filled_or_error random12 order fee_bps answer)
  filled_or_error-IsFillAt random12 order fee_bps tick none e = inl (refl, quote_missing _ _ _ e)
  filled_or_error-IsFillAt random12 order fee_bps tick (some quote) e = inr (record {
    at_price = same_price order.side tick quote e;
    whole_order = refl;
    is_filled = refl;
  })

  fill_at-IsFillAt :
      (random12 : String) (order : OrderRequest fl) (fee_bps : fl.F) (tick : Dict String)
      (price : fl.F)
      → tick_price r order.side tick ≡ some price
      → ((fill_at random12 order fee_bps tick ≡ unfilled order "error" "malformed_tick_data")
          × IsUnreadable fl tick)
        ⊎ IsFillAt order (shown fl order.side tick) (fill_at random12 order fee_bps tick)
  fill_at-IsFillAt random12 order fee_bps [] price e = absurd (cc e)
  fill_at-IsFillAt random12 order fee_bps (entry ∷ tick) price e =
      filled_or_error-IsFillAt random12 order fee_bps (entry ∷ tick) _ refl

  tick_price_lem :
      (side : String) (tick : Dict String) → tick_price r side tick ≡ shown fl side tick
  tick_price_lem side tick = elim (Bool-cases (side =ˢ "buy")) [
    | inl buys ↦ rw buys refl
    | inr sells ↦ rw sells refl
  ]

  -- A quantity comes from a price past 0, which divides the dollars.
  quantity_at-IsSizedAt :
      (venue : String) (usd price q : fl.F)
      → quantity_at r venue usd price ≡ some q
      → IsSizedAt fl venue usd price q
  quantity_at-IsSizedAt venue usd price q e = elim (Bool-cases (fl.le price (num_zero fl))) [
    | inl not_past ↦ let e' : none ≡ some q = rw not_past at e in absurd (cc e')
    | inr past ↦ elim (Bool-cases (fl.eq price (num_zero fl))) [
      | inl zero ↦ let e' : none ≡ some q = rw (past, zero) at e in absurd (cc e')
      | inr nonzero ↦ record { positive = past; units = cc (rw (past, nonzero) at e) }
    ]
  ]

  sized_at :
      (venue : String) (usd q : fl.F) (o : Option fl.F)
      → o >>= (λ price. quantity_at r venue usd price) ≡ some q
      → (price : fl.F) × ((o ≡ some price) × IsSizedAt fl venue usd price q)
  sized_at venue usd q none e = absurd (cc e)
  sized_at venue usd q (some price) e = (price, (refl, quantity_at-IsSizedAt venue usd price q e))

  -- An order that was sized at the latest tick is not rejected in paper mode: all of it is filled, at
  -- the price that the tick shows for its side, which is positive and divided the dollars into the
  -- quantity; or one of the prices of the tick cannot be read, and the result is an error. The tick is
  -- the same at both times, and the venue is not mt5, where no tick is needed.
  pub simulate-IsFillAt :
      (random12 : String) (order : OrderRequest fl) (fee_bps usd q : fl.F) (s : r.S)
      → (order.venue =ˢ "mt5") ≡ false
      → calc_quantity r order.venue order.symbol order.side usd s ≡ some q
      → ((simulate r random12 order fee_bps s ≡ unfilled order "error" "malformed_tick_data")
          × IsUnreadable fl (r.hash_at (latest_tick order.venue order.symbol) s))
        ⊎ ((price : fl.F) × IsSizedAt fl order.venue usd price q
            × (shown fl order.side (r.hash_at (latest_tick order.venue order.symbol) s)
                ≡ some price)
            × IsFillAt order (some price) (simulate r random12 order fee_bps s))
  unfolding simulate calc_quantity
  simulate-IsFillAt random12 order fee_bps usd q s not_mt5 sized =
      let tick = r.hash_at (latest_tick order.venue order.symbol) s in
      let (price, (found, is_sized)) =
        sized_at order.venue usd q (tick_price r order.side tick) (rw not_mt5 at sized) in
      let says : shown fl order.side tick ≡ some price =
        sym (tick_price_lem order.side tick) ∙ found in
      elim (fill_at-IsFillAt random12 order fee_bps tick price found) [
        | inl unreadable ↦ inl unreadable
        | inr filled ↦ inr (
          price,
          is_sized,
          says,
          record {
            at_price = sym says ∙ filled.at_price;
            whole_order = filled.whole_order;
            is_filled = filled.is_filled;
          },
        )
      ]
