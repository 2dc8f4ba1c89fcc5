-- ===== src/Executor/Books.antt =====
-- services/executor/app/db.py: the tables of trades and positions, and the persistence of a fill. A
-- transaction that raises is rolled back. The clock is an argument. The columns of a trade that are
-- copied from the order and the result are these two records.
pub mod Once
pub mod Soundness
use messiah_fx_prod.Prelude.{
  String, Bool, true, false, not, ◌&&◌, ◌||◌, Option, none, some, List, [], ◌∷◌, ◌=ˢ◌, ◌==◌,
  if◌then◌else◌,
}
use messiah_fx_prod.Prelude.Dict.{Dict, lookup, insert}
use messiah_fx_prod.Numbers.{Floats, num_zero, or_zero}
use messiah_fx_prod.Ledger.Pnl.{PositionState, FillOutcome, flat, apply_fill}
use messiah_fx_prod.Executor.Orders.{OrderRequest, OrderResult}

pub record Trade (fl : Floats) : Type 0 where
  pub order : OrderRequest fl
  pub result : OrderResult fl
  pub realized_pnl : Option fl.F
  pub realized_pnl_currency : Option String
  pub opened_at : String
  pub filled_at : Option String
  pub closed_at : Option String

pub record Position (fl : Floats) : Type 0 where
  pub venue : String
  pub symbol : String
  pub strategy_type : String
  pub paper_mode : Bool
  pub net_qty : fl.F
  pub avg_price : fl.F
  pub open_fees : fl.F
  pub realized_pnl : fl.F
  pub fee_currency : String
  pub status : String
  pub opened_at : Option String
  pub closed_at : Option String

-- The trades by their client_order_id, which is unique.
pub record Books (fl : Floats) : Type 0 where
  pub trades : Dict (Trade fl)
  pub positions : List (Position fl)

-- What is booked before a fill.
pub record Prior (fl : Floats) : Type 0 where
  pub current : PositionState fl
  pub prior_realized : fl.F
  pub prior_flat : Bool
  pub prior_opened_at : Option String
  pub prior_closed_at : Option String

abbrev pub pos_eps : (fl : Floats) → fl.F
pos_eps fl = fl.lit 1 9

abbrev same_flag : Bool → Bool → Bool
same_flag true b = b
same_flag false b = not b

module _ {fl : Floats} where
  open fl use {F, lit, lt, le, add, abs, round}

  -- The constraint uq_positions_key.
  abbrev pub has_key : String → String → String → Bool → Position fl → Bool
  has_key venue symbol strategy_type paper_mode row =
      venue =ˢ row.venue
      && symbol =ˢ row.symbol
      && strategy_type =ˢ row.strategy_type
      && same_flag paper_mode row.paper_mode

  abbrev pub find_position :
      String → String → String → Bool → List (Position fl) → Option (Position fl)
  find_position v s t m [] = none
  find_position v s t m (row ∷ rows) =
      if has_key v s t m row then some row else find_position v s t m rows

  abbrev pub upsert_position : Position fl → List (Position fl) → List (Position fl)
  upsert_position new [] = new ∷ []
  upsert_position new (row ∷ rows) =
      if has_key new.venue new.symbol new.strategy_type new.paper_mode row
      then new ∷ rows
      else row ∷ upsert_position new rows

  abbrev pub is_fill : OrderResult fl → Bool
  is_fill result =
      result.status =ˢ "filled"
      && lt (num_zero fl) result.filled_qty
      && lt (num_zero fl) result.average_fill_price

  abbrev pub strategy_of : OrderRequest fl → String
  strategy_of order = if order.strategy_type =ˢ "" then "unknown" else order.strategy_type

  abbrev pub prior_of : Option (Position fl) → Prior fl
  prior_of none = record {
    current = flat fl;
    prior_realized = num_zero fl;
    prior_flat = true;
    prior_opened_at = none;
    prior_closed_at = none;
  }
  prior_of (some row) = record {
    current = record {
      net_qty = row.net_qty;
      avg_price = row.avg_price;
      open_fees = row.open_fees;
    };
    prior_realized = or_zero fl row.realized_pnl;
    prior_flat = not (row.status =ˢ "open") || le (abs row.net_qty) (pos_eps fl);
    prior_opened_at = row.opened_at;
    prior_closed_at = row.closed_at;
  }

  abbrev pub prior_in : OrderRequest fl → Books fl → Prior fl
  prior_in order books =
      prior_of (
        find_position order.venue order.symbol (strategy_of order) order.paper_mode books.positions)

  abbrev pub is_open : FillOutcome fl → Bool
  is_open outcome = lt (pos_eps fl) (abs outcome.position.net_qty)

  -- The row after the fill.
  abbrev pub position_after :
      String → OrderRequest fl → OrderResult fl → Prior fl → FillOutcome fl → Position fl
  position_after now order result prior outcome =
      let now_open = is_open outcome in
      record {
        venue = order.venue;
        symbol = order.symbol;
        strategy_type = strategy_of order;
        paper_mode = order.paper_mode;
        net_qty = round outcome.position.net_qty 8;
        avg_price = round outcome.position.avg_price 8;
        open_fees = round outcome.position.open_fees 8;
        realized_pnl = round (add prior.prior_realized outcome.realized_pnl) 8;
        fee_currency = result.fee_currency;
        status = if now_open then "open" else "flat";
        opened_at =
            if now_open
            then (if prior.prior_flat then some now else prior.prior_opened_at)
            else prior.prior_opened_at;
        closed_at =
            if now_open
            then prior.prior_closed_at
            else if not prior.prior_flat
            then some now
            else prior.prior_closed_at;
      }

  -- The insert, which does nothing on a client_order_id that is there, and with it the position.
  abbrev pub insert_unless :
      Option (Trade fl) → Trade fl → List (Position fl) → Books fl → Option (Option F) × Books fl
  insert_unless (some prior) trade positions books = (some none, books)
  insert_unless none trade positions books = (
    some trade.realized_pnl,
    record {
      trades = insert trade.result.client_order_id trade books.trades;
      positions = positions;
    },
  )

  abbrev pub insert_trade : Trade fl → List (Position fl) → Books fl → Option (Option F) × Books fl
  insert_trade trade positions books =
      insert_unless (lookup trade.result.client_order_id books.trades) trade positions books

  abbrev pub book_fill :
      String
      → OrderRequest fl
      → OrderResult fl
      → Prior fl
      → Option (FillOutcome fl)
      → Books fl
      → Option (Option F) × Books fl
  book_fill now order result prior none books = (none, books)
  book_fill now order result prior (some outcome) books =
      insert_trade
        (record {
          order = order;
          result = result;
          realized_pnl = some (round outcome.realized_pnl 8);
          realized_pnl_currency = some result.fee_currency;
          opened_at = now;
          filled_at = some now;
          closed_at = if outcome.closed && not (is_open outcome) then some now else none;
        })
        (upsert_position (position_after now order result prior outcome) books.positions) books

  -- It answers the realised result of a new fill, and nothing for another result or a duplicate.
  unfoldable pub persist_trade :
      String → OrderRequest fl → OrderResult fl → Books fl → Option (Option F) × Books fl
  persist_trade now order result books =
      if is_fill result
      then (let prior = prior_in order books in
          book_fill now order result prior
            (apply_fill fl prior.current order.side result.filled_qty result.average_fill_price
              (or_zero fl result.fee))
            books)
      else insert_trade
          (record {
            order = order;
            result = result;
            realized_pnl = none;
            realized_pnl_currency = none;
            opened_at = now;
            filled_at = if result.status =ˢ "filled" then some now else none;
            closed_at = none;
          })
          books.positions books
