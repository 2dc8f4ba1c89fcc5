-- ===== src/Executor/Orders.antt =====
-- services/executor/app/adapters/__init__.py: an order and its result, without the raw response.
use messiah_fx_prod.Prelude.{String, Bool, Option}
use messiah_fx_prod.Numbers.{Floats}

pub record OrderRequest (fl : Floats) : Type 0 where
  pub client_order_id : String
  pub venue : String
  pub symbol : String
  pub side : String
  pub order_type : String
  pub quantity : fl.F
  pub strategy_type : String
  pub opportunity_id : Option String
  pub paper_mode : Bool

pub record OrderResult (fl : Floats) : Type 0 where
  pub client_order_id : String
  pub exchange_order_id : Option String
  pub status : String
  pub filled_qty : fl.F
  pub average_fill_price : fl.F
  pub fee : fl.F
  pub fee_currency : String
  pub slippage_bps : fl.F
  pub rejection_reason : Option String
