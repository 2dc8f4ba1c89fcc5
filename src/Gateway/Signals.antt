-- ===== src/Gateway/Signals.antt =====
-- services/gateway/app/routes/signals.py and the schema TradingViewSignal of
-- shared/mezna_shared/schemas/opportunity.py: a webhook is validated and queued. How pydantic reads a
-- float is an argument.
pub mod Queued
use messiah_fx_prod.Prelude.{
  String, Bool, true, false, Option, none, some, [], ◌∷◌, ◌>>=◌, if◌then◌else◌,
}
use messiah_fx_prod.Prelude.Dict.{contains}
use messiah_fx_prod.Numbers.{Floats}
use messiah_fx_prod.Payload.{Payload, Value, null, text, object, no_fields, field, get, get_or}
use messiah_fx_prod.RedisKeys
use messiah_fx_prod.StreamNames
use messiah_fx_prod.Redis.{Redis, Exec, send, xadd}
use messiah_fx_prod.AiFilter.Prompt.{as_str}

pub record TradingViewSignal (fl : Floats) : Type 0 where
  pub strategy : String
  pub venue : String
  pub symbol : String
  pub action : String
  -- a number or null
  pub price : Value fl
  -- a text or null
  pub note : Value fl

abbrev pub action_field : Option String → Option String
action_field none = none
action_field (some action) =
    if contains action ("buy" ∷ "sell" ∷ "close" ∷ "alert" ∷ []) then some action else none

module _ {fl : Floats} where
  -- A required text
  abbrev pub str_field : String → Payload fl → Option String
  str_field key payload = elim (get key payload) [ none ↦ none | some v ↦ as_str v ]

  abbrev pub optional_str : Value fl → Option (Value fl)
  optional_str null = some null
  optional_str (text s) = some (text s)
  optional_str _ = none

  abbrev pub optional_float : (Value fl → Option (Value fl)) → Value fl → Option (Value fl)
  optional_float read_float null = some null
  optional_float read_float v = read_float v

  -- The class takes raw from the route, so a payload with this key is a TypeError.
  abbrev pub raw_free : Option (Value fl) → Option {0} Unit
  raw_free none = some tt
  raw_free (some v) = none

  -- `TradingViewSignal(**payload, raw=payload)`, `none` where it raises
  unfoldable pub validate :
      (Value fl → Option (Value fl)) → Payload fl → Option (TradingViewSignal fl)
  validate read_float payload = do
    alone ← raw_free (get "raw" payload)
    strategy ← str_field "strategy" payload
    venue ← str_field "venue" payload
    symbol ← str_field "symbol" payload
    action ← action_field (str_field "action" payload)
    price ← optional_float read_float (get_or "price" null payload)
    source ← as_str (get_or "source" (text "tradingview") payload)
    note ← optional_str (get_or "note" null payload)
    some (record {
      strategy = strategy;
      venue = venue;
      symbol = symbol;
      action = action;
      price = price;
      note = note;
    })

  abbrev pub signal_content : String → TradingViewSignal fl → Payload fl
  signal_content received_at signal = field "strategy" (text signal.strategy) (
      field "venue" (text signal.venue) (
        field "symbol" (text signal.symbol) (
          field "action" (text signal.action) (
            field "price" signal.price (
              field "note" signal.note (
                field "source" (text "tradingview")
                  (field "received_at" (text received_at) no_fields)))))))

  abbrev pub queue_entry : String → TradingViewSignal fl → Payload fl
  queue_entry received_at signal =
      field StreamNames.payload (object (signal_content received_at signal))
        (field "source" (text "tradingview") no_fields)

  -- `none` is the answer 422.
  abbrev pub queue : {r : Redis fl} → String → Option (TradingViewSignal fl) → Exec r Unit
  queue received_at none w = (none, w)
  queue received_at (some signal) w =
      send (xadd RedisKeys.signals_tv (queue_entry received_at signal)) w

  unfoldable pub receive_tradingview_signal :
      {r : Redis fl} → (Value fl → Option (Value fl)) → String → Payload fl → Exec r Unit
  receive_tradingview_signal read_float received_at payload =
      queue received_at (validate read_float payload)
