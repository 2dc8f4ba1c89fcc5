-- ===== src/Gateway/Signals/Queued.antt =====
-- services/gateway/app/routes/signals.py and services/strategy/app/signal_consumer.py: what becomes of a
-- webhook that was accepted.
use messiah_fx_prod.Prelude.{
  String, Bool, ◌≡◌, refl, ◌⊎◌, inl, inr, Option, none, some, Option-cases,
}
use messiah_fx_prod.Prelude.Text.{lower}
use messiah_fx_prod.Numbers.{Floats}
use messiah_fx_prod.Payload.{Payload, Value, text, object, no_fields, field}
use messiah_fx_prod.Redis.{Redis, World, send, xadd, xack}
use messiah_fx_prod.Strategies.SignalConsumer.{
  Context, Strategies, Signal, read_signal, dispatch_data, dispatch, handle,
}
use messiah_fx_prod.Strategies.SignalConsumer.Promise.{IsOld, IsBlocked, IsRun}
use messiah_fx_prod.Strategies.SignalConsumer.Admission.{
  dispatch_data-IsDispatched, settled-IsAnswered,
}
use messiah_fx_prod.Gateway.Signals.{
  TradingViewSignal, validate, signal_content, queue_entry, receive_tradingview_signal,
}

-- What the consumer reads of the entry.
abbrev pub read_back : {fl : Floats} → TradingViewSignal fl → Signal fl
read_back signal = record {
  strategy_type = lower signal.strategy;
  venue = lower signal.venue;
  tv_symbol = text signal.symbol;
  action = lower signal.action;
  price = signal.price;
  note = signal.note;
}

-- The entry that is queued for a signal: its payload is the signal with the time it came.
abbrev pub queued_for : {fl : Floats} → String → TradingViewSignal fl → Payload fl
queued_for received_at signal =
    field "payload"
      (object (
        field "strategy" (text signal.strategy) (
          field "venue" (text signal.venue) (
            field "symbol" (text signal.symbol) (
              field "action" (text signal.action) (
                field "price" signal.price (
                  field "note" signal.note (
                    field "source" (text "tradingview")
                      (field "received_at" (text received_at) no_fields)))))))))
      (field "source" (text "tradingview") no_fields)

module _ {fl : Floats} {r : Redis fl} (ctx : Context fl) (to : Strategies r) (received_at : String)
    (signal : TradingViewSignal fl) (group msg_id : String) (w : World r) where
  -- The entry is acknowledged with nothing else sent, for it is too old or its strategy is blocked; or
  -- the strategy of its name was called once with what the webhook said, and it is acknowledged where
  -- that returned and stays pending where that raised.
  abbrev pub IsFollowed : Option {0} Unit × World r → Type 0
  IsFollowed out =
      ((out ≡ send (xack "signals:tradingview" group msg_id) w)
        × (IsOld ctx (text received_at) ⊎ IsBlocked r (lower signal.strategy) w.server))
      ⊎ IsRun ctx to (send (xack "signals:tradingview" group msg_id)) (λ v. (some tt, v))
          (read_back signal) (text received_at) w out

  queue_entry-IsFollowed :
      IsFollowed (handle ctx to group msg_id (queue_entry received_at signal) w)
  unfolding handle dispatch read_signal
  queue_entry-IsFollowed =
      let content = signal_content received_at signal in
      let out : Option Bool × World r = dispatch_data ctx to content w in
      let settled =
        settled-IsAnswered ctx to group msg_id (read_back signal) (text received_at) w out
          (dispatch_data-IsDispatched ctx to content (read_back signal) w refl) in
      elim settled [
        | inl (raised, inl no_symbol) ↦ absurd (no_symbol signal.symbol refl)
        | inl (raised, inr no_date) ↦ absurd (no_date.0 received_at refl)
        | inr rest ↦ rest
      ]

-- What was sent is one entry of signals:tradingview with the signal, which the strategy consumer follows,
-- in whatever state it finds the server.
pub record IsQueued {fl : Floats} {r : Redis fl} (ctx : Context fl) (to : Strategies r)
    (received_at group msg_id : String) (validated : Option (TradingViewSignal fl))
    (w later : World r) (out : Option Unit × World r) : Type 0 where
  pub signal : TradingViewSignal fl
  pub is_signal : validated ≡ some signal
  pub sends : out ≡ send (xadd "signals:tradingview" (queued_for received_at signal)) w
  pub follows :
      IsFollowed ctx to received_at signal group msg_id later
        (handle ctx to group msg_id (queued_for received_at signal) later)

-- A webhook either fails its validation, and then nothing is sent, or it is queued once. The strategy
-- consumer then acknowledges the entry with nothing else sent, since it is too old by then or its
-- strategy is blocked, or calls the strategy of its name once with what the webhook said, whatever the
-- state of the server is: it acknowledges the entry after the strategy returned, whatever it answered,
-- and leaves it pending only where the strategy raised.
pub receive_tradingview_signal-IsQueued :
    {fl : Floats} {r : Redis fl} (ctx : Context fl) (to : Strategies r)
    (read_float : Value fl → Option (Value fl)) (received_at group msg_id : String)
    (payload : Payload fl) (w later : World r)
    → (receive_tradingview_signal read_float received_at payload w ≡ (none, w))
      ⊎ IsQueued ctx to received_at group msg_id
          (validate read_float payload)
          w
          later
          (receive_tradingview_signal read_float received_at payload w)
unfolding receive_tradingview_signal
receive_tradingview_signal-IsQueued ctx to read_float received_at group msg_id payload w later =
    elim (Option-cases (validate read_float payload)) [
      | inl invalid ↦ inl (rw invalid refl)
      | inr (signal, valid) ↦ inr (record {
        signal = signal;
        is_signal = valid;
        sends = rw valid refl;
        follows = queue_entry-IsFollowed ctx to received_at signal group msg_id later;
      })
    ]
