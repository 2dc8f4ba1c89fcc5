-- ===== src/Strategies/SignalConsumer/Promise.antt =====
-- services/strategy/app/signal_consumer.py: what is asked of one entry of signals:tradingview, written
-- out without the functions of the consumer.
use messiah_fx_prod.Prelude.{String, Bool, true, false, ◌≡◌, ◌≢◌, ◌⊎◌, Option, none, some}
use messiah_fx_prod.Prelude.Text.{lower, strip}
use messiah_fx_prod.Prelude.Dict.{contains, lookup, Dict}
use messiah_fx_prod.Numbers.{Floats}
use messiah_fx_prod.Payload.{Payload, Value, null, text, object, no_fields, get, get_or, truthy}
use messiah_fx_prod.Redis.{Redis, World, Exec}
use messiah_fx_prod.Strategies.Base.{is_text, is_halted, get_strategy_state, is_on_cooldown}
use messiah_fx_prod.Strategies.SignalConsumer.{Context, Signal, Strategies, known_strategies}
use messiah_fx_prod.Strategies.SignalConsumer.Symbols.{IsNormal}

module _ {fl : Floats} where
  abbrev pub IsNoText : Value fl → Type 0
  IsNoText v = (s : String) → v ≢ text s

  -- The content of an entry, which is empty without a payload.
  abbrev pub HasContent : Payload fl → Payload fl → Type 0
  HasContent fields content =
      (get "payload" fields ≡ some (object content))
      ⊎ ((get "payload" fields ≡ none) × (content ≡ no_fields))

  -- The signal is what the content says, its names in lower case.
  pub record IsRead (content : Payload fl) (x : Signal fl) : Type 0 where
    pub strategy : String
    pub venue : String
    pub action : String
    pub has_strategy : get_or "strategy" (text "") content ≡ text strategy
    pub has_venue : get_or "venue" (text "binance") content ≡ text venue
    pub has_action : get_or "action" (text "alert") content ≡ text action
    pub says : x ≡ record {
      strategy_type = lower strategy;
      venue = lower venue;
      tv_symbol = get_or "symbol" (text "") content;
      action = lower action;
      price = get_or "price" null content;
      note = get_or "note" null content;
    }

  -- The strategy, the venue or the action is no text.
  abbrev pub IsNameless : Payload fl → Type 0
  IsNameless content =
      IsNoText (get_or "strategy" (text "") content)
      ⊎ IsNoText (get_or "venue" (text "binance") content)
      ⊎ IsNoText (get_or "action" (text "alert") content)

  -- A date that is neither empty nor a text
  abbrev pub IsNoDate : Value fl → Type 0
  IsNoDate received = IsNoText received × (truthy received ≡ true)

  -- The signal is older than the greatest age.
  abbrev pub IsOld : Context fl → Value fl → Type 0
  IsOld ctx received =
      (s : String) × (received ≡ text s)
      × (truthy received ≡ true)
      × (age : fl.F) × (ctx.age s ≡ some age)
      × (fl.lt (fl.of_int ctx.tv_signal_max_age_seconds) age ≡ true)

  -- There is no date, or none that can be read, or it is not older than the greatest age.
  abbrev pub IsFresh : Context fl → Value fl → Type 0
  IsFresh ctx received =
      (truthy received ≡ false)
      ⊎ ((s : String) × (received ≡ text s)
          × ((ctx.age s ≡ none)
              ⊎ ((age : fl.F) × (ctx.age s ≡ some age)
                  × (fl.lt (fl.of_int ctx.tv_signal_max_age_seconds) age ≡ false))))

  -- The symbol of the signal, in upper case and without blanks around it, with its separator.
  abbrev pub IsSymbol : Context fl → Signal fl → String → Type 0
  IsSymbol ctx x symbol =
      (s : String) × (x.tv_symbol ≡ text s) × IsNormal (ctx.upper (strip s)) x.venue symbol

module _ {fl : Floats} (r : Redis fl) where
  -- What a strategy needs to be given a signal.
  pub record IsAdmitted (strategy_type : String) (s : r.S) : Type 0 where
    pub running : is_halted r s ≡ false
    pub known : contains strategy_type known_strategies ≡ true
    pub enabled : is_text "1" (lookup "enabled" (get_strategy_state r strategy_type s)) ≡ true
    pub no_cooldown : is_on_cooldown r strategy_type s ≡ false

  -- Why a strategy is not given a signal.
  abbrev pub IsBlocked : String → r.S → Type 0
  IsBlocked strategy_type s =
      (is_halted r s ≡ true)
      ⊎ (contains strategy_type known_strategies ≡ false)
      ⊎ (is_text "1" (lookup "enabled" (get_strategy_state r strategy_type s)) ≡ false)
      ⊎ (is_on_cooldown r strategy_type s ≡ true)

module _ {fl : Floats} {r : Redis fl} where
  -- The call is that of the strategy with the name of the signal.
  abbrev pub IsCall : Strategies r → Signal fl → String → Dict String → Exec r Bool → Type 0
  IsCall to x symbol state call =
      ((x.strategy_type ≡ "funding_arb") × (call ≡ to.funding_arb symbol x.action state x.price))
      ⊎ ((x.strategy_type ≡ "stat_arb") × (call ≡ to.stat_arb symbol x.action state x.price))
      ⊎ ((x.strategy_type ≡ "swing")
          × (call ≡ to.swing symbol x.action x.venue state x.price x.note))
      ⊎ ((x.strategy_type ≡ "breakout")
          × (call ≡ to.breakout symbol x.action x.venue state x.price x.note))
      ⊎ ((x.strategy_type ≡ "mean_reversion_scalp")
          × (call ≡ to.mean_reversion symbol x.action x.venue state x.price x.note))
      ⊎ ((x.strategy_type ≡ "momentum")
          × (call ≡ to.momentum symbol x.action x.venue state x.price x.note))

  module _ (ctx : Context fl) (to : Strategies r) {A : Type 0}
      (done kept : World r → Option A × World r) where
    -- The strategy was called once: it is done where that returned, whatever it answered, and kept
    -- where that raised.
    pub record IsRun (x : Signal fl) (received : Value fl) (w : World r) (out : Option A × World r)
        : Type 0 where
      pub symbol : String
      pub call : Exec r Bool
      pub fresh : IsFresh ctx received
      pub admitted : IsAdmitted r x.strategy_type w.server
      pub is_symbol : IsSymbol ctx x symbol
      pub is_call : IsCall to x symbol (get_strategy_state r x.strategy_type w.server) call
      pub ends :
          ((answer : Bool) × ((call w).0 ≡ some answer) × (out ≡ done (call w).1))
          ⊎ (((call w).0 ≡ none) × (out ≡ kept (call w).1))

    -- A signal with a symbol or a date that is no text is kept, an old or blocked one is done with
    -- nothing sent, and any other is run.
    abbrev pub IsSettled :
        (World r → Option A × World r)
        → Signal fl
        → Value fl
        → World r
        → Option A × World r
        → Type 0
    IsSettled raised x received w out =
        ((out ≡ raised w) × (IsNoText x.tv_symbol ⊎ IsNoDate received))
        ⊎ ((out ≡ done w) × (IsOld ctx received ⊎ IsBlocked r x.strategy_type w.server))
        ⊎ IsRun x received w out

module _ {fl : Floats} where
  -- The payload is JSON of another kind than a dict, or one that names no strategy, venue or action.
  abbrev pub IsUnusable : Payload fl → Type 0
  IsUnusable fields =
      ((v : Value fl) × (get "payload" fields ≡ some v)
        × IsNoText v
        × ((content : Payload fl) → v ≢ object content))
      ⊎ ((content : Payload fl) × HasContent fields content × IsNameless content)

  -- The payload is no JSON.
  abbrev pub IsBroken : Payload fl → Type 0
  IsBroken fields = (s : String) × (get "payload" fields ≡ some (text s))

module _ {fl : Floats} {r : Redis fl} (ctx : Context fl) (to : Strategies r) {A : Type 0}
    (done kept : World r → Option A × World r) where
  -- An entry that cannot be used is left as `raised` leaves it, one that is broken is done with, and the
  -- signal of any other is settled.
  abbrev pub IsHandled :
      (World r → Option A × World r) → Payload fl → World r → Option A × World r → Type 0
  IsHandled raised fields w out =
      ((out ≡ raised w) × IsUnusable fields)
      ⊎ ((out ≡ done w) × IsBroken fields)
      ⊎ ((content : Payload fl) × (x : Signal fl) × HasContent fields content
          × IsRead content x
          × IsSettled ctx to done kept raised x (get_or "received_at" (text "") content) w out)
