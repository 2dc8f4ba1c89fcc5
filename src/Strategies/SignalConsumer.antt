-- ===== src/Strategies/SignalConsumer.antt =====
-- services/strategy/app/signal_consumer.py: a TradingView signal is given to its strategy. What a strategy
-- does with it is an argument, and so are str.upper and the time since an ISO date.
pub mod Symbols
pub mod Promise
pub mod Reading
pub mod Admission
use Prim.Native.Char.{code}
use Prim.Native.String.{◌++◌, [] as empty, ◌∷◌ as ◌∷ˢ◌}
use messiah_fx_prod.Prelude.{
  ℕ, String, Bool, true, false, not, ◌||◌, ◌==◌, Option, none, some, List, [], ◌∷◌, ◌=ˢ◌,
  if◌then◌else◌,
}
use messiah_fx_prod.Prelude.Int.{ℤ}
use messiah_fx_prod.Prelude.Text.{strip, lower}
use messiah_fx_prod.Prelude.Dict.{Dict, contains, lookup}
use messiah_fx_prod.Numbers.{Floats}
use messiah_fx_prod.Payload.{Payload, Value, null, text, object, no_fields, get, get_or, truthy}
use messiah_fx_prod.RedisKeys
use messiah_fx_prod.StreamNames
use messiah_fx_prod.Redis.{Redis, World, Exec, pure, reads, or_raise, send, xack, ◌>>=◌, ◌>>◌}
use messiah_fx_prod.Strategies.Base.{is_text, is_halted, get_strategy_state, is_on_cooldown}

abbrev pub known_strategies : List String
known_strategies =
    "funding_arb" ∷ "stat_arb" ∷ "swing" ∷ "breakout" ∷ "mean_reversion_scalp" ∷ "momentum" ∷ []

unfoldable pub has_separator : String → Bool
has_separator empty = false
has_separator (c ∷ˢ s) =
    let rest = has_separator s in if code c == 47 || code c == 95 then true else rest

abbrev cons_some : String → Option String → Option String
cons_some c none = none
cons_some c (some s) = some (c ++ s)

-- What stands before the quote at the end of a symbol, if anything does.
unfoldable pub before_quote : String → String → Option String
before_quote quote empty = none
before_quote quote (c ∷ˢ s) =
    let rest = before_quote quote s in
    if s =ˢ quote then some (c ∷ˢ empty) else cons_some (c ∷ˢ empty) rest

abbrev pub joined : String → String → String → Option String → String
joined separator quote rest none = rest
joined separator quote rest (some base) = base ++ separator ++ quote

abbrev pub split_quote : String → List String → String → String
split_quote separator [] sym = sym
split_quote separator (quote ∷ quotes) sym =
    joined separator quote (split_quote separator quotes sym) (before_quote quote sym)

abbrev pub oanda_quotes : List String
oanda_quotes = "USD" ∷ "EUR" ∷ "GBP" ∷ "JPY" ∷ "CHF" ∷ "AUD" ∷ "CAD" ∷ "NZD" ∷ []

abbrev pub crypto_quotes : List String
crypto_quotes = "USDT" ∷ "USDC" ∷ "BUSD" ∷ "BTC" ∷ "ETH" ∷ "BNB" ∷ "USD" ∷ []

-- From the symbol in upper case without blanks around it.
unfoldable pub split_symbol : String → String → String
split_symbol sym venue =
    if has_separator sym
    then sym
    else if venue =ˢ "oanda"
    then split_quote "_" oanda_quotes sym
    else split_quote "/" crypto_quotes sym

-- What the consumer calls: `s.upper()`, the seconds since an ISO date (none for a ValueError or a
-- TypeError), and TV_SIGNAL_MAX_AGE_SECONDS.
pub record Context (fl : Floats) : Type 0 where
  pub upper : String → String
  pub age : String → Option fl.F
  pub tv_signal_max_age_seconds : ℤ

pub record Signal (fl : Floats) : Type 0 where
  pub strategy_type : String
  pub venue : String
  pub tv_symbol : Value fl
  pub action : String
  pub price : Value fl
  pub note : Value fl

-- The run_from_signal of each strategy: the symbol and the action, the venue where it takes one, the
-- state, the price, and the note where it takes one.
pub record Strategies {fl : Floats} (r : Redis fl) : Type 0 where
  pub funding_arb : String → String → Dict String → Value fl → Exec r Bool
  pub stat_arb : String → String → Dict String → Value fl → Exec r Bool
  pub swing : String → String → String → Dict String → Value fl → Value fl → Exec r Bool
  pub breakout : String → String → String → Dict String → Value fl → Value fl → Exec r Bool
  pub mean_reversion : String → String → String → Dict String → Value fl → Value fl → Exec r Bool
  pub momentum : String → String → String → Dict String → Value fl → Value fl → Exec r Bool

module _ {fl : Floats} where
  -- `none` is an AttributeError
  abbrev pub normalise_symbol : Context fl → Value fl → String → Option String
  normalise_symbol ctx (text tv_symbol) venue =
      some (split_symbol (ctx.upper (strip tv_symbol)) venue)
  normalise_symbol ctx _ venue = none

  -- `v.lower()`, `none` for an AttributeError
  abbrev pub lower_value : Value fl → Option String
  lower_value (text s) = some (lower s)
  lower_value _ = none

  abbrev pub signal_of :
      Option String → Option String → Option String → Payload fl → Option (Signal fl)
  signal_of (some strategy_type) (some venue) (some action) content = some (record {
    strategy_type = strategy_type;
    venue = venue;
    tv_symbol = get_or "symbol" (text "") content;
    action = action;
    price = get_or "price" null content;
    note = get_or "note" null content;
  })
  signal_of _ _ _ content = none

  unfoldable pub read_signal : Payload fl → Option (Signal fl)
  read_signal content =
      signal_of (lower_value (get_or "strategy" (text "") content))
        (lower_value (get_or "venue" (text "binance") content))
        (lower_value (get_or "action" (text "alert") content)) content

  abbrev pub too_old : Context fl → Option fl.F → Bool
  too_old ctx none = false
  too_old ctx (some age) = fl.lt (fl.of_int ctx.tv_signal_max_age_seconds) age

  -- `none` is an AttributeError of `received_at.replace`
  abbrev pub is_stale : Context fl → Value fl → Option Bool
  is_stale ctx (text received_at) =
      some
        (if truthy {fl = fl} (text received_at) then too_old ctx (ctx.age received_at) else false)
  is_stale ctx received_at = if truthy received_at then none else some false

  -- The early returns between the staleness check and the symbol.
  unfoldable pub is_refused : (r : Redis fl) → String → r.S → Bool
  is_refused r strategy_type s =
      if is_halted r s
      then true
      else if not (contains strategy_type known_strategies)
      then true
      else if not (is_text "1" (lookup "enabled" (get_strategy_state r strategy_type s)))
      then true
      else is_on_cooldown r strategy_type s

  module _ {r : Redis fl} where
    unfoldable pub run_strategy : Strategies r → Signal fl → String → Dict String → Exec r Bool
    run_strategy to x symbol state =
        if x.strategy_type =ˢ "funding_arb"
        then to.funding_arb symbol x.action state x.price
        else if x.strategy_type =ˢ "stat_arb"
        then to.stat_arb symbol x.action state x.price
        else if x.strategy_type =ˢ "swing"
        then to.swing symbol x.action x.venue state x.price x.note
        else if x.strategy_type =ˢ "breakout"
        then to.breakout symbol x.action x.venue state x.price x.note
        else if x.strategy_type =ˢ "mean_reversion_scalp"
        then to.mean_reversion symbol x.action x.venue state x.price x.note
        else if x.strategy_type =ˢ "momentum"
        then to.momentum symbol x.action x.venue state x.price x.note
        else pure false

    -- The try block around the strategy: True if it returns, False if it raises.
    abbrev pub returned : Option Bool × World r → Option Bool × World r
    returned (none, w) = (some false, w)
    returned (some published, w) = (some true, w)

    module _ (ctx : Context fl) (to : Strategies r) where
      abbrev pub launch_as : Signal fl → Option String → Exec r Bool
      launch_as x none w = (none, w)
      launch_as x (some symbol) w =
          returned (run_strategy to x symbol (get_strategy_state r x.strategy_type w.server) w)

      unfoldable pub launch : Signal fl → Exec r Bool
      launch x = launch_as x (normalise_symbol ctx x.tv_symbol x.venue)

      abbrev pub dispatch_fresh : Signal fl → Bool → Exec r Bool
      dispatch_fresh x true w = (some true, w)
      dispatch_fresh x false w =
          let outcome = launch x w in
          if is_refused r x.strategy_type w.server then (some true, w) else outcome

      abbrev pub dispatch_data : Payload fl → Exec r Bool
      dispatch_data content = do
        x ← or_raise (read_signal content)
        stale ← or_raise (is_stale ctx (get_or "received_at" (text "") content))
        dispatch_fresh x stale

      -- A text is JSON that does not parse.
      abbrev pub dispatch_loaded : Option (Value fl) → Exec r Bool
      dispatch_loaded none w = dispatch_data no_fields w
      dispatch_loaded (some (text _)) w = (some true, w)
      dispatch_loaded (some (object content)) w = dispatch_data content w
      dispatch_loaded (some _) w = (none, w)

      unfoldable pub dispatch : Payload fl → Exec r Bool
      dispatch fields = dispatch_loaded (get StreamNames.payload fields)

    -- Only what was dispatched is acknowledged; the rest stays pending.
    abbrev pub acknowledge : String → String → Option Bool × World r → Option {0} Unit × World r
    acknowledge group msg_id (some true, w) = send (xack RedisKeys.signals_tv group msg_id) w
    acknowledge group msg_id (_, w) = (some tt, w)

    -- One entry of the stream, with the exceptions logged.
    unfoldable pub handle : Context fl → Strategies r → String → String → Payload fl → Exec r Unit
    handle ctx to group msg_id fields w = acknowledge group msg_id (dispatch ctx to fields w)
