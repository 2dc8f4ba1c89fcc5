-- ===== src/Executor/Plan.antt =====
-- services/executor/app/consumer.py: the order plan of an opportunity. `none` is an exception.
pub mod Legs
use messiah_fx_prod.Prelude.{
  String, Bool, true, false, not, Option, none, some, List, [], ◌∷◌, ◌>>=◌, if◌then◌else◌,
}
use messiah_fx_prod.Prelude.Dict.{Dict, contains, lookup}
use messiah_fx_prod.Prelude.Text.{strip, lower}
use messiah_fx_prod.Numbers.{Floats}
use messiah_fx_prod.Payload.{
  Payload, Value, null, flag, num, text, array, object, no_fields, get_or, truthy,
}

-- Which symbol of the opportunity a leg trades.
pub data LegName : Type 0 where
  primary : LegName
  secondary : LegName

abbrev pub leg_directions : Dict (List (LegName × String))
leg_directions =
    ("funding_arb", (primary, "buy") ∷ (secondary, "sell") ∷ [])
    ∷ ("stat_arb", (primary, "sell") ∷ (secondary, "buy") ∷ [])
    ∷ []

abbrev pub single_leg_strategies : List String
single_leg_strategies = "swing" ∷ "breakout" ∷ "momentum" ∷ "mean_reversion_scalp" ∷ []

abbrev pub buy_tokens : List String
buy_tokens = "buy" ∷ "long" ∷ []

abbrev pub sell_tokens : List String
sell_tokens = "sell" ∷ "short" ∷ []

pub record Leg (fl : Floats) : Type 0 where
  pub venue : Value fl
  pub symbol : Value fl
  pub side : String

-- The side that a direction token stands for.
unfoldable pub side_of : String → Option String
side_of token =
    if contains token buy_tokens
    then some "buy"
    else if contains token sell_tokens
    then some "sell"
    else none

-- `first`, or `second` where it is none
abbrev pub or_else : Option String → Option String → Option String
or_else none second = second
or_else (some side) second = some side

abbrev pub symbol_of {ℓ} : {A : Type ℓ} → LegName → A → A → A
symbol_of primary symbol_primary symbol_secondary = symbol_primary
symbol_of secondary symbol_primary symbol_secondary = symbol_secondary

module _ {fl : Floats} where
  -- `str(v)`; of a list and of a dict only the bracket that it begins with.
  abbrev pub str : Value fl → String
  str null = "None"
  str (flag b) = if b then "True" else "False"
  str (num x) = fl.show x
  str (text s) = s
  str (array _) = "["
  str (object _) = "{"

  unfoldable pub resolve_side : Payload fl → Option String
  resolve_side raw_signal =
      let first = side_of (lower (strip (str (get_or "tv_action" (text "") raw_signal)))) in
      let second = side_of (lower (strip (str (get_or "direction" (text "") raw_signal)))) in
      or_else first second

  -- A value as the key of a set or a dict: a list or a dict is not hashable, and a value of another
  -- kind than a text is in none of them, like the empty text.
  abbrev pub as_key : Value fl → Option String
  as_key (text s) = some s
  as_key (array _) = none
  as_key (object _) = none
  as_key _ = some ""

  -- `payload.get("raw_signal") or {}`, on which `.get` is called
  abbrev pub as_signal : Value fl → Option (Payload fl)
  as_signal (object d) = some d
  as_signal v = if truthy v then none else some no_fields

  -- The legs of a spread, none if a symbol is missing.
  abbrev pub build_legs :
      Value fl → Value fl → Value fl → List (LegName × String) → Option (List (Leg fl))
  build_legs venue symbol_primary symbol_secondary [] = some []
  build_legs venue symbol_primary symbol_secondary ((name, side) ∷ spec) =
      let rest = build_legs venue symbol_primary symbol_secondary spec in
      let symbol = symbol_of name symbol_primary symbol_secondary in
      if truthy symbol
      then (do legs ← rest; some (record { venue = venue; symbol = symbol; side = side } ∷ legs))
      else none

  abbrev pub legs_or_none : Option (List (Leg fl)) → List (Leg fl)
  legs_or_none none = []
  legs_or_none (some legs) = legs

  abbrev pub spread_legs :
      Value fl → Value fl → Value fl → Option (List (LegName × String)) → List (Leg fl)
  spread_legs venue symbol_primary symbol_secondary none = []
  spread_legs venue symbol_primary symbol_secondary (some spec) =
      legs_or_none (build_legs venue symbol_primary symbol_secondary spec)

  abbrev pub single_leg : Value fl → Value fl → Option String → List (Leg fl)
  single_leg venue symbol_primary none = []
  single_leg venue symbol_primary (some side) =
      if truthy symbol_primary
      then record { venue = venue; symbol = symbol_primary; side = side } ∷ []
      else []

  -- One leg, on the side that the signal gives.
  unfoldable pub plan_single : Value fl → Value fl → Payload fl → Option (List (Leg fl))
  plan_single venue symbol_primary payload = do
    raw_signal ← as_signal (get_or "raw_signal" null payload)
    some (single_leg venue symbol_primary (resolve_side raw_signal))

  unfoldable pub build_order_plan : Payload fl → Option (List (Leg fl))
  build_order_plan payload =
      let venue = get_or "venue" (text "binance") payload in
      let symbol_primary = get_or "symbol_primary" (text "") payload in
      let symbol_secondary = get_or "symbol_secondary" null payload in
      let single = plan_single venue symbol_primary payload in
      do
        strategy_type ← as_key (get_or "strategy_type" (text "") payload)
        if contains strategy_type single_leg_strategies
            then single
            else some (
                spread_legs venue symbol_primary symbol_secondary
                  (lookup strategy_type leg_directions))
