-- ===== src/AiFilter/Prompt.antt =====
-- services/ai-filter/app/scorer.py: the prompt, with the news sentiment that is kept in Redis. `none` is
-- an exception.
use Prim.Native.String.{◌++◌, [] as empty, ◌∷◌ as ◌∷ˢ◌}
use mathlib.Core.List
use messiah_fx_prod.Prelude.{
  ℕ, zero, suc, String, Bool, true, false, ◌&&◌, ◌||◌, Option, none, some, List, [], ◌∷◌, ◌=ˢ◌,
  ◌>>=◌, if◌then◌else◌,
}
use messiah_fx_prod.Prelude.Int.{pos}
use messiah_fx_prod.Numbers.{Floats, num_zero, num_one}
use messiah_fx_prod.Payload.{
  Payload, Value, Items, null, flag, num, text, array, object, no_items, item, no_fields, field,
  get_or, truthy,
}
use messiah_fx_prod.AiFilter.{Python, Answer, Score, score_answer, take_chars, str_value}

abbrev pub Client : Floats → Type 0
Client fl = String → Answer fl

abbrev pub is_prefix : String → String → Bool
is_prefix empty s = true
is_prefix (c ∷ˢ t) empty = false
is_prefix (c ∷ˢ t) (d ∷ˢ s) = (c ∷ˢ empty) =ˢ (d ∷ˢ empty) && is_prefix t s

-- `t in s`
abbrev pub occurs : String → String → Bool
occurs t empty = is_prefix t empty
occurs t (c ∷ˢ s) = is_prefix t (c ∷ˢ s) || occurs t s

abbrev pub any_occurs : List String → String → Bool
any_occurs [] s = false
any_occurs (t ∷ ts) s = occurs t s || any_occurs ts s

-- `sep.join(ss)`
abbrev pub join : String → List String → String
join sep [] = ""
join sep (s ∷ []) = s
join sep (s ∷ t ∷ ss) = s ++ sep ++ join sep (t ∷ ss)

abbrev chars : String → List String
chars empty = []
chars (c ∷ˢ s) = (c ∷ˢ empty) ∷ chars s

abbrev pub optional_line : Option String → List String
optional_line none = []
optional_line (some s) = if s =ˢ "" then [] else s ∷ []

abbrev pub sentiment_label : (fl : Floats) → fl.F → String
sentiment_label fl score =
    if fl.le (fl.lit 60 0) score
    then "strongly bullish"
    else if fl.le (fl.lit 20 0) score
    then "mildly bullish"
    else if fl.le (fl.neg (fl.lit 20 0)) score
    then "neutral"
    else if fl.le (fl.neg (fl.lit 60 0)) score
    then "mildly bearish"
    else "strongly bearish"

module _ {fl : Floats} where
  abbrev and_text : Value fl → Option (List String) → Option (List String)
  and_text (text s) (some ss) = some (s ∷ ss)
  and_text _ _ = none

  abbrev texts_of : Items fl → Option (List String)
  texts_of no_items = some []
  texts_of (item v vs) = and_text v (texts_of vs)

  abbrev keys_of : Payload fl → List String
  keys_of no_fields = []
  keys_of (field k v d) = k ∷ keys_of d

  -- What `", ".join(v)` runs over.
  abbrev pub iterated : Value fl → Option (List String)
  iterated (array items) = texts_of items
  iterated (text s) = some (chars s)
  iterated (object d) = some (keys_of d)
  iterated _ = none

  abbrev take_items : ℕ → Items fl → Items fl
  take_items zero vs = no_items
  take_items (suc n) no_items = no_items
  take_items (suc n) (item v vs) = item v (take_items n vs)

  -- `v[:16]`
  abbrev pub cut_16 : Value fl → Option (Value fl)
  cut_16 (text s) = some (text (take_chars 16 s))
  cut_16 (array vs) = some (array (take_items 16 vs))
  cut_16 _ = none

  -- A number, which the code compares, multiplies or formats.
  abbrev pub number : Value fl → Option fl.F
  number (num x) = some x
  number (flag b) = some (if b then num_one fl else num_zero fl)
  number _ = none

  -- `v is not None`
  abbrev pub is_some : Value fl → Bool
  is_some null = false
  is_some v = true

  abbrev pub as_dict : Value fl → Option (Payload fl)
  as_dict (object d) = some d
  as_dict _ = none

  -- A text, for a call of `upper`.
  abbrev pub as_str : Value fl → Option String
  as_str (text s) = some s
  as_str _ = none

  abbrev pub is_fx : Value fl → String → Bool
  is_fx venue symbol =
      elim venue [ text s ↦ s =ˢ "oanda" | _ ↦ false ]
      || occurs "_" symbol
      || any_occurs ("EUR" ∷ "GBP" ∷ "JPY" ∷ "CHF" ∷ "AUD" ∷ "CAD" ∷ "NZD" ∷ []) symbol

  -- A line that is there only for a value, in which formatting may raise.
  abbrev pub line_if : Value fl → Option String → Option (List String)
  line_if v line = if is_some v then (line >>= λ s. some (s ∷ [])) else some []

module _ {fl : Floats} (py : Python fl) where
  open fl use {lit, mul, fixed}

  -- The snippet of a dict that was cached.
  abbrev pub sentiment_snippet : String → Payload fl → Option String
  sentiment_snippet asset_class d = do
    let summary = str_value py (get_or "summary" (text "") d)
    let urgency = str_value py (get_or "urgency" (text "low") d)
    themes ← iterated (get_or "key_themes" (array no_items) d)
    updated ← cut_16 (get_or "updated_at" (text "") d)
    score ← number (get_or "score" (num (fl.of_int (pos 0))) d)
    shown ← py.signed score
    some (
        "\n[News Sentiment — "
        ++ py.upper asset_class
        ++ " as of "
        ++ str_value py updated
        ++ " UTC]\nScore: "
        ++ shown
        ++ " ("
        ++ sentiment_label fl score
        ++ ")  Urgency: "
        ++ urgency
        ++ "\nSummary: "
        ++ summary
        ++ "\nKey themes: "
        ++ join ", " themes)

  -- The try block of _read_sentiment_context, on what Redis answers.
  abbrev pub read_cached : String → Option String → Option String
  read_cached asset_class none = none
  read_cached asset_class (some cached) =
      if cached =ˢ ""
      then none
      else (py.loads cached >>= λ v. as_dict v >>= λ d. sentiment_snippet asset_class d)

  -- `redis.get(key)` is given as a function.
  unfoldable pub read_sentiment_context :
      (String → Option String) → Payload fl → Option (Option String)
  read_sentiment_context redis_get payload = do
    symbol ← as_str (get_or "symbol_primary" (text "") payload)
    let asset_class =
        if is_fx (get_or "venue" null payload) (py.upper symbol) then "fx" else "crypto"
    some (read_cached asset_class (redis_get ("ai:sentiment:" ++ asset_class)))

  unfoldable pub build_prompt : Payload fl → Option String → Option String
  build_prompt payload sentiment_context = do
    let show = λ (k : String). str_value py (get_or k null payload)
    let secondary = get_or "symbol_secondary" null payload
    let spread = get_or "spread" null payload
    let funding_rate = get_or "funding_rate" null payload
    let z_score = get_or "z_score" null payload
    spread_line ← line_if spread (some ("Spread: " ++ str_value py spread ++ " bps"))
    funding_line ← line_if funding_rate (
        number funding_rate >>= λ x.
        some ("Funding rate: " ++ fixed (mul x (lit 100 0)) 4 ++ "% per 8h"))
    z_line ← line_if z_score (number z_score >>= λ x. some ("Z-score: " ++ fixed x 4))
    let mode : String = if truthy (get_or "paper_mode" (flag true) payload) then "PAPER" else "LIVE"
    let strategy = str_value py (get_or "strategy_type" (text "unknown") payload)
    let symbol_primary = str_value py (get_or "symbol_primary" (text "—") payload)
    let symbol_secondary = str_value py (if truthy secondary then secondary else text "—")
    let head =
        ("Strategy: " ++ strategy)
        ∷ ("Pair: " ++ symbol_primary ++ " / " ++ symbol_secondary)
        ∷ ("Net edge: "
            ++ show "net_edge_bps"
            ++ " bps  (gross "
            ++ show "expected_return_bps"
            ++ " bps, costs "
            ++ show "fee_cost_bps"
            ++ " bps)")
        ∷ []
    some (
        join "\n" (
          List.◌++◌ head (
            List.◌++◌ spread_line (
              List.◌++◌ funding_line (
                List.◌++◌ z_line (
                  List.◌++◌ (("Mode: " ++ mode) ∷ []) (
                    List.◌++◌ (optional_line sentiment_context)
                      ("\nScore this signal's quality." ∷ []))))))))

  -- score_opportunity, with the client as a function from a prompt to Claude's answer.
  unfoldable pub score_opportunity :
      Client fl → (String → Option String) → Payload fl → Option Score
  score_opportunity ask redis_get payload = do
    context ← read_sentiment_context redis_get payload
    prompt ← build_prompt payload context
    some (score_answer py (ask prompt))
