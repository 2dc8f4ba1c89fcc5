-- ===== src/Venues.antt =====
-- shared/mezna_shared/venues.py: the venue of a configured symbol.
pub mod Routes
use Prim.Native.Char.{Char, code}
use Prim.Native.String
use messiah_fx_prod.Prelude.{
  ℕ, String, Bool, true, false, ◌==◌, ◌||◌, Option, none, some, List, [], ◌∷◌, if◌then◌else◌,
}
use messiah_fx_prod.Prelude.Text.{strip, lower}
use messiah_fx_prod.Prelude.Dict.{contains}

abbrev pub known_venues : List String
known_venues = "binance" ∷ "bybit" ∷ "okx" ∷ "kraken" ∷ "coinbase" ∷ "oanda" ∷ "mt5" ∷ "paper" ∷ []

-- `c in s` for one character, by its code
unfoldable pub has_char : ℕ → String → Bool
has_char n String.[] = false
has_char n (String.◌∷◌ c s) = code c == n || has_char n s

-- An underscore means forex; the later tests of the code all answer the same. No letter has an
-- underscore as its upper case, and a blank is none.
unfoldable pub infer_venue : String → String
infer_venue symbol = if has_char 95 (strip symbol) then "oanda" else "binance"

-- `s.split(":", 1)`, `none` without a colon
unfoldable pub split_colon : String → Option (String × String)
split_colon String.[] = none
split_colon (String.◌∷◌ c s) =
    let rest = split_colon s in
    if code c == 58
    then some (String.[], s)
    else (elim rest [ none ↦ none | some parts ↦ some (String.◌∷◌ c parts.0, parts.1) ])

abbrev pub routed : String → Option (String × String) → String × String
routed spec none = (infer_venue spec, spec)
routed spec (some (head, rest)) =
    if contains (lower head) known_venues
    then (lower head, strip rest)
    else (infer_venue spec, spec)

unfoldable pub parse_symbol_spec : String → String × String
parse_symbol_spec spec = routed (strip spec) (split_colon (strip spec))
