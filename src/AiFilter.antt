-- ===== src/AiFilter.antt =====
-- services/ai-filter/app/scorer.py: what becomes of Claude's answer, score_opportunity after the call.
-- The answer is an argument; json.loads, re.search, int, str and str.upper of Python are a parameter.
pub mod Prompt
pub mod Consumer
pub mod Bounds
pub mod Forwarding
pub mod Advice
use Prim.Native.String.{[] as empty, ◌∷◌ as ◌∷ˢ◌}
use messiah_fx_prod.Prelude.{
  ℕ, zero, suc, String, Bool, true, false, ◌&&◌, Option, none, some, List, [], ◌∷◌, ◌=ˢ◌,
  if◌then◌else◌,
}
use messiah_fx_prod.Prelude.Int.{ℤ, pos, leb_ℤ}
use messiah_fx_prod.Prelude.ParseInt.{parse_int}
use messiah_fx_prod.Prelude.Text.{strip}
use messiah_fx_prod.Numbers.{Floats}
use messiah_fx_prod.Payload.{Payload, Value, null, flag, num, text, array, object, get, get_or}

-- What `int(x)` does with a number: it answers, it raises one of the errors that the extraction
-- catches, or it raises another (an OverflowError, for an infinity).
pub data Whole : Type 0 where
  whole_number : ℤ → Whole
  caught : Whole
  uncaught : Whole

pub record Python (fl : Floats) : Type 0 where
  -- `json.loads(s)`, `none` where it raises
  pub loads : String → Option (Value fl)
  -- `re.search(r'\{[^}]+\}', s, re.DOTALL)`, its text
  pub braces : String → Option String
  -- `int(x)` for a float
  pub int_of_float : fl.F → Whole
  -- `str(v)` for what is not a text
  pub str_of : Value fl → String
  -- `s.upper()`
  pub upper : String → String
  -- `f"{x:+d}"`, `none` where it raises
  pub signed : fl.F → Option String

-- A block of the content of a response.
pub data Block (fl : Floats) : Type 0 where
  tool_use : String → Payload fl → Block fl
  text_block : String → Block fl
  other_block : Block fl

pub data Answer (fl : Floats) : Type 0 where
  timed_out : Answer fl
  failed : Answer fl
  responded : List (Block fl) → Answer fl

pub record Score : Type 0 where
  pub score : Option ℤ
  pub reason : Option String
  pub timeout : Bool

-- A score and its reason, `(None, None)`, or an exception that only the caller catches.
pub data Extract : Type 0 where
  scored : ℤ → String → Extract
  nothing : Extract
  raised : Extract

-- `s[:n]`
abbrev pub take_chars : ℕ → String → String
take_chars zero s = empty
take_chars (suc n) empty = empty
take_chars (suc n) (c ∷ˢ s) = c ∷ˢ take_chars n s

-- `max(0, min(100, score))`
abbrev pub clamp_score : ℤ → ℤ
clamp_score n = if leb_ℤ n (pos 0) then pos 0 else if leb_ℤ (pos 100) n then pos 100 else n

abbrev pub no_answer : Score
no_answer = record { score = none; reason = none; timeout = true }

abbrev pub parse_error : Score
parse_error = record { score = none; reason = some "parse_error"; timeout = false }

abbrev pub scored_by : Whole → String → Extract
scored_by (whole_number n) reason = scored (clamp_score n) reason
scored_by caught reason = nothing
scored_by uncaught reason = raised

abbrev pub score_of : Extract → Score
score_of (scored n reason) = record { score = some n; reason = some reason; timeout = false }
score_of nothing = parse_error
score_of raised = no_answer

module _ {fl : Floats} (py : Python fl) where
  abbrev pub str_value : Value fl → String
  str_value (text s) = s
  str_value v = py.str_of v

  abbrev whole_or_caught : Option ℤ → Whole
  whole_or_caught none = caught
  whole_or_caught (some n) = whole_number n

  -- `int(v)`
  abbrev pub int_value : Value fl → Whole
  int_value (flag b) = whole_number (if b then pos 1 else pos 0)
  int_value (num x) = py.int_of_float x
  int_value (text s) = whole_or_caught (parse_int s)
  int_value _ = caught

  abbrev pub int_at : Option (Value fl) → Whole
  int_at none = caught
  int_at (some v) = int_value v

  abbrev pub reason_of : Payload fl → String
  reason_of fields = take_chars 120 (str_value (get_or "reason" (text "") fields))

  -- The score and the reason of a dict.
  abbrev pub extract_fields : Payload fl → Extract
  extract_fields fields = scored_by (int_at (get "score" fields)) (reason_of fields)

  -- _extract_from_tool_use: the first call of the tool decides.
  unfoldable pub extract_from_tool_use : List (Block fl) → Extract
  extract_from_tool_use [] = nothing
  extract_from_tool_use (tool_use name input ∷ content) =
      if name =ˢ "score_signal" then extract_fields input else extract_from_tool_use content
  extract_from_tool_use (text_block s ∷ content) = extract_from_tool_use content
  extract_from_tool_use (other_block ∷ content) = extract_from_tool_use content

  -- Nothing but a dict has an entry `score`.
  abbrev pub extract_loaded : Option (Value fl) → Extract
  extract_loaded (some (object fields)) = extract_fields fields
  extract_loaded _ = nothing

  abbrev pub load_match : Option String → Option (Value fl)
  load_match none = none
  load_match (some s) = py.loads s

  -- `json.loads(s)`, or else of what stands in braces
  abbrev pub load_or_match : Option (Value fl) → String → Option (Value fl)
  load_or_match (some v) s = some v
  load_or_match none s = load_match (py.braces s)

  unfoldable pub extract_from_text : String → Extract
  extract_from_text s = extract_loaded (load_or_match (py.loads (strip s)) (strip s))

  abbrev pub extract_first_text : List (Block fl) → Extract
  extract_first_text [] = nothing
  extract_first_text (text_block s ∷ content) = extract_from_text s
  extract_first_text (tool_use name input ∷ content) = extract_first_text content
  extract_first_text (other_block ∷ content) = extract_first_text content

  abbrev pub or_text : Extract → List (Block fl) → Extract
  or_text nothing content = extract_first_text content
  or_text e content = e

  -- The try block of score_opportunity with its handlers.
  unfoldable pub score_answer : Answer fl → Score
  score_answer timed_out = no_answer
  score_answer failed = no_answer
  score_answer (responded content) = score_of (or_text (extract_from_tool_use content) content)
