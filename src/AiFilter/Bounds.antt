-- ===== src/AiFilter/Bounds.antt =====
-- services/ai-filter/app/scorer.py: a score is a percentage, and its reason is short.
use Prim.Native.String.{[] as empty, ◌∷◌ as ◌∷ˢ◌}
use messiah_fx_prod.Prelude.{
  ℕ, zero, suc, ◌≤◌, String, true, false, ◌≡◌, refl, arith, Option, none, some, List, [], ◌∷◌, inl,
  inr, ◌=ˢ◌, Bool-cases,
}
use messiah_fx_prod.Prelude.Int.{ℤ, pos, negsuc, leb_ℤ}
use messiah_fx_prod.Prelude.Text.{strip}
use messiah_fx_prod.Numbers.{Floats}
use messiah_fx_prod.Payload.{Payload, Value, get, object}
use messiah_fx_prod.AiFilter.{
  Python, Block, tool_use, text_block, other_block, Answer, timed_out, failed, responded, Score,
  Extract, scored, nothing, raised, take_chars, clamp_score, Whole, whole_number, caught, uncaught,
  int_at, reason_of, scored_by, extract_fields, extract_from_tool_use, extract_loaded,
  load_or_match, extract_from_text, extract_first_text, or_text, score_of, score_answer,
}

abbrev pub text_length : String → ℕ
text_length empty = 0
text_length (c ∷ˢ s) = suc (text_length s)

length-take_chars : (n : ℕ) (s : String) → text_length (take_chars n s) ≤ n
length-take_chars zero s = omega arith
length-take_chars (suc n) empty = omega arith
length-take_chars (suc n) (c ∷ˢ s) = omega (arith, length-take_chars n s)

abbrev pub IsPercent : ℤ → Type 0
IsPercent n = (k : ℕ) × (n ≡ pos k) × (k ≤ 100)

clamp_score-IsPercent : (n : ℤ) → IsPercent (clamp_score n)
clamp_score-IsPercent n = elim (Bool-cases (leb_ℤ n (pos 0))) [
  | inl low ↦ rw low (0, refl, omega arith)
  | inr positive ↦ elim (Bool-cases (leb_ℤ (pos 100) n)) [
    | inl high ↦ rw (positive, high) (100, refl, omega arith)
    | inr inside ↦ rw (positive, inside) (between n positive inside)
  ]
]
  where
    between : (n : ℤ) → leb_ℤ n (pos 0) ≡ false → leb_ℤ (pos 100) n ≡ false → IsPercent n
    between (pos k) p q = (k, refl, ground arith)
    between (negsuc k) p q = absurd (ground arith)

-- A score from 0 to 100 with a reason of at most 120 characters and no timeout; or no score, and then a
-- timeout without a reason or an answer that could not be read.
pub data IsScore : Score → Type 0 where
  is_scored :
      (k : ℕ) (reason : String)
      → k ≤ 100
      → text_length reason ≤ 120
      → IsScore (record { score = some (pos k); reason = some reason; timeout = false })
  is_unread : IsScore (record { score = none; reason = some "parse_error"; timeout = false })
  is_lost : IsScore (record { score = none; reason = none; timeout = true })

-- What the extraction may answer.
abbrev IsExtract : Extract → Type 0
IsExtract (scored n reason) = IsPercent n × (text_length reason ≤ 120)
IsExtract nothing = Unit
IsExtract raised = Unit

scored_by-IsExtract :
    (w : Whole) (reason : String) → text_length reason ≤ 120 → IsExtract (scored_by w reason)
scored_by-IsExtract (whole_number n) reason h = (clamp_score-IsPercent n, h)
scored_by-IsExtract caught reason h = tt
scored_by-IsExtract uncaught reason h = tt

score_of-IsScore : (e : Extract) → IsExtract e → IsScore (score_of e)
score_of-IsScore (scored n reason) h = rw h.0.1 (is_scored h.0.0 reason h.0.2 h.1)
score_of-IsScore nothing h = is_unread
score_of-IsScore raised h = is_lost

module _ {fl : Floats} (py : Python fl) where
  extract_fields-IsExtract : (fields : Payload fl) → IsExtract (extract_fields py fields)
  extract_fields-IsExtract fields =
      scored_by-IsExtract (int_at py (get "score" fields)) (reason_of py fields)
        (length-take_chars 120 _)

  extract_from_tool_use-IsExtract :
      (content : List (Block fl)) → IsExtract (extract_from_tool_use py content)
  unfolding extract_from_tool_use
  extract_from_tool_use-IsExtract [] = tt
  extract_from_tool_use-IsExtract (tool_use name input ∷ content) =
      elim (Bool-cases (name =ˢ "score_signal")) [
        | inl called ↦ rw called (extract_fields-IsExtract input)
        | inr other ↦ rw other (extract_from_tool_use-IsExtract content)
      ]
  extract_from_tool_use-IsExtract (text_block s ∷ content) = extract_from_tool_use-IsExtract content
  extract_from_tool_use-IsExtract (other_block ∷ content) = extract_from_tool_use-IsExtract content

  extract_loaded-IsExtract : (v : Option (Value fl)) → IsExtract (extract_loaded py v)
  extract_loaded-IsExtract none = tt
  extract_loaded-IsExtract (some (object fields)) = extract_fields-IsExtract fields
  extract_loaded-IsExtract (some _) = tt

  extract_first_text-IsExtract :
      (content : List (Block fl)) → IsExtract (extract_first_text py content)
  unfolding extract_from_text
  extract_first_text-IsExtract [] = tt
  extract_first_text-IsExtract (text_block s ∷ content) =
      extract_loaded-IsExtract (load_or_match py (py.loads (strip s)) (strip s))
  extract_first_text-IsExtract (tool_use name input ∷ content) =
      extract_first_text-IsExtract content
  extract_first_text-IsExtract (other_block ∷ content) = extract_first_text-IsExtract content

  or_text-IsExtract :
      (e : Extract) (content : List (Block fl)) → IsExtract e → IsExtract (or_text py e content)
  or_text-IsExtract (scored n reason) content h = h
  or_text-IsExtract nothing content h = extract_first_text-IsExtract content
  or_text-IsExtract raised content h = h

  -- Whatever Claude answers, there is a result: a score from 0 to 100 with a reason of at most 120
  -- characters, or no score with the mark of an answer that could not be read or of a timeout.
  pub score_answer-IsScore : (answer : Answer fl) → IsScore (score_answer py answer)
  unfolding score_answer
  score_answer-IsScore timed_out = is_lost
  score_answer-IsScore failed = is_lost
  score_answer-IsScore (responded content) =
      score_of-IsScore (or_text py (extract_from_tool_use py content) content) (
        or_text-IsExtract (extract_from_tool_use py content) content
          (extract_from_tool_use-IsExtract content))
