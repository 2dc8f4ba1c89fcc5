-- ===== src/Tests/Filter.antt =====
-- Runs of the AI filter on a message of the swing strategy, and the theorems at them.
use messiah_fx_prod.Prelude.{false, ◌≡◌, refl, none, some, [], ◌∷◌, inl}
use messiah_fx_prod.Prelude.Int.{pos}
use messiah_fx_prod.Prelude.ParseInt.{show_int}
use messiah_fx_prod.Numbers.Laws.{whole}
use messiah_fx_prod.Payload.{Payload, no_fields, field, text, num, null, object}
use messiah_fx_prod.RedisKeys
use messiah_fx_prod.Redis.{send, xack}
use messiah_fx_prod.Risk.Consumer.{handle as risk_handle}
use messiah_fx_prod.AiFilter.{
  Python, whole_number, Answer, responded, tool_use, text_block, Score, score_answer,
  extract_from_tool_use, no_answer,
}
use messiah_fx_prod.AiFilter.Consumer.{approved_entry, handle}
use messiah_fx_prod.AiFilter.Bounds.{IsScore, score_answer-IsScore}
use messiah_fx_prod.AiFilter.Forwarding.{IsScorable, handle-loses}
use messiah_fx_prod.AiFilter.Advice.{handle-SentAlike}
use messiah_fx_prod.AiFilter.Advice.Erasure.{SentAlike}
use messiah_fx_prod.Tests.{settings_in_paper, swing_signal, swing_message, world, morning}

abbrev pub python : Python whole
python = record {
  loads = λ s. none;
  braces = λ s. none;
  int_of_float = λ x. whole_number x;
  str_of = λ v. "?";
  upper = λ s. s;
  signed = λ x. some (show_int x);
}

-- The tool is called with a score that is too high.
abbrev pub eager : Answer whole
eager = responded (
    text_block "Scoring."
    ∷ tool_use "score_signal"
        (field "score" (num (pos 180)) (field "reason" (text "clear edge") no_fields))
    ∷ [])

abbrev full_marks : Score
full_marks = record { score = some (pos 100); reason = some "clear edge"; timeout = false }

eager_is_clamped : score_answer python eager ≡ full_marks
unfolding score_answer extract_from_tool_use
eager_is_clamped = refl

score_answer-IsScore_example : IsScore (score_answer python eager)
score_answer-IsScore_example = score_answer-IsScore python eager

abbrev swing_signal-IsScorable : IsScorable swing_signal
swing_signal-IsScorable = record {
  symbol = "BTC/USDT";
  has_symbol = refl;
  funding = inl refl;
  z = inl refl;
}

abbrev nameless_signal : Payload whole
nameless_signal = field "symbol_primary" null no_fields

abbrev nameless_message : Payload whole
nameless_message = field "payload" (object nameless_signal) no_fields

handle-loses_example :
    handle python (some (λ prompt. eager)) "09:00" "1-0" nameless_message world
    ≡ send (xack RedisKeys.signals_opportunities "ai-filter" "1-0") world
handle-loses_example =
    handle-loses python (λ prompt. eager) "09:00" "1-0" nameless_message nameless_signal world refl
      refl

handle-SentAlike_example :
    SentAlike
      (risk_handle settings_in_paper morning
        (approved_entry swing_message swing_signal full_marks "09:00")
        "1-0"
        world).1
      (risk_handle settings_in_paper morning
        (approved_entry swing_message swing_signal no_answer "09:01")
        "1-0"
        world).1
handle-SentAlike_example =
    handle-SentAlike swing_message swing_signal settings_in_paper morning "1-0" full_marks no_answer
      "09:00" "09:01" world
