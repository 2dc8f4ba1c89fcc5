-- ===== src/AiFilter/Consumer.antt =====
-- services/ai-filter/app/consumer.py: one message of signals:opportunities is scored and forwarded. The
-- client is the function from a prompt to Claude's answer, `none` without an API key.
use messiah_fx_prod.Prelude.{String, true, Option, none, some, if◌then◌else◌}
use messiah_fx_prod.Prelude.ParseInt.{show_int}
use messiah_fx_prod.Numbers.{Floats}
use messiah_fx_prod.Payload.{Payload, Value, null, flag, num, text, object, get, put}
use messiah_fx_prod.RedisKeys
use messiah_fx_prod.StreamNames
use messiah_fx_prod.Redis.{Redis, Exec, reads, or_raise, send, xadd, xack, ◌>>=◌}
use messiah_fx_prod.Risk.Consumer.{load_opportunity, text_or_null}
use messiah_fx_prod.AiFilter.{Python, Score}
use messiah_fx_prod.AiFilter.Prompt.{Client, score_opportunity}

abbrev pub not_configured : Score
not_configured = record { score = none; reason = some "ai_not_configured"; timeout = true }

abbrev pub score_text : Score → String
score_text result = elim result.score [ none ↦ "" | some n ↦ show_int n ]

module _ {fl : Floats} where
  abbrev pub score_by :
      Python fl → Option (Client fl) → (String → Option String) → Payload fl → Option Score
  score_by py none redis_get payload = some not_configured
  score_by py (some ask) redis_get payload = score_opportunity py ask redis_get payload

  abbrev pub score_value : Score → Value fl
  score_value result = elim result.score [ none ↦ null | some n ↦ num (fl.of_int n) ]

  abbrev pub enriched : Payload fl → Score → String → Payload fl
  enriched payload result scored_at = put "ai_scored_at" (text scored_at) (
      put "ai_timeout" (flag result.timeout) (
        put "ai_reason" (text_or_null result.reason) (put "ai_score" (score_value result) payload)))

  -- The entry for signals:approved.
  abbrev pub approved_entry : Payload fl → Payload fl → Score → String → Payload fl
  approved_entry fields payload result scored_at =
      put StreamNames.payload (object (enriched payload result scored_at)) (
        put StreamNames.ai_timeout (text (if result.timeout then "true" else "false"))
          (put StreamNames.ai_score (text (score_text result)) fields))

  module _ {r : Redis fl} (py : Python fl) (client : Option (Client fl)) (now : String) where
    unfoldable pub process : Payload fl → Exec r Unit
    process fields = do
      payload ← or_raise (load_opportunity (get StreamNames.payload fields))
      redis_get ← reads (λ s k. r.text_at k s)
      result ← or_raise (score_by py client redis_get payload)
      send (xadd RedisKeys.signals_approved (approved_entry fields payload result now))

    -- The try block around one message, its exceptions logged, and its acknowledgement.
    unfoldable pub handle : String → Payload fl → Exec r Unit
    handle msg_id fields w =
        (send (xack RedisKeys.signals_opportunities "ai-filter" msg_id)) (process fields w).1
