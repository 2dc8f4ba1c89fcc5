-- ===== src/AiFilter/Advice.antt =====
-- services/ai-filter/app/consumer.py and services/risk/app/consumer.py together: the score is advice,
-- and the risk engine decides without it.
pub mod Erasure
pub mod Outcomes
pub mod Checks
pub mod Decision
use messiah_fx_prod.Prelude.{
  String, Bool, true, false, ◌≡◌, refl, sym, ap, ◌∙◌, Option, none, some, List, [], ◌∷◌, inl, inr,
  Bool-cases, if◌then◌else◌,
}
use messiah_fx_prod.Prelude.Dict.{contains}
use messiah_fx_prod.Numbers.{Floats}
use messiah_fx_prod.Payload.{Payload, Value, null, get, get_or, text, object, put, get-put}
use messiah_fx_prod.StreamNames
use messiah_fx_prod.RedisKeys
use messiah_fx_prod.Redis.{Redis, World, Exec, xack}
use messiah_fx_prod.Risk.Settings.{Settings}
use messiah_fx_prod.Risk.State.{check_and_reset_daily}
use messiah_fx_prod.Risk.Consumer.{Moment, load_opportunity, as_text, check, process, handle}
use messiah_fx_prod.AiFilter.{Score}
use messiah_fx_prod.AiFilter.Consumer.{enriched, approved_entry, score_text}
use messiah_fx_prod.AiFilter.Advice.Erasure.{
  is_ai, erase, erase-put, erase-put_ai, erase_value, SentAlike,
}
use messiah_fx_prod.AiFilter.Advice.Outcomes.{Alike, Both, after_same, after-Alike, sent_of_Alike}
use messiah_fx_prod.AiFilter.Advice.Checks.{check_same}
use messiah_fx_prod.AiFilter.Advice.Decision.{
  same_append, get_or_same, SamePayload, IsSame, route-Alike, upsert-Alike, object_alike, put_alike,
}

-- What is read of a message before the checks.
abbrev type_in : {fl : Floats} → Payload fl → Payload fl → Value fl
type_in f d = get_or "strategy_type" (get_or StreamNames.strategy_type (text "") f) d

abbrev symbol_in : {fl : Floats} → Payload fl → Payload fl → Value fl
symbol_in f d = get_or "symbol_primary" (get_or StreamNames.symbol_primary (text "") f) d

module _ {fl : Floats} {r : Redis fl} (settings : Settings fl) (moment : Moment fl)
    (f g d e : Payload fl) (same : IsSame f g d e) where
  process-Alike :
      (w : World r)
      → load_opportunity (get StreamNames.payload f) ≡ some d
      → load_opportunity (get StreamNames.payload g) ≡ some e
      → type_in f d ≡ type_in g e
      → symbol_in f d ≡ symbol_in g e
      → Alike Both (process settings moment f w) (process settings moment g w)
  unfolding process
  process-Alike w p q t s =
      rw (p, q, t, s)
        (after_same Both _ _ (as_text (type_in g e), w)
          (λ st w0. after_same Both _ _ (check_and_reset_daily moment.today moment.now w0) (λ u w1.
            rw (check_same settings d e same.same_edge moment f g st w1) (
              after_same Both _ _ (check settings moment g e st w1) (λ result w2.
                after-Alike SamePayload Both _ _ _ _
                  (route-Alike settings moment f g d e same st (symbol_in g e) result w2)
                  (λ a b v w3 h k.
                    rw same.same_id
                      (upsert-Alike (get StreamNames.opportunity_id g) a b v w3 h k)))))))

module _ {fl : Floats} (fields payload : Payload fl) where
  enriched-erase : (s : Score) (at_s : String) → erase (enriched payload s at_s) ≡ erase payload
  enriched-erase s at_s =
      erase-put_ai "ai_scored_at" _ _ refl
      ∙ erase-put_ai "ai_timeout" _ _ refl
      ∙ erase-put_ai "ai_reason" _ _ refl
      ∙ erase-put_ai "ai_score" _ _ refl

  entry-erase :
      (s : Score) (at_s : String)
      → erase (approved_entry fields payload s at_s)
        ≡ put StreamNames.payload (erase_value (object payload)) (erase fields)
  unfolding erase_value
  entry-erase s at_s =
      erase-put StreamNames.payload (object (enriched payload s at_s))
        (put StreamNames.ai_timeout (text (if s.timeout then "true" else "false"))
          (put StreamNames.ai_score (text (score_text s)) fields))
        refl
      ∙ (rw
          (
            enriched-erase s at_s,
            erase-put_ai StreamNames.ai_timeout (text (if s.timeout then "true" else "false"))
                (put StreamNames.ai_score (text (score_text s)) fields) refl,
            erase-put_ai StreamNames.ai_score (text (score_text s)) fields refl,
          )
          refl)

  entry_loads :
      (s : Score) (at_s : String)
      → load_opportunity (get StreamNames.payload (approved_entry fields payload s at_s))
        ≡ some (enriched payload s at_s)
  entry_loads s at_s = simp (get-put)

  entry_type :
      (s : Score) (at_s : String)
      → type_in (approved_entry fields payload s at_s) (enriched payload s at_s)
        ≡ type_in fields payload
  entry_type s at_s =
      get_or_same "strategy_type" _ _ (enriched payload s at_s) payload
        (get_or_same StreamNames.strategy_type (text "") (text "")
          (approved_entry fields payload s at_s) fields refl (simp (get-put)))
        (simp (get-put))

  entry_symbol :
      (s : Score) (at_s : String)
      → symbol_in (approved_entry fields payload s at_s) (enriched payload s at_s)
        ≡ symbol_in fields payload
  entry_symbol s at_s =
      get_or_same "symbol_primary" _ _ (enriched payload s at_s) payload
        (get_or_same StreamNames.symbol_primary (text "") (text "")
          (approved_entry fields payload s at_s) fields refl (simp (get-put)))
        (simp (get-put))

  entry_edge :
      (s : Score) (at_s : String)
      → get "net_edge_bps" (enriched payload s at_s) ≡ get "net_edge_bps" payload
  entry_edge s at_s = simp (get-put)

  entry_id :
      (s : Score) (at_s : String)
      → get StreamNames.opportunity_id (approved_entry fields payload s at_s)
        ≡ get StreamNames.opportunity_id fields
  entry_id s at_s = simp (get-put)

  -- Whatever two results the AI filter may put into a message, and whenever: the risk engine sends the
  -- same commands for it, the same decision among them, but for the fields that the AI filter added.
  pub handle-SentAlike :
      {r : Redis fl} (settings : Settings fl) (moment : Moment fl) (msg_id : String) (a b : Score)
      (at_a at_b : String) (w : World r)
      → SentAlike
          (handle settings moment (approved_entry fields payload a at_a) msg_id w).1
          (handle settings moment (approved_entry fields payload b at_b) msg_id w).1
  unfolding handle
  handle-SentAlike settings moment msg_id a b at_a at_b w =
      let same : IsSame (approved_entry fields payload a at_a)
          (approved_entry fields payload b at_b) (enriched payload a at_a)
          (enriched payload b at_b) =
        record {
          same_fields = entry-erase a at_a ∙ sym (entry-erase b at_b);
          same_payload = enriched-erase a at_a ∙ sym (enriched-erase b at_b);
          same_edge = entry_edge a at_a ∙ sym (entry_edge b at_b);
          same_id = entry_id a at_a ∙ sym (entry_id b at_b);
        } in
      same_append _ _ (xack RedisKeys.signals_approved "risk" msg_id) (
        sent_of_Alike Both _ _ (
          process-Alike settings moment _ _ _ _ same w (entry_loads a at_a) (entry_loads b at_b)
            (entry_type a at_a ∙ sym (entry_type b at_b))
            (entry_symbol a at_a ∙ sym (entry_symbol b at_b))))
