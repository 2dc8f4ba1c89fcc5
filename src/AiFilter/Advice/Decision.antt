-- ===== src/AiFilter/Advice/Decision.antt =====
-- services/risk/app/consumer.py: what the risk engine does with a message does not depend on the fields
-- that the AI filter adds.
use messiah_fx_prod.Prelude.{
  String, true, false, not, ◌&&◌, ◌≡◌, refl, ap, Option, none, some, List, [], ◌∷◌, ◌++◌, map, ◌=ˢ◌,
  if◌then◌else◌, inl, inr, Bool-cases,
}
use messiah_fx_prod.Numbers.{Floats}
use messiah_fx_prod.Payload.{
  Payload, Value, no_fields, field, get, get_or, null, text, num, flag, object, put,
}
use messiah_fx_prod.StreamNames
use messiah_fx_prod.RedisKeys
use messiah_fx_prod.Redis.{Redis, World, Command, ◌>>◌, xadd, audit, upsert}
use messiah_fx_prod.Risk.Settings.{Settings}
use messiah_fx_prod.Risk.Checker.{CheckResult}
use messiah_fx_prod.Risk.State.{
  activate_halt, activate_cooldown, increment_open_positions, increment_strategy_signal_count,
}
use messiah_fx_prod.Risk.Consumer.{
  Moment, texts, notify, text_or_null, reason_or, upsert_opportunity, approve, react, refuse,
}
use messiah_fx_prod.AiFilter.Advice.Erasure.{
  is_ai, erase, erase_value, erase-put, erase_command, SentAlike, sent-append,
}
use messiah_fx_prod.AiFilter.Advice.Outcomes.{
  Alike, Both, returned, after-Alike, after_same, pick-Alike, then-Alike,
}

-- Two messages with their opportunities, alike but for what the AI filter adds.
pub record IsSame {fl : Floats} (f g d e : Payload fl) : Type 0 where
  pub same_fields : erase f ≡ erase g
  pub same_payload : erase d ≡ erase e
  pub same_edge : get "net_edge_bps" d ≡ get "net_edge_bps" e
  pub same_id : get StreamNames.opportunity_id f ≡ get StreamNames.opportunity_id g

abbrev pub SamePayload : {fl : Floats} → Payload fl → Payload fl → Type 0
SamePayload d e = erase d ≡ erase e

module _ {fl : Floats} where
  -- What is put into alike payloads.
  pub put_alike :
      (k : String) (u v : Value fl) (d e : Payload fl)
      → is_ai k ≡ false
      → erase_value u ≡ erase_value v
      → erase d ≡ erase e
      → erase (put k u d) ≡ erase (put k v e)
  put_alike k u v d e h p q = rw (erase-put k u d h, erase-put k v e h, p, q) refl

  pub object_alike :
      (d e : Payload fl) → erase d ≡ erase e → erase_value (object d) ≡ erase_value (object e)
  unfolding erase_value
  object_alike d e p = ap object p

  abbrev value_or : Value fl → Option (Value fl) → Value fl
  value_or v o = elim o [ none ↦ v | some w ↦ w ]

  pub get_or_same :
      (k : String) (u v : Value fl) (d e : Payload fl)
      → u ≡ v
      → get k d ≡ get k e
      → get_or k u d ≡ get_or k v e
  get_or_same k u v d e h p = λ i. value_or (h i) (p i)

  audit_alike :
      (st symbol u v ps p q : Value fl)
      → u ≡ v
      → erase (
          field "strategy_type" st (
            field "symbol_primary" symbol
              (field "net_edge_bps" u (field "checks_passed" ps (field "ai_score" p no_fields)))))
        ≡ erase (
            field "strategy_type" st (
              field "symbol_primary" symbol
                (field "net_edge_bps" v (field "checks_passed" ps (field "ai_score" q no_fields)))))
  unfolding erase
  audit_alike st symbol u v ps p q e = rw e refl

module _ {fl : Floats} where
  pub same_append :
      (cs ds : List (Command fl)) (c : Command fl)
      → map erase_command cs ≡ map erase_command ds
      → map erase_command (cs ++ c ∷ []) ≡ map erase_command (ds ++ c ∷ [])
  same_append cs ds c h = sent-append cs ds c c refl h

module _ {fl : Floats} {r : Redis fl} where
  pub upsert-Alike :
      (o : Option (Value fl)) (d e : Payload fl) (v w : World r)
      → erase d ≡ erase e
      → SentAlike v w
      → Alike Both (upsert_opportunity {r = r} o d v) (upsert_opportunity {r = r} o e w)
  upsert-Alike none d e v w p h = returned Both tt tt v w tt h
  upsert-Alike (some (text id)) d e v w p h = elim (Bool-cases (id =ˢ "")) [
    | inl empty ↦ rw empty (returned Both tt tt v w tt h)
    | inr named ↦ rw named (
        returned Both tt tt _ _ tt
          (sent-append _ _ (upsert id d) (upsert id e) (ap (upsert id) p) h))
  ]
  upsert-Alike (some _) d e v w p h = returned Both tt tt v w tt h

module _ {fl : Floats} {r : Redis fl} (settings : Settings fl) (moment : Moment fl)
    (f g d e : Payload fl) (same : IsSame f g d e) (st : String) (symbol : Value fl)
    (result : CheckResult) where
  pub approve-Alike :
      (w : World r)
      → Alike SamePayload
          (approve settings moment f d st symbol result w)
          (approve settings moment g e st symbol result w)
  unfolding approve
  approve-Alike w = after_same SamePayload _ _ (increment_open_positions moment.now w) (λ n w1.
      after_same SamePayload _ _ (increment_strategy_signal_count st w1) (λ u w2.
        let enriched =
          put_alike "open_position_count_after" (num (fl.of_int n)) (num (fl.of_int n)) _ _ refl
            refl
            (put_alike "risk_checked_at" (text moment.now) (text moment.now) _ _ refl refl (
              put_alike "risk_checks_passed" (texts result.checks_passed)
                (texts result.checks_passed) _ _ refl refl
                (put_alike "risk_approved" (flag true) (flag true) d e refl refl
                  same.same_payload))) in
        returned SamePayload _ _ _ _ enriched (
          sent-append _ _ (audit "risk.approved" _) (audit "risk.approved" _)
            (ap (audit "risk.approved") (
              audit_alike (text st) symbol _ _ (texts result.checks_passed) _ _
                (get_or_same "net_edge_bps" null null d e refl same.same_edge)))
            (sent-append _ _ (xadd RedisKeys.signals_execution_queue _)
              (xadd RedisKeys.signals_execution_queue _)
              (ap (xadd RedisKeys.signals_execution_queue) (
                put_alike "risk_checked_at" (text moment.now) (text moment.now) _ _ refl refl (
                  put_alike "risk_approved" (text "true") (text "true") _ _ refl refl (
                    put_alike StreamNames.payload _ _ f g refl (object_alike _ _ enriched)
                      same.same_fields))))
              refl))))

  react-Alike :
      (v w : World r)
      → SentAlike v w
      → Alike Both (react settings moment f st result v) (react settings moment g st result w)
  unfolding react activate_halt activate_cooldown
  react-Alike v w h =
      after-Alike Both Both _ _ _ _
        (then-Alike result.auto_halt
          (activate_halt (reason_or "auto_halt" result.rejection_reason) moment.now
            >> notify "risk.halt" moment.now (
                field "reason" (text_or_null result.rejection_reason)
                  (field "strategy_type" (text st) no_fields)))
          v w h
          (returned Both tt tt _ _ tt
            (same_append _ _ _ (same_append _ _ _ (same_append _ _ _ (same_append _ _ _ h))))))
        (λ a b v1 w1 both h1.
          then-Alike (result.trigger_cooldown && not (st =ˢ ""))
            (activate_cooldown st settings.risk_cooldown_minutes moment.now
              >> notify "risk.cooldown" moment.now (
                  field "strategy_type" (text st)
                    (field "reason" (text_or_null result.rejection_reason) no_fields)))
            v1 w1 h1 (returned Both tt tt _ _ tt (same_append _ _ _ (same_append _ _ _ h1))))

  pub refuse-Alike :
      (w : World r)
      → Alike SamePayload
          (refuse settings moment f d st symbol result w)
          (refuse settings moment g e st symbol result w)
  unfolding refuse
  refuse-Alike w =
      let enriched = put_alike "risk_checked_at" (text moment.now) (text moment.now) _ _ refl refl (
        put_alike "risk_checks_failed" (texts result.checks_failed) (texts result.checks_failed) _ _
          refl refl
          (put_alike "risk_checks_passed" (texts result.checks_passed) (texts result.checks_passed)
            _ _ refl refl
            (put_alike "risk_rejection_reason" (text_or_null result.rejection_reason)
              (text_or_null result.rejection_reason) _ _ refl refl
              (put_alike "risk_approved" (flag false) (flag false) d e refl refl
                same.same_payload)))) in
      after-Alike Both SamePayload _ _ _ _
        (react-Alike _ _ (
          same_append _ _ (audit "risk.rejected" _) (
            sent-append _ _ (xadd RedisKeys.signals_rejected _) (xadd RedisKeys.signals_rejected _)
              (ap (xadd RedisKeys.signals_rejected) (
                put_alike "risk_checked_at" (text moment.now) (text moment.now) _ _ refl refl (
                  put_alike "risk_rejection_reason" (text (reason_or "" result.rejection_reason))
                    (text (reason_or "" result.rejection_reason)) _ _ refl refl
                    (put_alike "risk_approved" (text "false") (text "false") _ _ refl refl (
                      put_alike StreamNames.payload _ _ f g refl (object_alike _ _ enriched)
                        same.same_fields)))))
              refl)))
        (λ a b v1 w1 both h. returned SamePayload _ _ _ _ enriched h)

  pub route-Alike :
      (w : World r)
      → Alike SamePayload
          ((if result.approved
              then approve settings moment f d st symbol result
              else refuse settings moment f d st symbol result)
            w)
          ((if result.approved
              then approve settings moment g e st symbol result
              else refuse settings moment g e st symbol result)
            w)
  route-Alike w =
      pick-Alike SamePayload result.approved _ _ _ _ w (approve-Alike w) (refuse-Alike w)
