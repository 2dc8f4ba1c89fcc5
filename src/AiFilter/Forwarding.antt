-- ===== src/AiFilter/Forwarding.antt =====
-- services/ai-filter/app/consumer.py: which messages are forwarded, and which are lost.
use messiah_fx_prod.Prelude.{
  String, false, ◌≡◌, refl, Option, none, some, List, [], ◌∷◌, ◌⊎◌, inl, inr, Bool-cases, ◌>>=◌,
}
use messiah_fx_prod.Numbers.{Floats}
use messiah_fx_prod.Payload.{Payload, Value, null, text, get, get_or}
use messiah_fx_prod.RedisKeys
use messiah_fx_prod.StreamNames
use messiah_fx_prod.Redis.{Redis, World, send, xadd, xack, ◌>>◌}
use messiah_fx_prod.Risk.Consumer.{load_opportunity}
use messiah_fx_prod.AiFilter.{Python, Score, score_answer}
use messiah_fx_prod.AiFilter.Prompt.{
  Client, score_opportunity, as_str, number, is_some, line_if, read_sentiment_context, build_prompt,
}
use messiah_fx_prod.AiFilter.Consumer.{not_configured, approved_entry, score_by, process, handle}
use messiah_fx_prod.AiFilter.Bounds.{IsScore, score_answer-IsScore}

bind_total :
    {A B : Type 0} (o : Option A) (f : A → Option B)
    → ((a : A) × (o ≡ some a))
    → ((a : A) → (b : B) × (f a ≡ some b))
    → (b : B) × ((o >>= f) ≡ some b)
bind_total o f a k = rw a.1 (k a.0)

module _ {fl : Floats} where
  -- null or a number
  abbrev pub IsNumeric : Value fl → Type 0
  IsNumeric v = (is_some v ≡ false) ⊎ ((x : fl.F) × (number v ≡ some x))

  -- The symbol is a text, and the rates that the prompt formats are numbers or null.
  pub record IsScorable (payload : Payload fl) : Type 0 where
    pub symbol : String
    pub has_symbol : as_str (get_or "symbol_primary" (text "") payload) ≡ some symbol
    pub funding : IsNumeric (get_or "funding_rate" null payload)
    pub z : IsNumeric (get_or "z_score" null payload)

  line_if_total :
      (v : Value fl) (line : fl.F → String)
      → IsNumeric v
      → (lines : List String) × (line_if v (number v >>= λ x. some (line x)) ≡ some lines)
  line_if_total v line (inl absent) = ([], rw absent)
  line_if_total v line (inr (x, e)) = elim (Bool-cases (is_some v)) [
    | inl there ↦ (line x ∷ [], rw (there, e))
    | inr absent ↦ ([], rw absent)
  ]

  spread_total :
      (v : Value fl) (s : String) → (lines : List String) × (line_if v (some s) ≡ some lines)
  spread_total v s = elim (Bool-cases (is_some v)) [
    | inl there ↦ (s ∷ [], rw there)
    | inr absent ↦ ([], rw absent)
  ]

  -- What a forwarded message may say of its scoring.
  abbrev pub IsResult : Option (Client fl) → Score → Type 0
  IsResult none result = result ≡ not_configured
  IsResult (some ask) result = IsScore result

  module _ (py : Python fl) where
    prompt_total :
        (payload : Payload fl) (context : Option String)
        → IsScorable payload
        → (prompt : String) × (build_prompt py payload context ≡ some prompt)
    unfolding build_prompt
    prompt_total payload context h =
        let spread = spread_total (get_or "spread" null payload) _ in
        let funding = line_if_total (get_or "funding_rate" null payload) _ h.funding in
        let z = line_if_total (get_or "z_score" null payload) _ h.z in
        bind_total _ _ spread (λ a. bind_total _ _ funding (λ b. bind_total _ _ z (λ c. (_, refl))))

    context_total :
        (redis_get : String → Option String) (payload : Payload fl)
        → IsScorable payload
        → (context : Option String) × (read_sentiment_context py redis_get payload ≡ some context)
    unfolding read_sentiment_context
    context_total redis_get payload h =
        bind_total _ _ (h.symbol, h.has_symbol) (λ symbol. (_, refl))

    score_total :
        (client : Option (Client fl)) (redis_get : String → Option String) (payload : Payload fl)
        → IsScorable payload
        → (result : Score) × (score_by py client redis_get payload ≡ some result)
          × IsResult client result
    unfolding score_opportunity
    score_total none redis_get payload h = (not_configured, refl, refl)
    score_total (some ask) redis_get payload h =
        let context = context_total redis_get payload h in
        let prompt = prompt_total payload context.0 h in
        (
          score_answer py (ask prompt.0),
          rw (context.1, prompt.1) refl,
          score_answer-IsScore py (ask prompt.0),
        )

  module _ {r : Redis fl} (py : Python fl) (client : Option (Client fl)) (now msg_id : String) where
    -- With or without a client, whatever the client answers: a message with a payload that can be scored
    -- is forwarded once, with its fields and those of a result, and then acknowledged. The result is a
    -- score from 0 to 100 with its reason, or says why there is none.
    pub handle-forwards :
        (message payload : Payload fl) (w : World r)
        → load_opportunity (get StreamNames.payload message) ≡ some payload
        → IsScorable payload
        → (result : Score) × IsResult client result
          × (handle py client now msg_id message w
              ≡ (send (xadd RedisKeys.signals_approved (approved_entry message payload result now))
                    >> send (xack RedisKeys.signals_opportunities "ai-filter" msg_id))
                  w)
    unfolding handle process
    handle-forwards message payload w loads h =
        let scoring = score_total py client (λ k. r.text_at k w.server) payload h in
        (scoring.0, scoring.2, rw (loads, scoring.1) refl)

  score_raises :
      (py : Python fl) (ask : Client fl) (redis_get : String → Option String) (payload : Payload fl)
      → as_str (get_or "symbol_primary" (text "") payload) ≡ none
      → score_opportunity py ask redis_get payload ≡ none
  unfolding score_opportunity read_sentiment_context
  score_raises py ask redis_get payload h = rw h refl

  -- With a client, a message whose symbol is neither a text nor missing is not forwarded, but
  -- acknowledged: it is lost.
  pub handle-loses :
      {r : Redis fl} (py : Python fl) (ask : Client fl) (now msg_id : String)
      (message payload : Payload fl) (w : World r)
      → load_opportunity (get StreamNames.payload message) ≡ some payload
      → as_str (get_or "symbol_primary" (text "") payload) ≡ none
      → handle py (some ask) now msg_id message w
        ≡ send (xack RedisKeys.signals_opportunities "ai-filter" msg_id) w
  unfolding handle process
  handle-loses {r} py ask now msg_id message payload w loads h =
      rw (loads, score_raises py ask (λ k. r.text_at k w.server) payload h) refl
