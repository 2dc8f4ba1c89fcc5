-- ===== src/Risk/Consumer.antt =====
-- services/risk/app/consumer.py: one message of signals:approved is checked and routed. A stream
-- field that holds JSON text holds the value itself, and a text there is one that does not parse.
-- The clock and the rows of the exposure query are arguments.
pub mod Untouched
pub mod Counting
pub mod PositionCap
use messiah_fx_prod.Prelude.{
  String, Bool, true, false, not, ◌&&◌, Option, none, some, List, [], ◌∷◌, ◌=ˢ◌, if◌then◌else◌,
}
use messiah_fx_prod.Prelude.Int.{ℤ}
use messiah_fx_prod.Prelude.Dict.{Dict, lookup_or}
use messiah_fx_prod.Numbers.{Floats, num_zero}
use messiah_fx_prod.Payload.{
  Payload, Value, Items, null, flag, num, text, array, object, no_items, item, no_fields, field,
  get, get_or, put,
}
use messiah_fx_prod.RedisKeys
use messiah_fx_prod.StreamNames
use messiah_fx_prod.Redis.{
  Redis, World, Exec, pure, reads, or_raise, send, rpush, xadd, xack, audit, upsert, ◌>>=◌, ◌>>◌,
}
use messiah_fx_prod.Risk.Settings.{Settings, position_usd, exposure_caps_enabled}
use messiah_fx_prod.Risk.Checker.{CheckResult, run_checks}
use messiah_fx_prod.Risk.State.{
  get_risk_hash, check_and_reset_daily, increment_open_positions, increment_strategy_signal_count,
  activate_halt, activate_cooldown, get_open_exposure,
}

-- What a message meets: the time, and what the exposure query returns (`none` if it fails).
pub record Moment (fl : Floats) : Type 0 where
  pub today : String
  pub now : String
  pub exposure_rows : Option (List (String × fl.F))

-- `text or default`
abbrev pub reason_or : String → Option String → String
reason_or default none = default
reason_or default (some s) = if s =ˢ "" then default else s

module _ {fl : Floats} where
  -- `json.loads` with its handler, and that a dict comes out, which the next line needs.
  abbrev pub load_opportunity : Option (Value fl) → Option (Payload fl)
  load_opportunity none = some no_fields
  load_opportunity (some (text _)) = some no_fields
  load_opportunity (some (object opportunity)) = some opportunity
  load_opportunity (some _) = none

  -- A name that the publisher wrote as a text; anything else raises here.
  abbrev pub as_text : Value fl → Option String
  as_text (text s) = some s
  as_text _ = none

  abbrev pub text_items : List String → Items fl
  text_items [] = no_items
  text_items (s ∷ ss) = item (text s) (text_items ss)

  abbrev pub texts : List String → Value fl
  texts ss = array (text_items ss)

  abbrev pub text_or_null : Option String → Value fl
  text_or_null none = null
  text_or_null (some s) = text s

  -- `d.get(k)` as a value, null where the key is missing
  abbrev pub get_or_null : String → Payload fl → Value fl
  get_or_null k d = get_or k null d

module _ {fl : Floats} {r : Redis fl} where
  -- `_notify`, with the event's own fields in `fields`
  abbrev pub notify : String → String → Payload fl → Exec r Unit
  notify event now fields = send (
      rpush RedisKeys.notification_queue
        (object (field "event" (text event) (field "timestamp" (text now) fields))))

  -- The best-effort upsert, skipped for a message without an id.
  abbrev pub upsert_opportunity : Option (Value fl) → Payload fl → Exec r Unit
  upsert_opportunity (some (text id)) enriched =
      if id =ˢ "" then pure tt else send (upsert id enriched)
  upsert_opportunity _ enriched = pure tt

  module _ (settings : Settings fl) (moment : Moment fl) (fields : Payload fl) where
    -- The approved path; it returns the enriched payload.
    unfoldable pub approve : Payload fl → String → Value fl → CheckResult → Exec r (Payload fl)
    approve opportunity strategy_type symbol result = do
      new_position_count ← increment_open_positions moment.now
      increment_strategy_signal_count strategy_type
      let enriched = put "open_position_count_after" (num (fl.of_int new_position_count)) (
          put "risk_checked_at" (text moment.now) (
            put "risk_checks_passed" (texts result.checks_passed)
              (put "risk_approved" (flag true) opportunity)))
      send (
          xadd RedisKeys.signals_execution_queue (
            put "risk_checked_at" (text moment.now) (
              put "risk_approved" (text "true")
                (put StreamNames.payload (object enriched) fields))))
      send (
          audit "risk.approved" (
            field "strategy_type" (text strategy_type) (
              field "symbol_primary" symbol (
                field "net_edge_bps" (get_or_null "net_edge_bps" opportunity) (
                  field "checks_passed" (texts result.checks_passed)
                    (field "ai_score" (get_or_null "ai_score" opportunity) no_fields))))))
      pure enriched

    -- The side effects of a rejection.
    unfoldable pub react : String → CheckResult → Exec r Unit
    react strategy_type result = do
      if result.auto_halt
          then (do
            activate_halt (reason_or "auto_halt" result.rejection_reason) moment.now
            notify "risk.halt" moment.now (
                field "reason" (text_or_null result.rejection_reason)
                  (field "strategy_type" (text strategy_type) no_fields)))
          else pure tt
      if result.trigger_cooldown && not (strategy_type =ˢ "")
          then (do
            activate_cooldown strategy_type settings.risk_cooldown_minutes moment.now
            notify "risk.cooldown" moment.now (
                field "strategy_type" (text strategy_type)
                  (field "reason" (text_or_null result.rejection_reason) no_fields)))
          else pure tt

    -- The rejected path.
    unfoldable pub refuse : Payload fl → String → Value fl → CheckResult → Exec r (Payload fl)
    refuse opportunity strategy_type symbol result = do
      let enriched = put "risk_checked_at" (text moment.now) (
          put "risk_checks_failed" (texts result.checks_failed) (
            put "risk_checks_passed" (texts result.checks_passed) (
              put "risk_rejection_reason" (text_or_null result.rejection_reason)
                (put "risk_approved" (flag false) opportunity))))
      send (
          xadd RedisKeys.signals_rejected (
            put "risk_checked_at" (text moment.now) (
              put "risk_rejection_reason" (text (reason_or "" result.rejection_reason)) (
                put "risk_approved" (text "false")
                  (put StreamNames.payload (object enriched) fields)))))
      send (
          audit "risk.rejected" (
            field "strategy_type" (text strategy_type) (
              field "symbol_primary" symbol (
                field "rejection_reason" (text_or_null result.rejection_reason)
                  (field "checks_failed" (texts result.checks_failed) no_fields)))))
      react strategy_type result
      pure enriched

    -- The state of the server that the checks read, and their result.
    unfoldable pub check : Payload fl → String → Exec r CheckResult
    check opportunity strategy_type = do
      risk_hash ← get_risk_hash
      halt ← reads (r.text_at RedisKeys.halt)
      strategy_state ← reads (r.hash_at (RedisKeys.strategy_state strategy_type))
      on_cooldown ← reads (r.exists (RedisKeys.cooldown strategy_type))
      let (gross, by_strategy) =
          if exposure_caps_enabled settings
          then get_open_exposure fl moment.exposure_rows
          else (num_zero fl, [])
      or_raise (
          run_checks settings risk_hash opportunity (reason_or "0" halt) strategy_state on_cooldown
            gross (lookup_or strategy_type (num_zero fl) by_strategy) (position_usd settings))

    unfoldable pub process : Exec r Unit
    process = do
      opportunity ← or_raise (load_opportunity (get StreamNames.payload fields))
      strategy_type ← or_raise (
          as_text (
            get_or "strategy_type" (get_or StreamNames.strategy_type (text "") fields) opportunity))
      let symbol =
          get_or "symbol_primary" (get_or StreamNames.symbol_primary (text "") fields) opportunity
      check_and_reset_daily moment.today moment.now
      result ← check opportunity strategy_type
      enriched ←
          (if result.approved
            then approve opportunity strategy_type symbol result
            else refuse opportunity strategy_type symbol result)
      upsert_opportunity (get StreamNames.opportunity_id fields) enriched

    -- The try block around one message, its exceptions logged, and its acknowledgement.
    unfoldable pub handle : String → Exec r Unit
    handle msg_id w = (send (xack RedisKeys.signals_approved "risk" msg_id)) (process w).1

  -- The messages of the stream, each at the moment it is read, one after the other.
  unfoldable pub run : Settings fl → List (String × Payload fl × Moment fl) → Exec r Unit
  unfolding handle
  run settings [] = pure tt
  run settings ((msg_id, fields, moment) ∷ entries) =
      handle settings moment fields msg_id >> run settings entries
