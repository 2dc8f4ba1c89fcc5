-- ===== src/Gateway/Control.antt =====
-- services/gateway/app/routes/control.py: the kill switch, the toggles of the strategies, and the start
-- and the stop of the bot. The identity behind a request is an argument; the answers to the requests
-- are left out. A call that raises is an HTTPException.
pub mod Halting
pub mod Switches
use Prim.Native.String.{◌++◌}
use messiah_fx_prod.Prelude.{
  String, Bool, true, false, not, ◌&&◌, Option, none, some, List, [], ◌∷◌, ◌=ˢ◌, if◌then◌else◌,
}
use messiah_fx_prod.Prelude.Text.{strip}
use messiah_fx_prod.Prelude.Dict.{Dict}
use messiah_fx_prod.Numbers.{Floats}
use messiah_fx_prod.Payload.{
  Payload, Value, Items, null, flag, text, array, no_items, item, no_fields, field,
}
use messiah_fx_prod.Gateway.Auth.{Identity}
use messiah_fx_prod.RedisKeys
use messiah_fx_prod.Redis.{
  Redis, Exec, pure, or_raise, send, set, hset, audit, risk_event, configure, ◌>>=◌, ◌>>◌,
}

-- Who asks: the identity, the header x-mezna-user, and whether GATEWAY_REQUIRE_AUTH is on.
pub record Caller : Type 0 where
  pub identity : Identity
  pub header_user : Option String
  pub require_auth : Bool

-- `_ALL_STRATEGIES`, in order
abbrev pub sorted_strategies : List String
sorted_strategies =
    "breakout" ∷ "funding_arb" ∷ "mean_reversion_scalp" ∷ "momentum" ∷ "stat_arb" ∷ "swing" ∷ []

abbrev header_or : Option String → String → String
header_or none fallback = fallback
header_or (some user) fallback = if strip user =ˢ "" then fallback else strip user

-- `_actor`, `none` for the 401 of require_verified
unfoldable pub actor_of : Caller → String → Option String
actor_of caller fallback =
    if caller.require_auth && not caller.identity.verified
    then none
    else some (
        if caller.identity.verified
        then caller.identity.user
        else header_or caller.header_user fallback)

abbrev pub text_or_null : {fl : Floats} → Option String → Value fl
text_or_null none = null
text_or_null (some s) = text s

abbrev pub items_of : {fl : Floats} → List String → Items fl
items_of [] = no_items
items_of (s ∷ strategies) = item (text s) (items_of strategies)

-- `if body.latency_profile: state_update["latency_profile"] = ...`
abbrev pub latency_fields : Option String → Dict String
latency_fields none = []
latency_fields (some profile) = if profile =ˢ "" then [] else ("latency_profile", profile) ∷ []

abbrev pub toggle_flag : Bool → String
toggle_flag enabled = if enabled then "1" else "0"

abbrev pub stop_details : {fl : Floats} → String → String → Payload fl
stop_details actor reason = field "stopped_by" (text actor) (
    field "reason" (text reason)
      (field "strategies_disabled" (array (items_of sorted_strategies)) no_fields))

module _ {fl : Floats} {r : Redis fl} (caller : Caller) (now : String) where
  -- The flag of a halt and its copy in risk:state.
  abbrev pub write_halt : String → String → Exec r Unit
  write_halt halt reason = do
    send (set RedisKeys.halt halt)
    send (
        hset RedisKeys.risk_state
          (("trading_halted", halt) ∷ ("halt_reason", reason) ∷ ("last_updated", now) ∷ []))

  unfoldable pub activate_kill_switch : String → String → Exec r Unit
  activate_kill_switch reason activated_by = do
    actor ← or_raise (actor_of caller activated_by)
    write_halt "1" reason
    send (
        audit "kill_switch.activated"
          (field "reason" (text reason) (field "activated_by" (text actor) no_fields)))
    send (risk_event ("Kill switch activated by " ++ actor ++ ": " ++ reason))

  -- Confirmed, or a 400.
  abbrev pub confirmed : Bool → Exec r Unit
  confirmed confirm = if confirm then pure tt else or_raise none

  unfoldable pub reset_kill_switch : Bool → String → String → Exec r Unit
  reset_kill_switch confirm reason reset_by = do
    confirmed confirm
    actor ← or_raise (actor_of caller reset_by)
    write_halt "0" ""
    send (
        audit "kill_switch.reset"
          (field "reason" (text reason) (field "reset_by" (text actor) no_fields)))

  unfoldable pub toggle_strategy : String → Bool → Option String → Exec r Unit
  toggle_strategy strategy_type enabled latency_profile = do
    actor ← or_raise (actor_of caller "dashboard")
    send (
        hset (RedisKeys.strategy_state strategy_type) (
          ("enabled", toggle_flag enabled)
          ∷ ("last_updated", now)
          ∷ latency_fields latency_profile))
    send (
        configure strategy_type (
          field "enabled" (flag enabled) (
            field "latency_profile" (text_or_null latency_profile)
              (field "updated_at" (text now) (field "updated_by" (text actor) no_fields)))))
    send (
        audit "strategy.toggled" (
          field "strategy_type" (text strategy_type) (
            field "enabled" (flag enabled) (
              field "latency_profile" (text_or_null latency_profile)
                (field "toggled_by" (text actor) no_fields)))))

  -- The loop over the strategies.
  unfoldable pub hset_all : Dict String → List String → Exec r Unit
  hset_all m [] = pure tt
  hset_all m (strategy ∷ strategies) =
      send (hset (RedisKeys.strategy_state strategy) m) >> hset_all m strategies

  unfoldable pub bot_start : String → Bool → Exec r Unit
  bot_start started_by paper_mode = do
    actor ← or_raise (actor_of caller started_by)
    write_halt "0" ""
    hset_all
        (("enabled", "1") ∷ ("paper_mode", toggle_flag paper_mode) ∷ ("last_updated", now) ∷ [])
        sorted_strategies
    send (
        audit "bot.started" (
          field "started_by" (text actor) (
            field "paper_mode" (flag paper_mode)
              (field "strategies_enabled" (array (items_of sorted_strategies)) no_fields))))

  unfoldable pub bot_stop : String → String → Exec r Unit
  bot_stop stopped_by reason = do
    actor ← or_raise (actor_of caller stopped_by)
    write_halt "1" reason
    hset_all (("enabled", "0") ∷ ("last_updated", now) ∷ []) sorted_strategies
    send (audit "bot.stopped" (stop_details actor reason))
    send (risk_event ("Bot stopped by " ++ actor ++ ": " ++ reason))
