-- ===== src/Risk/State.antt =====
-- services/risk/app/state.py: what the risk engine reads and writes in the hash risk:state. The clock
-- is an argument: `now` is an ISO timestamp and `today` an ISO date. A pipeline is its commands in a
-- row.
pub mod Decrement
use Prim.Native.String.{◌++◌}
use messiah_fx_prod.Prelude.{
  ℕ, ◌*◌, String, Bool, true, false, Option, none, some, List, [], ◌∷◌, map, ◌=ˢ◌, if◌then◌else◌,
}
use messiah_fx_prod.Prelude.Int.{ℤ, pos, ◌-ℤ◌, leb_ℤ}
use messiah_fx_prod.Prelude.ParseInt.{parse_int, show_int}
use messiah_fx_prod.Prelude.Dict.{Dict, lookup, insert}
use messiah_fx_prod.Numbers.{Floats, num_zero, or_zero}
use messiah_fx_prod.RedisKeys
use messiah_fx_prod.Redis.{
  Redis, Exec, pure, reads, or_raise, send, hincrby, set, set_ex, hset, risk_event, ◌>>=◌, ◌>>◌,
}

-- The new day's values of the daily counters.
abbrev pub daily_values : String → String → Dict String
daily_values today now =
    ("daily_pnl_usd", "0.0")
    ∷ ("daily_drawdown_pct", "0.0")
    ∷ ("funding_arb_signals_today", "0")
    ∷ ("stat_arb_signals_today", "0")
    ∷ ("swing_signals_today", "0")
    ∷ ("risk_date", today)
    ∷ ("last_updated", now)
    ∷ []

-- `int(text or 0)` of what HGET answered
abbrev pub int_or_zero : Option String → Option ℤ
int_or_zero none = some (pos 0)
int_or_zero (some s) = if s =ˢ "" then some (pos 0) else parse_int s

abbrev pub max_zero : ℤ → ℤ
max_zero n = if leb_ℤ n (pos 0) then pos 0 else n

-- `hash.get("risk_date") == today`
abbrev pub is_today : String → Option String → Bool
is_today today none = false
is_today today (some d) = d =ˢ today

module _ {fl : Floats} {r : Redis fl} where
  abbrev pub get_risk_hash : Exec r (Dict String)
  get_risk_hash = reads (r.hash_at RedisKeys.risk_state)

  unfoldable pub check_and_reset_daily : String → String → Exec r Bool
  check_and_reset_daily today now = do
    hash ← get_risk_hash
    if is_today today (lookup "risk_date" hash)
        then pure false
        else (do send (hset RedisKeys.risk_state (daily_values today now)); pure true)

  unfoldable pub increment_open_positions : String → Exec r ℤ
  increment_open_positions now = do
    new_val ← hincrby RedisKeys.risk_state "open_position_count"
    send (hset RedisKeys.risk_state (("last_updated", now) ∷ []))
    pure new_val

  unfoldable pub decrement_open_positions : String → Exec r ℤ
  decrement_open_positions now = do
    hash ← get_risk_hash
    current ← or_raise (int_or_zero (lookup "open_position_count" hash))
    let new_val = max_zero (current -ℤ pos 1)
    send (
        hset RedisKeys.risk_state
          (("open_position_count", show_int new_val) ∷ ("last_updated", now) ∷ []))
    pure new_val

  unfoldable pub increment_strategy_signal_count : String → Exec r Unit
  increment_strategy_signal_count strategy_type = do
    hincrby RedisKeys.risk_state (strategy_type ++ "_signals_today")
    pure tt

  unfoldable pub activate_halt : String → String → Exec r Unit
  activate_halt reason now = do
    send (set RedisKeys.halt "1")
    send (
        hset RedisKeys.risk_state
          (("trading_halted", "1") ∷ ("halt_reason", reason) ∷ ("last_updated", now) ∷ []))
    send (risk_event reason)

  unfoldable pub activate_cooldown : String → ℕ → String → Exec r Unit
  activate_cooldown strategy_type cooldown_minutes now =
      send (set_ex (RedisKeys.cooldown strategy_type) now (cooldown_minutes * 60))

module _ (fl : Floats) where
  -- The dict of the rows (strategy, exposure) that the query returned, onto `d`.
  by_strategy : Dict fl.F → List (String × fl.F) → Dict fl.F
  by_strategy d [] = d
  by_strategy d ((name, exposure) ∷ rows) = by_strategy (insert name (or_zero fl exposure) d) rows

  -- `none` is a failed query.
  unfoldable pub get_open_exposure : Option (List (String × fl.F)) → fl.F × Dict fl.F
  unfolding by_strategy
  get_open_exposure none = (num_zero fl, [])
  get_open_exposure (some rows) =
      let exposures = by_strategy [] rows in (fl.total (map (λ e. e.1) exposures), exposures)
