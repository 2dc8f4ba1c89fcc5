-- ===== src/Strategies/EdgeMonitor.antt =====
-- services/strategy/app/strategies/edge_monitor.py: the rolling win rate of a strategy, as the strategy
-- runner records it. The texts of its messages are left out.
pub mod Agreement
use messiah_fx_prod.Prelude.{
  ℕ, String, Bool, true, false, not, ◌&&◌, leb, length, Option, none, some, List, [], ◌∷◌,
  if◌then◌else◌,
}
use messiah_fx_prod.Prelude.Int.{ℤ, pos}
use messiah_fx_prod.Prelude.Text.{strip}
use messiah_fx_prod.Numbers.{Floats}
use messiah_fx_prod.Payload.{Value, Payload, text, num, object, no_fields, field, put}
use messiah_fx_prod.RedisKeys
use messiah_fx_prod.Redis.{
  Redis, Exec, pure, reads, or_raise, send, set_ex, delete, rpush, ltrim, expire, ◌>>=◌, ◌>>◌,
}
use messiah_fx_prod.Executor.Outcome.Keys.{edge_outcomes_key, edge_win_rate_key, edge_decayed_key}
use messiah_fx_prod.Executor.Outcome.Edge.{outcome, ints, win_rate_of}

-- What is asked of the monitor: the window, the healthy win rate and how far below it may fall.
pub record Monitor (fl : Floats) : Type 0 where
  pub window : ℕ
  pub baseline_win_rate : fl.F
  pub decay_threshold : fl.F

-- The status that is returned, and no win rate for an empty window.
pub record Status (fl : Floats) : Type 0 where
  pub win_rate : Option fl.F
  pub window_size : ℕ
  pub decayed : Bool

module _ {fl : Floats} {r : Redis fl} (monitor : Monitor fl) (now strategy : String) where
  -- `_notify`, which stamps the event
  abbrev pub notify : Payload fl → Exec r Unit
  notify event =
      send (rpush RedisKeys.notification_queue (object (put "timestamp" (text now) event)))

  abbrev pub decay : fl.F → ℕ → Exec r Bool
  decay win_rate window_size = do
    send (set_ex (edge_decayed_key strategy) "1" 14400)
    notify (
        field "event" (text "edge.decay_detected") (
          field "strategy" (text strategy) (
            field "win_rate" (num (fl.round win_rate 4)) (
              field "baseline" (num monitor.baseline_win_rate)
                (field "window_size" (num (fl.of_int (pos window_size))) no_fields)))))
    pure true

  abbrev pub recover : fl.F → ℕ → Exec r Bool
  recover win_rate window_size = do
    send (delete (edge_decayed_key strategy))
    notify (
        field "event" (text "edge.recovery") (
          field "strategy" (text strategy) (
            field "win_rate" (num (fl.round win_rate 4))
              (field "window_size" (num (fl.of_int (pos window_size))) no_fields))))
    pure false

  -- The flag after an outcome, for a window that is long enough.
  unfoldable pub watch : fl.F → ℕ → Exec r Bool
  watch win_rate window_size w =
      let already_decayed = r.exists (edge_decayed_key strategy) w.server in
      let below_threshold =
        fl.lt win_rate (fl.sub monitor.baseline_win_rate monitor.decay_threshold) in
      (if leb 10 window_size && below_threshold && not already_decayed
          then decay win_rate window_size
          else if leb 10 window_size && not below_threshold && already_decayed
          then recover win_rate window_size
          else pure already_decayed)
        w

  unfoldable pub check_window : List (Value fl) → Exec r (Status fl)
  check_window [] = pure (record { win_rate = none; window_size = 0; decayed = false })
  check_window (o ∷ raw) = do
    outcomes ← or_raise (ints (o ∷ raw))
    let win_rate = win_rate_of fl outcomes
    send (set_ex (edge_win_rate_key strategy) (fl.show (fl.round win_rate 4)) 86400)
    decayed ← watch win_rate (length outcomes)
    pure (record {
      win_rate = some (fl.round win_rate 4);
      window_size = length outcomes;
      decayed = decayed;
    })

  unfoldable pub record_outcome : Bool → Exec r (Status fl)
  record_outcome won = do
    send (rpush (edge_outcomes_key strategy) (outcome won))
    send (ltrim (edge_outcomes_key strategy) monitor.window)
    send (expire (edge_outcomes_key strategy) 86400)
    raw ← reads (r.list_at (edge_outcomes_key strategy))
    check_window raw
