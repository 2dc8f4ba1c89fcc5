-- ===== src/Executor/Outcome/Edge.antt =====
-- services/executor/app/consumer.py, _record_outcome: the rolling window of outcomes, its win rate and
-- the flag of a decayed edge.
use mathlib.Core.List.{foldl}
use messiah_fx_prod.Prelude.{
  String, Bool, not, ◌&&◌, leb, length, Option, none, some, List, [], ◌∷◌, if◌then◌else◌,
}
use messiah_fx_prod.Prelude.Int.{ℤ, pos, ◌+ℤ◌}
use messiah_fx_prod.Prelude.ParseInt.{parse_int}
use messiah_fx_prod.Numbers.{Floats}
use messiah_fx_prod.Payload.{Value, text, num, no_fields, field}
use messiah_fx_prod.Redis.{
  Redis, Exec, pure, reads, or_raise, send, set_ex, delete, rpush, ltrim, expire, ◌>>=◌, ◌>>◌,
}
use messiah_fx_prod.Executor.Settings.{Settings}
use messiah_fx_prod.Executor.Outcome.Keys.{
  edge_outcomes_key, edge_win_rate_key, edge_decayed_key, edge_min_sample, rotation_ttl, edge_ttl,
}
use messiah_fx_prod.Executor.Outcome.Rotation.{notify}

abbrev pub win_rate_of : (fl : Floats) → List ℤ → fl.F
win_rate_of fl outcomes =
    fl.div (fl.of_int (foldl ◌+ℤ◌ (pos 0) outcomes)) (fl.of_int (pos (length outcomes)))

abbrev pub int_with : Option ℤ → Option (List ℤ) → Option (List ℤ)
int_with (some n) (some ns) = some (n ∷ ns)
int_with _ _ = none

module _ {fl : Floats} where
  abbrev pub outcome : Bool → Value fl
  outcome won = text (if won then "1" else "0")

  -- `[int(o) for o in raw]`
  abbrev pub int_of : Value fl → Option ℤ
  int_of (text s) = parse_int s
  int_of _ = none

  abbrev pub ints : List (Value fl) → Option (List ℤ)
  ints [] = some []
  ints (o ∷ raw) = int_with (int_of o) (ints raw)

  abbrev pub is_below : Settings fl → fl.F → Bool
  is_below settings win_rate =
      fl.lt win_rate (fl.sub settings.edge_baseline_win_rate settings.edge_decay_threshold)

  module _ {r : Redis fl} (settings : Settings fl) (now strategy : String) where
    abbrev pub alert_decay : fl.F → List ℤ → Exec r Unit
    alert_decay win_rate outcomes = do
      send (set_ex (edge_decayed_key strategy) "1" rotation_ttl)
      notify now "edge.decay_detected" (
          field "strategy" (text strategy) (
            field "win_rate" (num (fl.round win_rate 4))
              (field "window_size" (num (fl.of_int (pos (length outcomes)))) no_fields)))

    -- The flag is set for a window that is long enough, and removed at any length.
    unfoldable pub flag_decay : fl.F → List ℤ → Exec r Unit
    flag_decay win_rate outcomes w =
        let already_decayed = r.exists (edge_decayed_key strategy) w.server in
        let below = is_below settings win_rate in
        (if below && not already_decayed && leb edge_min_sample (length outcomes)
            then alert_decay win_rate outcomes
            else if not below && already_decayed
            then send (delete (edge_decayed_key strategy))
            else pure tt)
          w

    unfoldable pub record_win_rate : List (Value fl) → Exec r Unit
    record_win_rate [] = pure tt
    record_win_rate (o ∷ raw) = do
      outcomes ← or_raise (ints (o ∷ raw))
      let win_rate = win_rate_of fl outcomes
      send (set_ex (edge_win_rate_key strategy) (fl.show (fl.round win_rate 4)) edge_ttl)
      flag_decay win_rate outcomes

    unfoldable pub record_edge : Bool → Exec r Unit
    record_edge won = do
      send (rpush (edge_outcomes_key strategy) (outcome won))
      send (ltrim (edge_outcomes_key strategy) settings.edge_monitor_window)
      send (expire (edge_outcomes_key strategy) edge_ttl)
      raw ← reads (r.list_at (edge_outcomes_key strategy))
      record_win_rate raw
