-- ===== src/Strategies/EdgeMonitor/Agreement.antt =====
-- services/strategy/app/strategies/edge_monitor.py: where it agrees with the executor's own copy.
use Prim.Native.String.{String}
use mathlib.Core.Bool.{false≢true}
use messiah_fx_prod.Prelude.{
  ℕ, suc, Bool, true, false, leb, length, ◌≡◌, refl, sym, ◌∙◌, ap, Option, none, some, List, [],
  ◌∷◌, ◌=ˢ◌, inl, inr, Bool-cases,
}
use messiah_fx_prod.Prelude.Int.{ℤ}
use messiah_fx_prod.Numbers.{Floats}
use messiah_fx_prod.Payload.{Value}
use messiah_fx_prod.RedisKeys
use messiah_fx_prod.Redis.{Redis, IsServer, World, send, pure, set_ex, rpush, ltrim, expire}
use messiah_fx_prod.Redis.Keeps.{Keeps-after}
use messiah_fx_prod.Executor.Settings.{Settings}
use messiah_fx_prod.Executor.Outcome.Keys.{
  edge_decayed_key, edge_win_rate_key, edge_outcomes_key, edge_ttl,
}
use messiah_fx_prod.Executor.Outcome.Edge.{
  outcome, flag_decay, int_with, int_of, is_below, record_win_rate, record_edge, ints, win_rate_of,
}
use messiah_fx_prod.Strategies.EdgeMonitor.{Monitor, watch, check_window, record_outcome}

-- Two servers that hold the same texts, and the same lists but for the notifications.
pub record IsAlike {fl : Floats} (r : Redis fl) (s t : r.S) : Type 0 where
  pub same_text : (k : String) → r.text_at k s ≡ r.text_at k t
  pub same_list :
      (k : String) → (k =ˢ RedisKeys.notification_queue) ≡ false → r.list_at k s ≡ r.list_at k t

-- The executor's settings, asked of the monitor.
abbrev pub monitor_of : {fl : Floats} → Settings fl → Monitor fl
monitor_of settings = record {
  window = settings.edge_monitor_window;
  baseline_win_rate = settings.edge_baseline_win_rate;
  decay_threshold = settings.edge_decay_threshold;
}

module _ {fl : Floats} {r : Redis fl} (laws : IsServer r) where
  pub IsAlike-refl : (s : r.S) → IsAlike r s s
  IsAlike-refl s = record { same_text = λ k. refl; same_list = λ k e. refl }

  -- A notification more on either side.
  pub notice-IsAlike :
      (v : Value fl) (s t : r.S)
      → IsAlike r s t
      → IsAlike r (r.run (rpush RedisKeys.notification_queue v) s) t
  notice-IsAlike v s t h = record {
    same_text = λ k. laws.text-run _ k s refl ∙ h.same_text k;
    same_list = λ k e. laws.list-run _ k s ∙ rw e (h.same_list k e);
  }

  pub IsAlike-sym : (s t : r.S) → IsAlike r s t → IsAlike r t s
  IsAlike-sym s t h = record {
    same_text = λ k. sym (h.same_text k);
    same_list = λ k e. sym (h.same_list k e);
  }

  -- A notification more on both sides.
  pub both_told :
      (u v : Value fl) (s : r.S)
      → IsAlike r
          (r.run (rpush RedisKeys.notification_queue u) s)
          (r.run (rpush RedisKeys.notification_queue v) s)
  both_told u v s = notice-IsAlike u s _ (IsAlike-sym _ s (notice-IsAlike v s s (IsAlike-refl s)))

  module _ (settings : Settings fl) (now strategy : String) where
    -- The two flags after the same win rate.
    flag-IsAlike :
        (rate : fl.F) (outcomes : List ℤ) (w : World r)
        → leb 10 (length outcomes) ≡ true
        → IsAlike r
            (flag_decay settings now strategy rate outcomes w).1.server
            (watch (monitor_of settings) now strategy rate (length outcomes) w).1.server
    unfolding flag_decay watch
    flag-IsAlike rate outcomes w long = elim (Bool-cases (is_below settings rate)) [
      | inl below ↦ elim (Bool-cases (r.exists (edge_decayed_key strategy) w.server)) [
        | inl already ↦ rw (long, below, already) (IsAlike-refl w.server)
        | inr new ↦ rw (long, below, new) (both_told _ _ _)
      ]
      | inr above ↦ elim (Bool-cases (r.exists (edge_decayed_key strategy) w.server)) [
        | inl already ↦
            rw (long, above, already) (IsAlike-sym _ _ (notice-IsAlike _ _ _ (IsAlike-refl _)))
        | inr new ↦ rw (long, above, new) (IsAlike-refl w.server)
      ]
    ]

    length-int_with :
        (n : Option ℤ) (ns : Option (List ℤ)) (outcomes : List ℤ) (k : ℕ)
        → int_with n ns ≡ some outcomes
        → ((ms : List ℤ) → ns ≡ some ms → length ms ≡ k)
        → length outcomes ≡ suc k
    length-int_with none ns outcomes k e h = cc e
    length-int_with (some n) none outcomes k e h = cc e
    length-int_with (some n) (some ns) outcomes k e h =
        let parts : n ∷ ns ≡ outcomes = cc e in ap length (sym parts) ∙ ap suc (h ns refl)

    length-ints :
        (raw : List (Value fl)) (outcomes : List ℤ)
        → ints raw ≡ some outcomes
        → length outcomes ≡ length raw
    length-ints [] outcomes e = let parts : [] ≡ outcomes = cc e in ap length (sym parts)
    length-ints (o ∷ raw) outcomes e =
        length-int_with (int_of o) (ints raw) outcomes (length raw) e λ ms h. length-ints raw ms h

    -- What follows the reading of the window.
    read-IsAlike :
        (o : Value fl) (raw : List (Value fl)) (w : World r) (read : Option (List ℤ))
        → ints (o ∷ raw) ≡ read
        → leb 10 (length (o ∷ raw)) ≡ true
        → IsAlike r
            (record_win_rate settings now strategy (o ∷ raw) w).1.server
            (check_window (monitor_of settings) now strategy (o ∷ raw) w).1.server
    unfolding record_win_rate check_window
    read-IsAlike o raw w none e long = rw e (IsAlike-refl w.server)
    read-IsAlike o raw w (some outcomes) e long =
        let enough : leb 10 (length outcomes) ≡ true = rw (length-ints (o ∷ raw) outcomes e) long in
        let rate = win_rate_of fl outcomes in
        let w1 =
          (send {r = r} (set_ex (edge_win_rate_key strategy) (fl.show (fl.round rate 4)) edge_ttl)
            w).1 in
        rw e (
          Keeps-after r (IsAlike r (flag_decay settings now strategy rate outcomes w1).1.server)
            (λ decayed. pure {r = r} (record {
              win_rate = some (fl.round rate 4);
              window_size = length outcomes;
              decayed = decayed;
            }))
            (watch (monitor_of settings) now strategy rate (length outcomes) w1)
            (flag-IsAlike rate outcomes w1 enough) λ decayed w2 h. h)

    window-IsAlike :
        (raw : List (Value fl)) (w : World r)
        → leb 10 (length raw) ≡ true
        → IsAlike r
            (record_win_rate settings now strategy raw w).1.server
            (check_window (monitor_of settings) now strategy raw w).1.server
    window-IsAlike [] w long = absurd (false≢true long)
    window-IsAlike (o ∷ raw) w long = read-IsAlike o raw w (ints (o ∷ raw)) refl long

    -- The outcomes in the window once another is recorded.
    abbrev pub window_after : Bool → r.S → List (Value fl)
    window_after won s =
        let key = edge_outcomes_key strategy in
        r.list_at key (
          r.run (expire key edge_ttl)
            (r.run (ltrim key settings.edge_monitor_window) (r.run (rpush key (outcome won)) s)))

    -- On a server that keeps the documented effect of its commands: where the window holds at least ten
    -- outcomes, the executor and the edge monitor with the executor's settings leave the same texts, and
    -- the same lists but for the notifications.
    pub record_outcome-IsAlike :
        (won : Bool) (w : World r)
        → leb 10 (length (window_after won w.server)) ≡ true
        → IsAlike r
            (record_edge settings now strategy won w).1.server
            (record_outcome (monitor_of settings) now strategy won w).1.server
    unfolding record_edge record_outcome
    record_outcome-IsAlike won w long = window-IsAlike (window_after won w.server) _ long
