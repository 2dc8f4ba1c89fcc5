-- ===== src/Risk/Consumer/Counting.antt =====
-- services/risk/app/consumer.py and state.py: how an approval counts the open positions.
use Prim.Native.String.{◌++◌}
use messiah_fx_prod.Prelude.{ℕ, ◌+◌, String, true, ◌≡◌, refl, some, [], ◌∷◌}
use messiah_fx_prod.Prelude.Int.{ℤ}
use messiah_fx_prod.Numbers.{Floats}
use messiah_fx_prod.Payload.{Payload, Value}
use messiah_fx_prod.RedisKeys
use messiah_fx_prod.Redis.{
  Redis, IsServer, World, hset, hincr, xadd, audit, hincrby, pure, send, ◌>>◌,
}
use messiah_fx_prod.Redis.Keeps.{Keeps, Keeps-after}
use messiah_fx_prod.Risk.Settings.{Settings}
use messiah_fx_prod.Risk.Checker.{CheckResult}
use messiah_fx_prod.Risk.Checker.Conditions.{Approves, HasRoom}
use messiah_fx_prod.Risk.Checker.Approval.{run_checks-IsAdmissible}
use messiah_fx_prod.Risk.State.{increment_open_positions, increment_strategy_signal_count}
use messiah_fx_prod.Risk.Consumer.{Moment, approve, check}
use messiah_fx_prod.Risk.Consumer.Untouched.{Counts, signals-Spares, run_keeps}

module _ {fl : Floats} {r : Redis fl} (laws : IsServer r) where
  hincrby_server :
      (k f : String) (m : ℤ) (w : World r)
      → r.incr_reply k f w.server ≡ some m
      → (hincrby {r = r} k f w).1.server ≡ r.run (hincr k f) w.server
  hincrby_server k f m w e = rw e refl

  -- One more open position.
  increment-Counts :
      (n : ℕ) (now : String) (w : World r)
      → Counts r n w.server
      → Counts r (n + 1) (increment_open_positions {r = r} now w).1.server
  unfolding increment_open_positions
  increment-Counts n now w h =
      let (reply, after_it) =
        laws.incr-run RedisKeys.risk_state "open_position_count" w.server n h in
      let before : Counts r (n + 1)
          (hincrby {r = r} RedisKeys.risk_state "open_position_count" w).1.server =
        rw (hincrby_server RedisKeys.risk_state "open_position_count" _ w reply) after_it in
      Keeps-after r (Counts r (n + 1)) _
        (hincrby {r = r} RedisKeys.risk_state "open_position_count" w) before
        λ a w1.
          run_keeps laws (n + 1) (hset RedisKeys.risk_state (("last_updated", now) ∷ []))
            (refl, λ old. refl) w1.server

  signal-Counts :
      (n : ℕ) (s : String) → Keeps r (Counts r n) (increment_strategy_signal_count {r = r} s)
  unfolding increment_strategy_signal_count
  signal-Counts n s w h =
      let counter = s ++ "_signals_today" in
      Keeps-after r (Counts r n) (λ a. pure {r = r} tt) (hincrby RedisKeys.risk_state counter w)
        (Keeps-after r (Counts r n)
          (λ a. send {r = r} (hincr RedisKeys.risk_state counter) >> pure a)
          (r.incr_reply RedisKeys.risk_state counter w.server, w) h
          λ a w1.
            run_keeps laws n (hincr RedisKeys.risk_state counter) (signals-Spares fl s) w1.server)
        (λ a w1 h1. h1)

  module _ (settings : Settings fl) (moment : Moment fl) (fields : Payload fl) where
    pub approve-Counts :
        (n : ℕ) (opportunity : Payload fl) (s : String) (symbol : Value fl) (result : CheckResult)
        (w : World r)
        → Counts r n w.server
        → Counts r (n + 1) (approve settings moment fields opportunity s symbol result w).1.server
    unfolding approve
    approve-Counts n opportunity s symbol result w h =
        Keeps-after r (Counts r (n + 1)) _ (increment_open_positions moment.now w)
          (increment-Counts n moment.now w h)
          λ a w1 h1.
            Keeps-after r (Counts r (n + 1)) _ (increment_strategy_signal_count s w1)
              (signal-Counts (n + 1) s w1 h1)
              λ b w2 h2.
                run_keeps laws (n + 1) (audit _ _) (refl, λ old. refl) _
                  (run_keeps laws (n + 1) (xadd _ _) (refl, λ old. refl) w2.server h2)

    -- The checks read the server only, and an approval means that there is room.
    check_reads :
        (opportunity : Payload fl) (s : String) (w : World r)
        → (check settings moment fields opportunity s w).1 ≡ w
    unfolding check
    check_reads opportunity s w = refl

    pub check-HasRoom :
        (opportunity : Payload fl) (s : String) (w : World r) (result : CheckResult)
        → (check settings moment fields opportunity s w).0 ≡ some result
        → result.approved ≡ true
        → HasRoom settings (r.hash_at RedisKeys.risk_state w.server)
    unfolding check
    check-HasRoom opportunity s w result e h =
        let approved : Approves (check settings moment fields opportunity s w).0 = rw e h in
        (run_checks-IsAdmissible settings _ _ _ _ _ _ _ _ approved).room
