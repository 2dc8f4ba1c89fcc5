-- ===== src/Risk/Consumer/PositionCap.antt =====
-- services/risk/app/consumer.py and state.py: the count of open positions over a run of messages.
use mathlib.Core.Path.{subst}
use messiah_fx_prod.Prelude.{
  ℕ, ◌+◌, String, true, false, ◌≡◌, refl, Option, none, some, List, [], ◌∷◌, if◌then◌else◌, arith,
}
use messiah_fx_prod.Prelude.Int.{ℤ, pos, negsuc, leb_ℤ}
use messiah_fx_prod.Prelude.ParseInt.Digits.{parse-show_int}
use messiah_fx_prod.Numbers.{Floats}
use messiah_fx_prod.Payload.{Payload, Value, get, get_or, text}
use messiah_fx_prod.RedisKeys
use messiah_fx_prod.StreamNames
use messiah_fx_prod.Redis.{Redis, IsServer, World, after, Exec, xack, ◌>>=◌}
use messiah_fx_prod.Redis.Keeps.{Keeps, Keeps-after, Keeps-test}
use messiah_fx_prod.Risk.Settings.{Settings}
use messiah_fx_prod.Risk.Checker.{CheckResult, read_int}
use messiah_fx_prod.Risk.Checker.Conditions.{HasRoom}
use messiah_fx_prod.Risk.State.{check_and_reset_daily}
use messiah_fx_prod.Risk.Consumer.{
  Moment, upsert_opportunity, approve, refuse, check, process, handle, run, load_opportunity,
  as_text,
}
use messiah_fx_prod.Risk.Consumer.Counting.{approve-Counts, check-HasRoom}
use messiah_fx_prod.Risk.Consumer.Untouched.{
  Counts, run_keeps, reset-Keeps, upsert-Keeps, refuse-Keeps,
}

-- risk:state counts at most `limit` open positions.
abbrev pub IsWithin : {fl : Floats} (r : Redis fl) → ℤ → r.S → Type 0
IsWithin r limit s = (n : ℕ) × Counts r n s × (leb_ℤ (pos n) limit ≡ true)

module _ {fl : Floats} {r : Redis fl} (laws : IsServer r) where
  room_for : (limit : ℤ) (n : ℕ) → leb_ℤ limit (pos n) ≡ false → leb_ℤ (pos (n + 1)) limit ≡ true
  room_for (pos l) n h = ground arith
  room_for (negsuc l) n h = ground arith

  module _ (settings : Settings fl) where
    approve-IsWithin :
        (moment : Moment fl) (fields opportunity : Payload fl) (s : String) (symbol : Value fl)
        (result : CheckResult) (w : World r) (n : ℕ)
        → Counts r n w.server
        → HasRoom settings (r.hash_at RedisKeys.risk_state w.server)
        → IsWithin r settings.risk_max_open_positions
            (approve settings moment fields opportunity s symbol result w).1.server
    approve-IsWithin moment fields opportunity s symbol result w n h room =
        let read : read_int "open_position_count" (r.hash_at RedisKeys.risk_state w.server)
            ≡ some (pos n) =
          rw (h, read_int) (parse-show_int n) in
        let same : room.positions ≡ pos n = cc in
        let below : leb_ℤ settings.risk_max_open_positions (pos n) ≡ false =
          subst (λ m. leb_ℤ settings.risk_max_open_positions m ≡ false) same room.positions_below in
        (
          n + 1,
          approve-Counts laws settings moment fields n opportunity s symbol result w h,
          room_for _ n below,
        )

    module _ (moment : Moment fl) (fields opportunity : Payload fl) (s : String) (symbol : Value fl)
        (id : Option (Value fl)) where
      -- What `process` does with the result of the checks.
      route : CheckResult → Exec r Unit
      route result =
          (if result.approved
            then approve settings moment fields opportunity s symbol result
            else refuse settings moment fields opportunity s symbol result)
          >>= upsert_opportunity id

      module _ (w : World r) (h : IsWithin r settings.risk_max_open_positions w.server) where
        route-IsWithin :
            (o : Option CheckResult)
            → (check settings moment fields opportunity s w).0 ≡ o
            → IsWithin r settings.risk_max_open_positions (after route (o, w)).1.server
        unfolding route
        route-IsWithin none e = h
        route-IsWithin (some result) e =
            let (n, counts, below) = h in
            Keeps-after r (IsWithin r settings.risk_max_open_positions) (upsert_opportunity id)
              ((if result.approved
                  then approve settings moment fields opportunity s symbol result
                  else refuse settings moment fields opportunity s symbol result)
                w)
              (Keeps-test r (IsWithin r settings.risk_max_open_positions) result.approved
                (approve settings moment fields opportunity s symbol result)
                (refuse settings moment fields opportunity s symbol result) w
                (λ on.
                  approve-IsWithin moment fields opportunity s symbol result w n counts
                    (check-HasRoom laws settings moment fields opportunity s w result e on))
                (λ off. (
                  n,
                  refuse-Keeps laws n settings moment fields s result opportunity symbol w counts,
                  below,
                )))
              (λ enriched w1 (m, counts1, below1).
                (m, upsert-Keeps laws m id enriched w1 counts1, below1))

    process-IsWithin :
        (moment : Moment fl) (fields : Payload fl)
        → Keeps r (IsWithin r settings.risk_max_open_positions) (process settings moment fields)
    unfolding process route check
    process-IsWithin moment fields w h =
        let cap = IsWithin r settings.risk_max_open_positions in
        Keeps-after r cap _ (load_opportunity (get StreamNames.payload fields), w) h
          λ opportunity w1 h1.
            Keeps-after r cap _
              (
                as_text (
                    get_or "strategy_type" (get_or StreamNames.strategy_type (text "") fields)
                      opportunity),
                w1,
              )
              h1
              λ s w2 (n, counts, below).
                Keeps-after r cap _ (check_and_reset_daily moment.today moment.now w2)
                  (n, reset-Keeps laws n moment.today moment.now w2 counts, below)
                  λ b w3 h3.
                    route-IsWithin moment fields opportunity s
                      (get_or "symbol_primary" (get_or StreamNames.symbol_primary (text "") fields)
                        opportunity)
                      (get StreamNames.opportunity_id fields) w3 h3 _ refl

    -- Whatever the messages of signals:approved hold and whatever the times and the exposure rows are,
    -- and whether their handling returns or raises: if risk:state counts at most
    -- RISK_MAX_OPEN_POSITIONS open positions, it counts at most that many after all are handled. The
    -- server is one that keeps the documented effect of the commands.
    pub run-IsWithin :
        (entries : List (String × Payload fl × Moment fl)) (w : World r)
        → IsWithin r settings.risk_max_open_positions w.server
        → IsWithin r settings.risk_max_open_positions (run settings entries w).1.server
    unfolding run handle
    run-IsWithin [] w h = h
    run-IsWithin ((msg_id, fields, moment) ∷ entries) w h =
        let (n, counts, below) = process-IsWithin moment fields w h in
        run-IsWithin entries _ (
          n,
          run_keeps laws n (xack RedisKeys.signals_approved "risk" msg_id) (refl, λ old. refl) _
              counts,
          below,
        )
