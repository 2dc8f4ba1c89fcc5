-- ===== src/Risk/Consumer/Untouched.antt =====
-- services/risk/app/consumer.py and state.py: which commands leave the count of open positions alone.
use Prim.Native.String.{◌++◌}
use messiah_fx_prod.Prelude.{
  ℕ, ◌*◌, String, Bool, true, false, not, ◌&&◌, ◌≡◌, refl, Option, none, some, ◌=ˢ◌, if◌then◌else◌,
  inl, inr, Bool-cases,
}
use messiah_fx_prod.Prelude.Int.{pos}
use messiah_fx_prod.Prelude.ParseInt.{show_int}
use messiah_fx_prod.Prelude.Text.Affixes.{prefix_ne_sym, suffix_ne_sym}
use messiah_fx_prod.Prelude.Dict.{lookup}
use messiah_fx_prod.Numbers.{Floats}
use messiah_fx_prod.Payload.{Payload, Value, null, flag, num, text, array, object}
use messiah_fx_prod.RedisKeys
use messiah_fx_prod.Redis.{
  Redis, IsServer, Exec, Command, pure, set, set_ex, hset, hincr, audit, xadd, rpush, risk_event,
  upsert, ◌>>◌,
}
use messiah_fx_prod.Redis.Keeps.{Keeps, Keeps-after, HasField-run, Spares, HasField}
use messiah_fx_prod.Risk.Settings.{Settings}
use messiah_fx_prod.Risk.Checker.{CheckResult}
use messiah_fx_prod.Risk.State.{
  daily_values, is_today, check_and_reset_daily, activate_halt, activate_cooldown,
}
use messiah_fx_prod.Risk.Consumer.{Moment, notify, upsert_opportunity, react, refuse}

cooldown-Spares :
    (fl : Floats) (s t : String) (n : ℕ)
    → Spares {fl = fl}
        (set_ex (RedisKeys.cooldown s) t n)
        RedisKeys.risk_state
        "open_position_count"
cooldown-Spares fl s t n =
    let apart : (RedisKeys.risk_state =ˢ RedisKeys.cooldown s) ≡ false =
      prefix_ne_sym "risk:cooldown:" s RedisKeys.risk_state refl in
    (refl, λ old. rw apart)

pub signals-Spares :
    (fl : Floats) (s : String)
    → Spares {fl = fl}
        (hincr RedisKeys.risk_state (s ++ "_signals_today"))
        RedisKeys.risk_state
        "open_position_count"
signals-Spares fl s =
    let apart : ("open_position_count" =ˢ s ++ "_signals_today") ≡ false =
      suffix_ne_sym s "_signals_today" "open_" "position_count" refl refl in
    (rw apart, λ old. refl)

-- risk:state counts `n` open positions.
abbrev pub Counts : {fl : Floats} (r : Redis fl) → ℕ → r.S → Type 0
Counts r n = HasField r RedisKeys.risk_state "open_position_count" (show_int (pos n))

module _ {fl : Floats} {r : Redis fl} (laws : IsServer r) where
  module _ (n : ℕ) where
    pub run_keeps :
        (c : Command fl)
        → Spares c RedisKeys.risk_state "open_position_count"
        → (s : r.S) → Counts r n s
        → Counts r n (r.run c s)
    run_keeps c spares =
        HasField-run r laws RedisKeys.risk_state "open_position_count" (show_int (pos n)) c spares

    pub reset-Keeps : (today now : String) → Keeps r (Counts r n) (check_and_reset_daily today now)
    unfolding check_and_reset_daily
    reset-Keeps today now w h =
        elim (Bool-cases
          (is_today today (lookup "risk_date" (r.hash_at RedisKeys.risk_state w.server)))) [
            | inl on ↦ rw on h
            | inr off ↦ rw off (
                run_keeps (hset RedisKeys.risk_state (daily_values today now)) (refl, λ old. refl)
                  w.server h)
          ]

    halt-Keeps : (reason now : String) → Keeps r (Counts r n) (activate_halt {r = r} reason now)
    unfolding activate_halt
    halt-Keeps reason now w h =
        run_keeps (risk_event reason) (refl, λ old. refl) _
          (run_keeps (hset _ _) (refl, λ old. refl) _
            (run_keeps (set RedisKeys.halt "1") (refl, λ old. refl) w.server h))

    cooldown-Keeps :
        (s now : String) (minutes : ℕ)
        → Keeps r (Counts r n) (activate_cooldown {r = r} s minutes now)
    unfolding activate_cooldown
    cooldown-Keeps s now minutes w h =
        run_keeps (set_ex (RedisKeys.cooldown s) now (minutes * 60))
          (cooldown-Spares fl s now (minutes * 60)) w.server h

    pub upsert-Keeps :
        (id : Option (Value fl)) (d : Payload fl)
        → Keeps r (Counts r n) (upsert_opportunity {r = r} id d)
    upsert-Keeps (some (text id)) d w h = elim (Bool-cases (id =ˢ "")) [
      | inl on ↦ rw on h
      | inr off ↦ rw off (run_keeps (upsert id d) (refl, λ old. refl) w.server h)
    ]
    upsert-Keeps (some null) d w h = h
    upsert-Keeps (some (flag b)) d w h = h
    upsert-Keeps (some (num x)) d w h = h
    upsert-Keeps (some (array xs)) d w h = h
    upsert-Keeps (some (object xs)) d w h = h
    upsert-Keeps none d w h = h

    module _ (event now : String) (d : Payload fl) {A : Type 0} (m : Exec r A)
        (keeps : Keeps r (Counts r n) m) where
      -- A step and the notification of it, where a flag asks for them.
      noted-Keeps :
          (b : Bool) → Keeps r (Counts r n) (if b then m >> notify event now d else pure tt)
      noted-Keeps true w h =
          Keeps-after r (Counts r n) (λ a. notify event now d) (m w) (keeps w h)
            λ a w1 h1. run_keeps (rpush _ _) (refl, λ old. refl) w1.server h1
      noted-Keeps false w h = h

    module _ (settings : Settings fl) (moment : Moment fl) (fields : Payload fl)
        (strategy_type : String) (result : CheckResult) where
      react-Keeps : Keeps r (Counts r n) (react settings moment fields strategy_type result)
      unfolding react
      react-Keeps w h =
          Keeps-after r (Counts r n) _ _ (noted-Keeps _ _ _ _ (halt-Keeps _ _) result.auto_halt w h)
            λ a.
              noted-Keeps _ _ _ _ (cooldown-Keeps _ _ _)
                (result.trigger_cooldown && not (strategy_type =ˢ ""))

      pub refuse-Keeps :
          (opportunity : Payload fl) (symbol : Value fl)
          → Keeps r
              (Counts r n)
              (refuse settings moment fields opportunity strategy_type symbol result)
      unfolding refuse
      refuse-Keeps opportunity symbol w h =
          Keeps-after r (Counts r n) _ _
            (react-Keeps _ (
              run_keeps (audit _ _) (refl, λ old. refl) _
                (run_keeps (xadd _ _) (refl, λ old. refl) w.server h)))
            (λ a w1 h1. h1)
