-- ===== src/Gateway/Control/Halting.antt =====
-- services/gateway/app/routes/control.py: the kill switch stops the executor until it is lifted.
use mathlib.Core.Path.{subst}
use mathlib.Core.Bool.{true≢false}
use messiah_fx_prod.Prelude.{
  String, Bool, true, false, ◌≡◌, refl, sym, ◌∙◌, Option, some, List, [], ◌∷◌,
}
use messiah_fx_prod.Prelude.Dict.{Dict}
use messiah_fx_prod.Numbers.{Floats}
use messiah_fx_prod.Payload.{Payload}
use messiah_fx_prod.RedisKeys
use messiah_fx_prod.Redis.{
  Redis, IsServer, Exec, World, Command, set, hset, audit, risk_event, configure, text_after,
  counts,
}
use messiah_fx_prod.Redis.Keeps.{Keeps, Keeps-after}
use messiah_fx_prod.Executor.Settings.{Settings}
use messiah_fx_prod.Executor.Desk.{Desk}
use messiah_fx_prod.Executor.Leg.{Outside}
use messiah_fx_prod.Executor.Legs.{Moment}
use messiah_fx_prod.Executor.Consumer.{handle}
use messiah_fx_prod.Executor.Consumer.Halt.{IsIdle, handle-IsIdle}
use messiah_fx_prod.Gateway.Control.{
  Caller, actor_of, write_halt, activate_kill_switch, reset_kill_switch, toggle_strategy, hset_all,
  bot_start, bot_stop, sorted_strategies,
}

-- A request to the control routes, with who asks and when.
pub data Request : Type 0 where
  kill : Caller → String → String → String → Request
  reset : Caller → String → Bool → String → String → Request
  toggle : Caller → String → String → Bool → Option String → Request
  start : Caller → String → String → Bool → Request
  stop : Caller → String → String → String → Request

-- A reset that is confirmed, and a start, lift the halt.
abbrev pub lifts : Request → Bool
lifts (reset caller now confirm reason by) = confirm
lifts (start caller now by paper_mode) = true
lifts _ = false

abbrev pub NoneLifts : List Request → Type 0
NoneLifts [] = Unit
NoneLifts (q ∷ requests) = (lifts q ≡ false) × NoneLifts requests

abbrev pub Halted : {fl : Floats} (r : Redis fl) → r.S → Type 0
Halted r s = r.text_at RedisKeys.halt s ≡ some "1"

module _ {fl : Floats} {r : Redis fl} where
  abbrev pub perform : Request → Exec r Unit
  perform (kill caller now reason by) = activate_kill_switch caller now reason by
  perform (reset caller now confirm reason by) = reset_kill_switch caller now confirm reason by
  perform (toggle caller now strategy_type enabled profile) =
      toggle_strategy caller now strategy_type enabled profile
  perform (start caller now by paper_mode) = bot_start caller now by paper_mode
  perform (stop caller now by reason) = bot_stop caller now by reason

  -- One request after the other, whether each returns or raises.
  abbrev pub perform_all : List Request → World r → World r
  perform_all [] w = w
  perform_all (q ∷ requests) w = perform_all requests (perform q w).1

module _ {fl : Floats} {r : Redis fl} (laws : IsServer r) where
  -- A command that leaves the flag of the halt.
  spares :
      (c : Command fl) (s : r.S)
      → counts c RedisKeys.halt ≡ false
      → ((old : Option String) → text_after c RedisKeys.halt old ≡ old)
      → Halted r s
      → Halted r (r.run c s)
  spares c s e k h = laws.text-run c RedisKeys.halt s e ∙ (k (r.text_at RedisKeys.halt s) ∙ h)

  hset_all-Halted :
      (caller : Caller) (now : String) (m : Dict String) (strategies : List String)
      → Keeps r (Halted r) (hset_all {r = r} caller now m strategies)
  unfolding hset_all
  hset_all-Halted caller now m [] w h = h
  hset_all-Halted caller now m (s ∷ strategies) w h =
      hset_all-Halted caller now m strategies _
        (spares (hset (RedisKeys.strategy_state s) m) w.server refl (λ old. refl) h)

  halts :
      (caller : Caller) (now reason : String) (w : World r)
      → Halted r (write_halt {r = r} caller now "1" reason w).1.server
  halts caller now reason w =
      spares (hset RedisKeys.risk_state _) _ refl (λ old. refl)
        (laws.text-run (set RedisKeys.halt "1") RedisKeys.halt w.server refl)

  perform-Halted : (q : Request) → lifts q ≡ false → Keeps r (Halted r) (perform {r = r} q)
  unfolding activate_kill_switch reset_kill_switch toggle_strategy bot_stop
  perform-Halted (kill caller now reason by) e w h =
      Keeps-after r (Halted r) _ (actor_of caller by, w) h
        λ actor w1 h1.
          spares (risk_event _) _ refl (λ old. refl)
            (spares (audit _ _) _ refl (λ old. refl) (halts caller now reason w1))
  perform-Halted (reset caller now false reason by) e w h = h
  perform-Halted (reset caller now true reason by) e w h = absurd (true≢false e)
  perform-Halted (toggle caller now strategy_type enabled profile) e w h =
      Keeps-after r (Halted r) _ (actor_of caller "dashboard", w) h
        λ actor w1 h1.
          spares (audit _ _) _ refl (λ old. refl)
            (spares (configure _ _) _ refl (λ old. refl)
              (spares (hset (RedisKeys.strategy_state strategy_type) _) w1.server refl (λ old. refl)
                h1))
  perform-Halted (start caller now by paper_mode) e w h = absurd (true≢false e)
  perform-Halted (stop caller now by reason) e w h =
      Keeps-after r (Halted r) _ (actor_of caller by, w) h
        λ actor w1 h1.
          Keeps-after r (Halted r) _
            (hset_all {r = r} caller now (("enabled", "0") ∷ ("last_updated", now) ∷ [])
              sorted_strategies (write_halt caller now "1" reason w1).1)
            (hset_all-Halted caller now (("enabled", "0") ∷ ("last_updated", now) ∷ [])
              sorted_strategies (write_halt caller now "1" reason w1).1
              (halts caller now reason w1))
            λ t w2 h2.
              spares (risk_event _) _ refl (λ old. refl)
                (spares (audit _ _) w2.server refl (λ old. refl) h2)

  perform_all-Halted :
      (requests : List Request) (w : World r)
      → NoneLifts requests
      → Halted r w.server
      → Halted r (perform_all requests w).server
  perform_all-Halted [] w k h = h
  perform_all-Halted (q ∷ requests) w k h =
      perform_all-Halted requests _ k.1 (perform-Halted q k.0 w h)

  kill-Halted :
      (caller : Caller) (now reason by actor : String) (w : World r)
      → actor_of caller by ≡ some actor
      → Halted r (activate_kill_switch {r = r} caller now reason by w).1.server
  unfolding activate_kill_switch
  kill-Halted caller now reason by actor w e = rw e (
      spares (risk_event _) _ refl (λ old. refl)
        (spares (audit _ _) _ refl (λ old. refl) (halts caller now reason w)))

  -- On a server that keeps the documented effect of its commands: once a caller who is let in has
  -- activated the kill switch, and after any further requests of which none is a confirmed reset or a
  -- start of the bot, a message of the execution queue sends no order, books nothing and records no
  -- result.
  pub kill-IsIdle :
      (outside : Outside fl) (settings : Settings fl) (moment : Moment fl) (fields : Payload fl)
      (msg_id : String) (caller : Caller) (now reason by actor : String) (requests : List Request)
      (w : World r) (d : Desk r)
      → actor_of caller by ≡ some actor
      → NoneLifts requests
      → d.world ≡ perform_all requests (activate_kill_switch caller now reason by w).1
      → IsIdle r d (handle outside settings moment fields msg_id d).1
  kill-IsIdle outside settings moment fields msg_id caller now reason by actor requests w d e k
        at_last =
      let halted : Halted r d.world.server =
        subst (λ (v : World r). Halted r v.server) (sym at_last)
          (perform_all-Halted requests _ k (kill-Halted caller now reason by actor w e)) in
      handle-IsIdle outside settings moment fields d halted msg_id
