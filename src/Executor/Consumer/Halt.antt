-- ===== src/Executor/Consumer/Halt.antt =====
-- services/executor/app/consumer.py: a halt stops the execution.
use messiah_fx_prod.Prelude.{String, ◌≡◌, refl, Option, none, some}
use messiah_fx_prod.Numbers.{Floats}
use messiah_fx_prod.Payload.{Payload, get, get_or, text}
use messiah_fx_prod.RedisKeys
use messiah_fx_prod.StreamNames
use messiah_fx_prod.Redis.{Redis}
use messiah_fx_prod.Executor.Settings.{Settings}
use messiah_fx_prod.Executor.Desk.{Desk, Call, after}
use messiah_fx_prod.Executor.Leg.{Outside}
use messiah_fx_prod.Executor.Legs.{Moment, as_text}
use messiah_fx_prod.Executor.Consumer.{
  load_payload, execute_payload, execute_loaded, process, handle, acknowledge,
}

-- No order was sent, nothing was booked and no result recorded.
pub record IsIdle {fl : Floats} (r : Redis fl) (before later : Desk r) : Type 0 where
  pub no_order : later.submitted ≡ before.submitted
  pub no_booking : later.books ≡ before.books
  pub no_result : later.results ≡ before.results

module _ {fl : Floats} {r : Redis fl} where
  idle : (d : Desk r) → IsIdle r d d
  idle d = record { no_order = refl; no_booking = refl; no_result = refl }

  after-IsIdle :
      {A B : Type 0} (f : A → Call r B) (o : Option A) (d : Desk r)
      → ((a : A) → IsIdle r d (f a d).1)
      → IsIdle r d (after f (o, d)).1
  after-IsIdle f none d h = idle d
  after-IsIdle f (some a) d h = h a

  acknowledge-IsIdle :
      {A : Type 0} (msg_id : String) (o : Option A) (d before : Desk r)
      → IsIdle r before d
      → IsIdle r before (acknowledge msg_id o d).1
  acknowledge-IsIdle msg_id none d before h = h
  acknowledge-IsIdle msg_id (some a) d before h = record {
    no_order = h.no_order;
    no_booking = h.no_booking;
    no_result = h.no_result;
  }

  module _ (outside : Outside fl) (settings : Settings fl) (moment : Moment fl)
      (fields : Payload fl) (d : Desk r)
      (halted : r.text_at RedisKeys.halt d.world.server ≡ some "1") where
    execute_payload-IsIdle :
        (payload : Payload fl)
        → IsIdle r d (execute_payload outside settings moment fields payload d).1
    unfolding execute_payload
    execute_payload-IsIdle payload =
        after-IsIdle _ (as_text (get_or "strategy_type" (text "unknown") payload)) d
          λ strategy_type.
            after-IsIdle _ (as_text (get_or "venue" (text "unknown") payload)) d
              λ venue. rw halted (record { no_order = refl; no_booking = refl; no_result = refl })

    execute_loaded-IsIdle :
        (o : Option (Payload fl)) → IsIdle r d (execute_loaded outside settings moment fields o d).1
    execute_loaded-IsIdle none = idle d
    execute_loaded-IsIdle (some payload) = execute_payload-IsIdle payload

    -- While risk:halt is 1, a message of the execution queue sends no order, books nothing and records
    -- no result, whatever it holds and whether its processing returns or raises.
    pub handle-IsIdle :
        (msg_id : String) → IsIdle r d (handle outside settings moment fields msg_id d).1
    unfolding handle process
    handle-IsIdle msg_id =
        acknowledge-IsIdle msg_id _ _ d
          (after-IsIdle _ (load_payload (get StreamNames.payload fields)) d execute_loaded-IsIdle)
