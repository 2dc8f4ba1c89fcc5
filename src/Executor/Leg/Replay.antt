-- ===== src/Executor/Leg/Replay.antt =====
-- services/executor/app/consumer.py and idempotency.py: a leg that is executed again.
use messiah_fx_prod.Prelude.{String, true, ◌≡◌, refl, Option, none, some, ◌=ˢ◌, eq_iff}
use messiah_fx_prod.Prelude.Dict.{lookup, lookup-insert}
use messiah_fx_prod.Numbers.{Floats}
use messiah_fx_prod.Redis.{Redis}
use messiah_fx_prod.RedisKeys
use messiah_fx_prod.Executor.Settings.{Settings}
use messiah_fx_prod.Executor.Orders.{OrderRequest, OrderResult}
use messiah_fx_prod.Executor.Desk.{Desk}
use messiah_fx_prod.Executor.Leg.{Outside, execute_leg, send_or_reuse, submit, resolve}

module _ {fl : Floats} (outside : Outside fl) {r : Redis fl} (settings : Settings fl) where
  again :
      (order : OrderRequest fl) (key : String) (o : Option (OrderResult fl)) (d : Desk r)
      → lookup key d.results ≡ o
      → (x : OrderResult fl) × ((send_or_reuse outside settings order key o d).0 ≡ some (order, x))
        × (lookup key (send_or_reuse outside settings order key o d).1.results ≡ some x)
  again order key (some recovered) d e = (recovered, refl, e)
  again order key none d e =
      let sent = submit outside (resolve outside settings order.venue) order d in
      let same : (key =ˢ key) ≡ true = (eq_iff key key).1 refl in
      (sent.0, refl, rw (lookup-insert key key sent.0 sent.1.results, same) refl)

  -- Executing a leg returns a result, and executing the same order after that returns the same
  -- result and changes nothing: no order is sent and nothing is recorded.
  pub execute_leg-again :
      (order : OrderRequest fl) (d : Desk r)
      → (x : OrderResult fl) × ((execute_leg outside settings order d).0 ≡ some (order, x))
        × (execute_leg outside settings order (execute_leg outside settings order d).1
            ≡ (some (order, x), (execute_leg outside settings order d).1))
  unfolding execute_leg
  execute_leg-again order d =
      let key = RedisKeys.execution_result order.client_order_id in
      let (x, first, recorded) = again order key (lookup key d.results) d refl in
      (x, first, rw recorded refl)
