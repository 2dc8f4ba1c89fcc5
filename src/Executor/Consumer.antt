-- ===== src/Executor/Consumer.antt =====
-- services/executor/app/consumer.py: one message of signals:execution_queue.
pub mod Halt
use Prim.Native.String.{◌++◌}
use messiah_fx_prod.Prelude.{
  ℕ, suc, ◌+◌, String, Bool, true, false, not, ◌&&◌, ◌||◌, ◌==◌, ltb, Option, none, some, List, [],
  ◌∷◌, length, ◌=ˢ◌, if◌then◌else◌,
}
use messiah_fx_prod.Prelude.Int.{pos}
use messiah_fx_prod.Numbers.{Floats, num_zero, num_one, or_zero}
use messiah_fx_prod.Payload.{
  Payload, Value, null, flag, num, text, object, no_fields, field, get, get_or,
}
use messiah_fx_prod.RedisKeys
use messiah_fx_prod.StreamNames
use messiah_fx_prod.Redis.{Redis, Exec, send, rpush, audit, mark_executed, xack}
use messiah_fx_prod.Executor.Settings.{Settings, is_paper}
use messiah_fx_prod.Executor.Plan.{Leg, build_order_plan}
use messiah_fx_prod.Executor.Sizing.{resolve_position_usd, calc_quantity}
use messiah_fx_prod.Executor.Orders.{OrderRequest, OrderResult}
use messiah_fx_prod.Executor.Desk.{
  Desk, Call, pure, or_raise, reads, on_server, persist, ◌>>=◌, ◌>>◌,
}
use messiah_fx_prod.Executor.Leg.{Outside, id_text, order_for, execute_leg}
use messiah_fx_prod.Executor.Outcome.Statistics.{record_outcome}
use messiah_fx_prod.Executor.Legs.{Moment, Tally, as_text, text_or_null, id_of, run_legs}

module _ {fl : Floats} where
  -- `json.loads` with its handler: nothing for a text that does not parse.
  abbrev pub load_payload : Option (Value fl) → Option (Option (Payload fl))
  load_payload none = some (some no_fields)
  load_payload (some (text _)) = some none
  load_payload (some (object d)) = some (some d)
  load_payload (some _) = none

module _ {fl : Floats} {r : Redis fl} (outside : Outside fl) (settings : Settings fl)
    (moment : Moment fl) (opportunity_id : Option String) (strategy_type : String) where
  -- The audit row, the mark on the opportunity, and the statistics of the outcome.
  unfoldable pub finish : String → Tally fl → Call r Unit
  finish venue tally = do
    let all_filled = tally.fills_ok == tally.fills_attempted
    on_server (
        send (
          audit "executor.opportunity_executed" (
            field "strategy_type" (text strategy_type) (
              field "venue" (text venue) (
                field "fills_attempted" (num (fl.of_int (pos tally.fills_attempted))) (
                  field "fills_ok" (num (fl.of_int (pos tally.fills_ok))) (
                    field "all_filled" (flag all_filled) (
                      field "realized_pnl" (num (fl.round tally.realized_total 6))
                        (field "paper" (flag (is_paper settings)) no_fields)))))))))
    if ltb 0 tally.fills_ok && not (id_text opportunity_id =ˢ "")
        then on_server (send (mark_executed (id_text opportunity_id)))
        else pure tt
    if ltb 0 tally.fills_attempted && not (strategy_type =ˢ "unknown" || strategy_type =ˢ "")
        then on_server
            (record_outcome strategy_type settings moment.now all_filled tally.realized_total)
        else pure tt

  -- The legs of a plan, or the audit row of a skipped opportunity.
  unfoldable pub execute : String → List (Leg fl) → Call r Unit
  execute venue [] = on_server (
      send (
        audit "executor.skipped" (
          field "strategy_type" (text strategy_type)
            (field "venue" (text venue) (field "reason" (text "no_order_plan") no_fields)))))
  execute venue (leg ∷ legs) = do
    position_usd ← reads (resolve_position_usd r settings strategy_type)
    tally ←
        run_legs outside settings moment opportunity_id strategy_type position_usd 0 (leg ∷ legs)
          (record { fills_attempted = 0; fills_ok = 0; realized_total = num_zero fl })
    finish venue tally

-- The acknowledgement of a message whose processing returned.
abbrev pub acknowledge : {fl : Floats} {r : Redis fl} {A : Type 0} → String → Option A → Call r Unit
acknowledge msg_id (some done) =
    on_server (send (xack RedisKeys.signals_execution_queue "executor" msg_id))
acknowledge msg_id none = pure tt

abbrev pub is_halted : Option String → Bool
is_halted none = false
is_halted (some flag_text) = flag_text =ˢ "1"

module _ {fl : Floats} {r : Redis fl} (outside : Outside fl) (settings : Settings fl)
    (moment : Moment fl) (fields : Payload fl) where
  -- A payload that was read: dropped during a halt, planned and executed otherwise.
  unfoldable pub execute_payload : Payload fl → Call r Unit
  execute_payload payload = do
    strategy_type ← or_raise (as_text (get_or "strategy_type" (text "unknown") payload))
    venue ← or_raise (as_text (get_or "venue" (text "unknown") payload))
    halt ← reads (r.text_at RedisKeys.halt)
    if is_halted halt
        then on_server (
            send (
              audit "executor.halted_skip" (
                field "strategy_type" (text strategy_type) (field "venue" (text venue) no_fields))))
        else (do
          legs ← or_raise (build_order_plan payload)
          execute outside settings moment (id_of (get StreamNames.opportunity_id fields))
              strategy_type venue legs)

  -- A payload that does not parse is dropped.
  abbrev pub execute_loaded : Option (Payload fl) → Call r Unit
  execute_loaded none = pure tt
  execute_loaded (some payload) = execute_payload payload

  unfoldable pub process : Call r Unit
  process = do
    loaded ← or_raise (load_payload (get StreamNames.payload fields))
    execute_loaded loaded

  -- Acknowledged only if the processing returned; else the message stays pending.
  unfoldable pub handle : String → Call r Unit
  handle msg_id d = acknowledge msg_id (process d).0 (process d).1
