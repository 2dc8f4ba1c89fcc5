-- ===== src/Tests/Control.antt =====
-- Runs of the control routes of the gateway and of the edge monitor, and the theorems at them.
use messiah_fx_prod.Prelude.{true, false, refl, none, some, List, [], ◌∷◌}
use messiah_fx_prod.Numbers.Laws.{whole}
use messiah_fx_prod.Payload.{Value, text}
use messiah_fx_prod.Redis.{World, trim}
use messiah_fx_prod.Redis.Memory.{Memory, memory, memory-IsServer}
use messiah_fx_prod.Executor.Settings.{Settings}
use messiah_fx_prod.Executor.Desk.{Desk}
use messiah_fx_prod.Executor.Consumer.{handle}
use messiah_fx_prod.Executor.Consumer.Halt.{IsIdle}
use messiah_fx_prod.Executor.Outcome.Edge.{record_edge}
use messiah_fx_prod.Gateway.Control.{Caller, actor_of, activate_kill_switch}
use messiah_fx_prod.Gateway.Control.Halting.{Request, toggle, stop, perform_all, kill-IsIdle}
use messiah_fx_prod.Strategies.EdgeMonitor.{record_outcome}
use messiah_fx_prod.Strategies.EdgeMonitor.Agreement.{IsAlike, monitor_of, record_outcome-IsAlike}
use messiah_fx_prod.Tests.Execution.{settings_in_paper, outside, moment, funding_message, desk}

abbrev operator : Caller
operator = record {
  identity = record { user = "ada"; role = some "admin"; verified = true };
  header_user = none;
  require_auth = true;
}

abbrev quiet : Memory whole
quiet = record { texts = λ k. none; lists = λ k. []; hashes = λ k. [] }

abbrev world : World (memory whole)
world = record { server = quiet; sent = [] }

abbrev requests : List Request
requests = toggle operator "10:01" "swing" true none ∷ stop operator "10:02" "ada" "checking" ∷ []

abbrev killed_desk : Desk (memory whole)
killed_desk = record desk {
  world = perform_all requests (activate_kill_switch operator "10:00" "checking" "ada" world).1;
}

kill-IsIdle_example :
    IsIdle
      (memory whole)
      killed_desk
      (handle outside settings_in_paper moment funding_message "1-0" killed_desk).1
unfolding actor_of
kill-IsIdle_example =
    kill-IsIdle (memory-IsServer whole) outside settings_in_paper moment funding_message "1-0"
      operator "10:00" "checking" "ada" "ada" requests world killed_desk refl (refl, (refl, tt))
      refl

abbrev settings : Settings whole
settings = record settings_in_paper { edge_monitor_window = 20 }

abbrev ten_wins : List (Value whole)
ten_wins =
    text "1"
    ∷ text "1"
    ∷ text "1"
    ∷ text "1"
    ∷ text "1"
    ∷ text "1"
    ∷ text "1"
    ∷ text "1"
    ∷ text "1"
    ∷ text "1"
    ∷ []

abbrev winning : World (memory whole)
winning = record {
  server = record { texts = λ k. none; lists = λ k. ten_wins; hashes = λ k. [] };
  sent = [];
}

record_outcome-IsAlike_example :
    IsAlike
      (memory whole)
      (record_edge settings "10:00" "swing" false winning).1.server
      (record_outcome (monitor_of settings) "10:00" "swing" false winning).1.server
unfolding trim
record_outcome-IsAlike_example =
    record_outcome-IsAlike (memory-IsServer whole) settings "10:00" "swing" false winning refl
