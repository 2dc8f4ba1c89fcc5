-- ===== src/Tests/Execution.antt =====
-- Runs of the executor's model: orders, books and messages, and the theorems at them.
use messiah_fx_prod.Prelude.{true, false, ◌≡◌, refl, none, some, List, [], ◌∷◌, ◌=ˢ◌, if◌then◌else◌}
use messiah_fx_prod.Prelude.Int.{pos, ◌-ℤ◌, ◌+ℤ◌, ◌*ℤ◌, ◌/ℤ◌, abs}
use messiah_fx_prod.Numbers.Laws.{whole, whole-IsOrdered}
use messiah_fx_prod.Payload.{Payload, no_fields, field, text, object}
use messiah_fx_prod.Redis.Memory.{Memory, memory}
use messiah_fx_prod.Ledger.Pnl.{apply_fill, open_or_add}
use messiah_fx_prod.Executor.Settings.{Settings}
use messiah_fx_prod.Executor.Plan.{Leg, build_order_plan}
use messiah_fx_prod.Executor.Plan.Legs.{IsPlan, build_order_plan-IsPlan}
use messiah_fx_prod.Executor.Sizing.{resolve_position_usd}
use messiah_fx_prod.Executor.Sizing.Limits.{IsSize, resolve_position_usd-IsSize}
use messiah_fx_prod.Executor.Orders.{OrderRequest, OrderResult}
use messiah_fx_prod.Executor.Books.{Books, persist_trade}
use messiah_fx_prod.Executor.Books.Once.{persist_trade-once}
use messiah_fx_prod.Executor.Books.Soundness.{Keeps, persist_trade-Keeps}
use messiah_fx_prod.Executor.Desk.{Desk}
use messiah_fx_prod.Executor.Leg.{Outside, returned, execute_leg}
use messiah_fx_prod.Executor.Leg.Replay.{execute_leg-again}
use messiah_fx_prod.Executor.Legs.{Moment, Tally, run_legs}
use messiah_fx_prod.Executor.Legs.Tallies.{Counts, run_legs-Counts}
use messiah_fx_prod.Executor.Consumer.{handle}
use messiah_fx_prod.Executor.Consumer.Halt.{IsIdle, handle-IsIdle}

abbrev funding_payload : Payload whole
funding_payload = field "strategy_type" (text "funding_arb") (
    field "symbol_primary" (text "BTC/USDT")
      (field "symbol_secondary" (text "BTC/USDT:USDT") no_fields))

build_order_plan-IsPlan_example : IsPlan (build_order_plan funding_payload)
build_order_plan-IsPlan_example = build_order_plan-IsPlan funding_payload

abbrev pub settings_in_paper : Settings whole
settings_in_paper = record {
  trading_mode = "paper";
  paper_capital_usd = pos 5000;
  risk_max_per_trade_pct = pos 1;
  kelly_enabled = true;
  account_equity_usd = pos 9000;
  kelly_multiplier = pos 1;
  kelly_max_position_pct = pos 1;
  vol_target_enabled = false;
  vol_target_lookback_bars = 200;
  vol_target_lam = pos 0;
  vol_target_min = pos 0;
  vol_target_max = pos 1;
  edge_monitor_window = 3;
  edge_baseline_win_rate = pos 1;
  edge_decay_threshold = pos 0;
  rotation_consecutive_loss_threshold = pos 2;
}

-- A halted server with a tick of each leg of the funding arbitrage.
abbrev pub server : Memory whole
server = record {
  texts = λ k. if k =ˢ "risk:halt" then some "1" else none;
  lists = λ k. [];
  hashes = λ k.
      if k =ˢ "tick:latest:binance:BTC_USDT"
      then ("bid", "99") ∷ ("ask", "100") ∷ ("mid", "99") ∷ []
      else if k =ˢ "tick:latest:binance:BTC_USDT_USDT"
      then ("bid", "101") ∷ ("ask", "102") ∷ []
      else [];
}

resolve_position_usd-IsSize_example :
    IsSize whole-IsOrdered
      (memory whole)
      settings_in_paper
      (resolve_position_usd (memory whole) settings_in_paper "funding_arb" server)
resolve_position_usd-IsSize_example =
    resolve_position_usd-IsSize whole-IsOrdered (memory whole) settings_in_paper "funding_arb"
      server

abbrev pub buy_order : OrderRequest whole
buy_order = record {
  client_order_id = "mx-1";
  venue = "binance";
  symbol = "BTC/USDT";
  side = "buy";
  order_type = "market";
  quantity = pos 50;
  strategy_type = "funding_arb";
  opportunity_id = some "a1";
  paper_mode = true;
}

abbrev buy_result : OrderResult whole
buy_result = record {
  client_order_id = "mx-1";
  exchange_order_id = none;
  status = "filled";
  filled_qty = pos 50;
  average_fill_price = pos 100;
  fee = pos 3;
  fee_currency = "USDT";
  slippage_bps = pos 0;
  rejection_reason = none;
}

abbrev no_books : Books whole
no_books = record { trades = []; positions = [] }

persist_trade-once_example :
    (persist_trade "10:01" buy_order buy_result
      (persist_trade "10:00" buy_order buy_result no_books).1).1
    ≡ (persist_trade "10:00" buy_order buy_result no_books).1
unfolding persist_trade apply_fill open_or_add ◌-ℤ◌ ◌+ℤ◌ ◌*ℤ◌ ◌/ℤ◌ abs
persist_trade-once_example =
    persist_trade-once "10:00" "10:01" buy_order buy_result no_books (some (pos 0)) refl

persist_trade-Keeps_example :
    Keeps whole-IsOrdered (persist_trade "10:00" buy_order buy_result no_books)
persist_trade-Keeps_example =
    persist_trade-Keeps whole-IsOrdered (λ x k h. h) "10:00" buy_order buy_result no_books tt

abbrev pub outside : Outside whole
outside = record {
  hash24 = λ s. s;
  roots = record { sqrt = λ x. x; pstdev = λ xs. pos 1 };
  answer = λ sent order. returned buy_result;
}

abbrev pub desk : Desk (memory whole)
desk = record {
  world = record { server = server; sent = [] };
  results = [];
  books = no_books;
  submitted = [];
}

execute_leg-again_example :
    (x : OrderResult whole) × ((execute_leg outside settings_in_paper buy_order desk).0
      ≡ some (buy_order, x))
    × (execute_leg outside settings_in_paper buy_order
          (execute_leg outside settings_in_paper buy_order desk).1
        ≡ (some (buy_order, x), (execute_leg outside settings_in_paper buy_order desk).1))
execute_leg-again_example = execute_leg-again outside settings_in_paper buy_order desk

abbrev pub moment : Moment whole
moment = record {
  now = "10:00";
  random24 = λ i. "r";
  uuid = λ i. "u";
  closes = λ venue symbol. none;
}

abbrev pub funding_message : Payload whole
funding_message =
    field "payload" (object funding_payload) (field "opportunity_id" (text "a1") no_fields)

handle-IsIdle_example :
    IsIdle
      (memory whole)
      desk
      (handle outside settings_in_paper moment funding_message "1-0" desk).1
handle-IsIdle_example =
    handle-IsIdle outside settings_in_paper moment funding_message desk refl "1-0"

abbrev funding_legs : List (Leg whole)
funding_legs =
    record { venue = text "binance"; symbol = text "BTC/USDT"; side = "buy" }
    ∷ record { venue = text "binance"; symbol = text "BTC/USDT:USDT"; side = "sell" }
    ∷ []

abbrev no_tally : Tally whole
no_tally = record { fills_attempted = 0; fills_ok = 0; realized_total = pos 0 }

run_legs-Counts_example : Counts (memory whole) 2 no_tally (
    run_legs outside settings_in_paper moment
      (some "a1")
      "funding_arb"
      (pos 5000)
      0
      funding_legs
      no_tally
      desk)
run_legs-Counts_example =
    run_legs-Counts outside settings_in_paper moment (some "a1") "funding_arb" (pos 5000) 0
      funding_legs no_tally desk
