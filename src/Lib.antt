-- ===== src/Lib.antt =====
-- The trading pipeline of MessiahFX: what its Python services do with a signal from its publication
-- to the books, modelled from their sources.
--
-- The gateway queues a TradingView webhook on signals:tradingview; the strategy service gives it to the
-- strategy that it names, which publishes an opportunity on signals:opportunities. The AI filter scores
-- it onto the stream signals:approved. The risk engine (services/risk/app) checks each message against the hash
-- risk:state and sends it to signals:execution_queue or signals:rejected. The executor
-- (services/executor/app) plans its legs, sends the orders and books the fills with the accounting of
-- shared/mezna_shared. The files:
--
--   Prelude             numbers, lists, dicts and texts of Python, with their lemmas; Prelude.Text is
--                       str.strip and str.lower, Prelude.ParseInt is int(s) and str(n)
--   Numbers             Python's floats as a parameter, and the laws of IEEE arithmetic that some
--                       theorems take as a hypothesis (Numbers.Laws); whole numbers are an instance
--   Payload             what json.loads returns, and how the services read it
--   Redis               the Redis server as a parameter with the documented effect of its commands,
--                       and calls that may raise (Exec); Redis.Memory is a server that meets the laws
--   RedisKeys, StreamNames   shared/mezna_shared/redis_client.py
--   Orders.State        shared/mezna_shared/order_state.py
--   Ledger.Pnl          shared/mezna_shared/pnl.py; an answer `none` is a ZeroDivisionError
--   Risk.Settings       services/risk/app/config.py
--   Risk.Checker        services/risk/app/checker.py: run_checks, its later checks in functions of
--                       their own (check_daily_loss to check_edge)
--   Risk.State          services/risk/app/state.py
--   Risk.Consumer       services/risk/app/consumer.py: process is _process, handle the try block
--                       around it with the acknowledgement, run the messages one after the other
--   Kelly               shared/mezna_shared/kelly.py, but for its report for the backtest
--   Executor.Settings, Executor.Orders   services/executor/app/config.py and adapters/__init__.py
--   Executor.Plan, Executor.Sizing   services/executor/app/consumer.py: build_order_plan and
--                       resolve_side, resolve_position_usd and calc_quantity
--   Executor.Leg        the order of a leg: execute_leg, with idempotency.py, the routing of
--                       adapters/registry.py and shared/mezna_shared/order_ids.py
--   Executor.Books      services/executor/app/db.py: persist_trade on the tables of trades and
--                       positions
--   Executor.Desk       what the executor reaches, and calls that may raise
--   Executor.Legs, Executor.Consumer   services/executor/app/consumer.py: the loop over the legs of
--                       _process, the rest of it, and the try block around it with the
--                       acknowledgement
--   Regimes             shared/mezna_shared/regime_map.py
--   Executor.Outcome    services/executor/app/consumer.py: _record_outcome and
--                       _update_rotation_preferred; Standing is what they keep, without Redis
--   Bars                shared/mezna_shared/bars.py
--   Backtest.WalkForward   services/backtest/app/walk_forward.py
--   Backtest.Engine     services/backtest/app/engine.py: run_stat_arb and run_funding_arb,
--                       without their metrics; the mean and the deviation of numpy are arguments
--   Executor.Paper      services/executor/app/adapters/paper.py
--   Volatility, Executor.VolSizing   shared/mezna_shared/volatility.py and
--                       services/executor/app/vol_sizing.py
--   Venues, ParamGovernance   shared/mezna_shared/venues.py and param_governance.py
--   Gateway.Control     services/gateway/app/routes/control.py, without its queries
--   Gateway.Auth        services/gateway/app/auth.py, and revoke_sessions of routes/control.py
--   Strategies.EdgeMonitor   services/strategy/app/strategies/edge_monitor.py
--   Rag.Pages           services/rag/app/chunker.py, _offset_to_page
--   AiFilter            services/ai-filter/app/scorer.py and consumer.py: the prompt, what becomes of
--                       Claude's answer, and one message; AiFilter.Advice is about the risk engine too
--   Opportunities       shared/mezna_shared/schemas/opportunity.py and services/strategy/app/publisher.py
--   Strategies.Base, StatArb, FundingArb, Swing   services/strategy/app/strategies: base.py,
--                       stat_arb.py, funding_arb.py and swing.py
--   Strategies.SignalConsumer   services/strategy/app/signal_consumer.py: dispatch is _dispatch, handle
--                       what run does with one entry
--   Strategies.Rotation, Strategies.Runner   services/strategy/app/strategies/rotation.py, and one round
--                       of _generic_loop of services/strategy/app/runner.py
--   Gateway.Signals     services/gateway/app/routes/signals.py, and its schema TradingViewSignal; the
--                       composition with the consumer is Gateway.Signals.Queued
--   Tests, Tests.*       concrete states and messages
--
-- The loops of the code are recursions on lists, but for three: str(n), the windows of the
-- walk-forward analysis (one round more than the number) and the search for a page (one round a
-- page) are on fuel, which is enough. Texts that hold
-- JSON are the values that they hold; a JSON number is a float. The clock, the rows of a query and
-- the answers of a venue are arguments.
--
-- Arguments in the executor are the closes of the bars of a symbol, the square root and the deviation
-- of the standard library, and the random ids; a recorded result does not expire. The walk-forward
-- analysis takes the engine that runs a strategy, and the median, as arguments. The gateway takes the
-- identity behind a request, or its verified token, as an argument.
--
-- Arguments in the strategies are the mean and the deviation of numpy, the answer of the exchange for a
-- funding rate, the clocks and the ids that are drawn.
--
-- Not modelled: the log, the metrics and the answers of HTTP routes; the AI filter's agents; the
-- strategies breakout, momentum and mean_reversion_scalp with their indicators; the market feeds and the
-- dashboards; the metrics and the Monte Carlo runs of the backtest engine; errors of the Redis server other than a failed HINCRBY or INCR,
-- the cancellation of a task, and the expiry of a key while a message is handled. An opportunity
-- whose strategy_type is not a text raises in the model, where the code would format it into a key.
-- Settings carry no service names, URLs or credentials.
pub mod Prelude
pub mod AiFilter
pub mod Opportunities
pub mod Numbers
pub mod Orders
pub mod Ledger
pub mod Payload
pub mod RedisKeys
pub mod StreamNames
pub mod Redis
pub mod Risk
pub mod Kelly
pub mod Executor
pub mod Regimes
pub mod Bars
pub mod Backtest
pub mod ParamGovernance
pub mod Venues
pub mod Volatility
pub mod Gateway
pub mod Strategies
pub mod Rag
pub mod Tests
