-- ===== src/Tests/Webhooks.antt =====
-- Runs of a TradingView webhook, through the gateway and the signal consumer to the swing strategy, and
-- the theorems at them.
use messiah_fx_prod.Prelude.{false, ◌≡◌, refl, ◌⊎◌, none, some, [], ◌∷◌}
use messiah_fx_prod.Prelude.Int.{pos}
use messiah_fx_prod.Numbers.Laws.{whole}
use messiah_fx_prod.Payload.{Payload, no_fields, field, text, num, null, object}
use messiah_fx_prod.Redis.{send, xadd, xack}
use messiah_fx_prod.Redis.Memory.{memory}
use messiah_fx_prod.Opportunities.{publish_command, create, publish_opportunity}
use messiah_fx_prod.Executor.Sizing.{clean_symbol}
use messiah_fx_prod.Strategies.StatArb.{run_from_signal}
use messiah_fx_prod.Strategies.FundingArb.{run_from_signal as run_carry}
use messiah_fx_prod.Strategies.Swing.{
  Context as SwingContext, raw, opportunity as swing_opportunity, publish,
  run_from_signal as run_swing,
}
use messiah_fx_prod.Strategies.Swing.Direction.{IsFollowed, run_from_signal-IsFollowed}
use messiah_fx_prod.Strategies.SignalConsumer.{
  Context as SignalContext, Strategies, has_separator, before_quote, split_symbol, read_signal,
  is_refused, run_strategy, launch, dispatch, handle as handle_signal,
}
use messiah_fx_prod.Strategies.SignalConsumer.Admission.{handle-IsHandled}
use messiah_fx_prod.Strategies.SignalConsumer.Promise.{IsHandled}
use messiah_fx_prod.Gateway.Signals.{validate, queue_entry, receive_tradingview_signal}
use messiah_fx_prod.Gateway.Signals.Queued.{IsQueued, receive_tradingview_signal-IsQueued}
use messiah_fx_prod.Prelude.Text.{lower, strip}
use messiah_fx_prod.Tests.{world, enabled_state}
use messiah_fx_prod.Strategies.StatArb.Hedge.{IsQuiet}
use messiah_fx_prod.Tests.Signals.{context, carrying, rates, quoted}

abbrev swinging : SwingContext whole
swinging = record {
  is_live = false;
  swing_min_edge_bps = pos 5;
  pyd = context.pyd;
  now = "2026-01-05T09:00:00+00:00";
  uuid = "9";
}

run_from_signal-IsFollowed_example :
    IsQuiet world (run_swing swinging "BTC/USDT" "sell" "binance" [] null null world)
    ⊎ IsFollowed swinging "BTC/USDT" "sell" "binance" [] null null world
        (run_swing swinging "BTC/USDT" "sell" "binance" [] null null world)
run_from_signal-IsFollowed_example =
    run_from_signal-IsFollowed swinging "BTC/USDT" "sell" "binance" [] null null world refl

-- The strategies that cannot publish, and the others as they are, the funding arbitrage with its cache.
abbrev strategies : Strategies (memory whole)
strategies = record {
  funding_arb =
      λ symbol action state price w. (run_carry carrying symbol action price state rates w).0;
  stat_arb = λ symbol action state price. run_from_signal context symbol action price state;
  swing = λ symbol action venue state price note.
      run_swing swinging symbol action venue state price note;
  breakout = λ symbol action venue state price note w. (none, w);
  mean_reversion = λ symbol action venue state price note w. (none, w);
  momentum = λ symbol action venue state price note w. (none, w);
}

abbrev signal_context : SignalContext whole
signal_context = record { upper = λ s. s; age = λ s. none; tv_signal_max_age_seconds = pos 60 }

abbrev swing_webhook : Payload whole
swing_webhook =
    field "payload"
      (object (
        field "strategy" (text "Swing")
          (field "symbol" (text " BTCUSDT ") (field "action" (text "SELL") no_fields))))
      no_fields

swing_webhook_is_published :
    (handle_signal signal_context strategies "strategy" "3-0" swing_webhook world).1.sent
    ≡ publish_command context.pyd "9" (
        swing_opportunity swinging "BTC/USDT" "binance" enabled_state none
          (raw swinging "sell" null (num (pos 0)) null))
      ∷ xack "signals:tradingview" "strategy" "3-0"
      ∷ []
unfolding handle_signal dispatch read_signal is_refused has_separator before_quote split_symbol
    run_strategy launch run_swing publish create publish_opportunity lower strip clean_symbol
swing_webhook_is_published = refl

handle-IsHandled_example :
    IsHandled signal_context strategies
      (send (xack "signals:tradingview" "strategy" "3-0"))
      (λ v. (some tt, v))
      (λ v. (some tt, v))
      swing_webhook
      world
      (handle_signal signal_context strategies "strategy" "3-0" swing_webhook world)
handle-IsHandled_example =
    handle-IsHandled signal_context strategies "strategy" "3-0" swing_webhook world

abbrev webhook : Payload whole
webhook = field "strategy" (text "swing") (
    field "venue" (text "binance")
      (field "symbol" (text "BTCUSDT") (field "action" (text "sell") no_fields)))

webhook_is_queued :
    (receive_tradingview_signal some "09:00" webhook world).1.sent
    ≡ xadd "signals:tradingview" (
        queue_entry "09:00" (record {
          strategy = "swing";
          venue = "binance";
          symbol = "BTCUSDT";
          action = "sell";
          price = null;
          note = null;
        }))
      ∷ []
unfolding receive_tradingview_signal validate
webhook_is_queued = refl

receive_tradingview_signal-IsQueued_example :
    (receive_tradingview_signal some "09:00" webhook world ≡ (none, world))
    ⊎ IsQueued signal_context strategies "09:00" "strategy" "4-0"
        (validate some webhook)
        world
        quoted
        (receive_tradingview_signal some "09:00" webhook world)
receive_tradingview_signal-IsQueued_example =
    receive_tradingview_signal-IsQueued signal_context strategies some "09:00" "strategy" "4-0"
      webhook world quoted
