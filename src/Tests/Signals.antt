-- ===== src/Tests/Signals.antt =====
-- Runs of the statistical and the funding arbitrage on a TradingView signal, and the theorems at them.
use messiah_fx_prod.Prelude.{
  ℕ, zero, suc, true, false, ◌≡◌, refl, ◌⊎◌, inr, none, some, List, [], ◌∷◌, ◌=ˢ◌, if◌then◌else◌,
}
use messiah_fx_prod.Prelude.Int.{pos, abs, ◌/ℤ◌, ◌-ℤ◌, ◌*ℤ◌, ◌+ℤ◌}
use messiah_fx_prod.Prelude.ParseInt.{parse_int}
use messiah_fx_prod.Numbers.Laws.{whole}
use messiah_fx_prod.Payload.{Value, no_fields, field, num, null, object}
use messiah_fx_prod.Redis.{World, send, xadd, xack, ◌>>◌}
use messiah_fx_prod.RedisKeys
use messiah_fx_prod.Redis.Memory.{memory}
use messiah_fx_prod.Opportunities.{
  Opportunity, stream_entry, model_dump, create, publish_opportunity,
}
use messiah_fx_prod.Opportunities.Published.{stream_entry-forwards}
use messiah_fx_prod.AiFilter.{Score}
use messiah_fx_prod.AiFilter.Consumer.{approved_entry, handle}
use messiah_fx_prod.AiFilter.Forwarding.{IsResult}
use messiah_fx_prod.Executor.Sizing.{clean_symbol}
use messiah_fx_prod.Strategies.Base.{read_tick_cache}
use messiah_fx_prod.Strategies.StatArb.{Context, offer, scan, run_from_signal}
use messiah_fx_prod.Strategies.StatArb.Spread.{split_slash, rolling_z_score}
use messiah_fx_prod.Strategies.FundingArb.{
  Context as FundingContext, RateCache, spot_to_api_symbol, get_funding_rate, offer as offer_carry,
  scan as scan_carry, run_from_signal as run_carry,
}
use messiah_fx_prod.Strategies.FundingArb.Carry.{IsCarried, run_from_signal-IsCarried}
use messiah_fx_prod.Tests.Filter.{python, eager}
use messiah_fx_prod.Strategies.StatArb.Hedge.{IsQuiet, IsHedged, run_from_signal-IsHedged}

abbrev tick_at : ℕ → Value whole
tick_at mid = object (field "mid" (num (pos mid)) no_fields)

abbrev repeated : ℕ → Value whole → List (Value whole)
repeated zero v = []
repeated (suc n) v = v ∷ repeated n v

abbrev pub context : Context whole
context = record {
  is_live = false;
  stat_arb_window = 100;
  stat_arb_entry_z = pos 2;
  stat_arb_min_edge_bps = pos 8;
  stat_arb_fee_bps = pos 12;
  numpy = record { np_mean = λ xs. pos 1; np_std = λ xs. pos 2 };
  pyd = record { dump_float = num; dump_time = λ s. s };
  now = "2026-01-05T09:00:00+00:00";
  uuid = "7";
}

-- The spot is dearer than the perpetual.
abbrev ticking : World (memory whole)
ticking = record {
  server = record {
    texts = λ k. none;
    lists = λ k.
        if k =ˢ "ticks:binance:BTC_USDT"
        then repeated 30 (tick_at 200)
        else if k =ˢ "ticks:binance:BTC_USDT_USDT"
        then repeated 31 (tick_at 10)
        else [];
    hashes = λ k. if k =ˢ "tick:latest:binance:BTC_USDT" then ("mid", "95") ∷ [] else [];
  };
  sent = [];
}

dear_spot_is_offered : (run_from_signal context "BTC/USDT" "alert" null [] ticking).0 ≡ some true
unfolding run_from_signal scan split_slash read_tick_cache rolling_z_score offer create
    publish_opportunity clean_symbol abs ◌/ℤ◌ ◌-ℤ◌ ◌*ℤ◌ parse_int
dear_spot_is_offered = refl

run_from_signal-IsHedged_example :
    IsQuiet ticking (run_from_signal context "BTC/USDT" "alert" null [] ticking)
    ⊎ IsHedged context "BTC/USDT" "alert" null [] ticking
        (run_from_signal context "BTC/USDT" "alert" null [] ticking)
run_from_signal-IsHedged_example =
    run_from_signal-IsHedged context "BTC/USDT" "alert" null [] ticking

abbrev dear_spot : Opportunity whole
dear_spot = record {
  strategy_type = "stat_arb";
  venue = "binance";
  source = "internal";
  symbol_primary = "BTC/USDT";
  symbol_secondary = some "BTC/USDT:USDT";
  detected_at = "2026-01-05T09:00:00+00:00";
  latency_profile = "standard";
  spread = some (pos 190);
  z_score = some (pos 94);
  funding_rate = none;
  expected_return_bps = some (pos 20000);
  fee_cost_bps = some (pos 12);
  net_edge_bps = some (pos 19988);
  paper_mode = true;
  raw_signal = none;
}

stream_entry-forwards_example :
    (result : Score) × IsResult {fl = whole} (some (λ prompt. eager)) result
    × (handle python
          (some (λ prompt. eager))
          "09:00"
          "1-0"
          (stream_entry context.pyd "7" dear_spot)
          ticking
        ≡ (send (
                xadd RedisKeys.signals_approved (
                  approved_entry
                    (stream_entry context.pyd "7" dear_spot)
                    (model_dump context.pyd dear_spot)
                    result
                    "09:00"))
              >> send (xack RedisKeys.signals_opportunities "ai-filter" "1-0"))
            ticking)
stream_entry-forwards_example =
    stream_entry-forwards context.pyd (λ x. inr (x, refl)) python (some (λ prompt. eager)) "09:00"
      "1-0" "7" dear_spot ticking

abbrev pub carrying : FundingContext whole
carrying = record {
  is_live = false;
  funding_arb_poll_seconds = pos 30;
  funding_arb_fee_bps = pos 15;
  funding_arb_min_edge_bps = pos 5;
  last_funding_rate = λ s. none;
  monotonic = pos 120;
  pyd = context.pyd;
  now = "2026-01-05T09:00:00+00:00";
  uuid = "8";
}

-- A rate of 1, fetched 20 seconds ago.
abbrev pub rates : RateCache whole
rates = ("BTCUSDT", (pos 1, pos 100)) ∷ []

abbrev pub quoted : World (memory whole)
quoted = record {
  server = record {
    texts = λ k. none;
    lists = λ k. [];
    hashes = λ k.
        if k =ˢ "tick:latest:binance:BTC_USDT"
        then ("bid", "94") ∷ ("spread_bps", "3") ∷ []
        else if k =ˢ "tick:latest:binance:BTC_USDT_USDT"
        then ("spread_bps", "5") ∷ []
        else [];
  };
  sent = [];
}

cached_rate_is_offered : (run_carry carrying "BTC/USDT" "sell" null [] rates quoted).0.0 ≡ some true
unfolding run_carry scan_carry split_slash clean_symbol spot_to_api_symbol get_funding_rate
    offer_carry create publish_opportunity abs ◌/ℤ◌ ◌-ℤ◌ ◌*ℤ◌ ◌+ℤ◌ parse_int
cached_rate_is_offered = refl

run_from_signal-IsCarried_example :
    IsQuiet quoted (run_carry carrying "BTC/USDT" "sell" null [] rates quoted).0
    ⊎ IsCarried carrying "BTC/USDT" "sell" null [] rates quoted
        (run_carry carrying "BTC/USDT" "sell" null [] rates quoted).0
run_from_signal-IsCarried_example =
    run_from_signal-IsCarried carrying "BTC/USDT" "sell" null [] rates quoted
