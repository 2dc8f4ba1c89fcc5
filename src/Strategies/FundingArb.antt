-- ===== src/Strategies/FundingArb.antt =====
-- services/strategy/app/strategies/funding_arb.py: signals from the funding rate of a perpetual. The
-- answer of the exchange to a request is an argument, and so are the clocks.
pub mod Carry
use Prim.Native.String.{◌++◌, [] as empty, ◌∷◌ as ◌∷ˢ◌}
use Prim.Native.Char.{code}
use messiah_fx_prod.Prelude.{
  ℕ, String, Bool, true, false, ◌==◌, Option, none, some, List, [], ◌∷◌, if◌then◌else◌,
}
use messiah_fx_prod.Prelude.Dict.{Dict, lookup, lookup_or, insert}
use messiah_fx_prod.Numbers.{Floats, num_zero}
use messiah_fx_prod.Payload.{Payload, Value, null, text, no_fields, field}
use messiah_fx_prod.Redis.{Redis, World, Exec, pure, or_raise, ◌>>=◌, ◌>>◌}
use messiah_fx_prod.Opportunities.{Opportunity, Pydantic, create, publish_opportunity}
use messiah_fx_prod.Strategies.Base.{read_latest_tick}
use messiah_fx_prod.Strategies.StatArb.Spread.{spot_to_perp}

-- The rate and when it was fetched, by the symbol of the exchange.
abbrev pub RateCache : Floats → Type 0
RateCache fl = Dict (fl.F × fl.F)

-- A call that may change the cache, which stays when it raises.
abbrev pub Cached : {fl : Floats} → Redis fl → Type 0 → Type 0
Cached {fl} r A = RateCache fl → World r → (Option A × World r) × RateCache fl

-- The part of the settings that the strategy reads, and what its calls meet.
pub record Context (fl : Floats) : Type 0 where
  pub is_live : Bool
  pub funding_arb_poll_seconds : fl.F
  pub funding_arb_fee_bps : fl.F
  pub funding_arb_min_edge_bps : fl.F
  -- `float(data["lastFundingRate"])` of the answer for a symbol, none where the request or this raises
  pub last_funding_rate : String → Option fl.F
  pub monotonic : fl.F
  pub pyd : Pydantic fl
  pub now : String
  pub uuid : String

-- `spot.replace("/", "")`
unfoldable pub spot_to_api_symbol : String → String
spot_to_api_symbol empty = ""
spot_to_api_symbol (c ∷ˢ spot) =
    let rest = spot_to_api_symbol spot in if code c == 47 then rest else c ∷ˢ rest

-- `float(tick.get("spread_bps", 0))`
abbrev pub spread_bps : (fl : Floats) → Dict String → Option fl.F
spread_bps fl tick = elim (lookup "spread_bps" tick) [
  | none ↦ some (num_zero fl)
  | some s ↦ fl.parse s
]

-- `tick.get(key)`
abbrev pub tick_value : {fl : Floats} → String → Dict String → Value fl
tick_value key tick = elim (lookup key tick) [ none ↦ null | some s ↦ text s ]

module _ {fl : Floats} (ctx : Context fl) where
  open fl use {F, lit, add, sub, mul, div, lt, le, round}

  abbrev pub fetched : String → Option F → RateCache fl → Option F × RateCache fl
  fetched api_symbol none cache = (none, cache)
  fetched api_symbol (some rate) cache = (some rate, insert api_symbol (rate, ctx.monotonic) cache)

  abbrev pub rate_from : Option (F × F) → String → RateCache fl → Option F × RateCache fl
  rate_from none api_symbol cache = fetched api_symbol (ctx.last_funding_rate api_symbol) cache
  rate_from (some cached) api_symbol cache =
      if lt (sub ctx.monotonic cached.1) ctx.funding_arb_poll_seconds
      then (some cached.0, cache)
      else fetched api_symbol (ctx.last_funding_rate api_symbol) cache

  unfoldable pub get_funding_rate : String → RateCache fl → Option F × RateCache fl
  get_funding_rate api_symbol cache = rate_from (lookup api_symbol cache) api_symbol cache

  abbrev pub funding_bps : F → F
  funding_bps rate = mul rate (lit 10000 0)

  abbrev pub spread_cost_bps : F → F → F
  spread_cost_bps spot_spread perp_spread = div (add spot_spread perp_spread) (lit 2 0)

  abbrev pub net_edge : F → F → F → F
  net_edge rate spot_spread perp_spread =
      round
        (sub (sub (funding_bps rate) (spread_cost_bps spot_spread perp_spread))
          ctx.funding_arb_fee_bps)
        4

  -- The spot is the leg that is bought, and the perpetual the leg that is sold.
  abbrev pub opportunity :
      Dict String → String → String → String → F → F → F → Payload fl → Opportunity fl
  opportunity state source symbol perp rate spot_spread perp_spread raw = record {
    strategy_type = "funding_arb";
    venue = "binance";
    source = source;
    symbol_primary = symbol;
    symbol_secondary = some perp;
    detected_at = ctx.now;
    latency_profile = lookup_or "latency_profile" "standard" state;
    spread = some spot_spread;
    z_score = none;
    funding_rate = some rate;
    expected_return_bps = some (round (funding_bps rate) 4);
    fee_cost_bps =
        some (round (add (spread_cost_bps spot_spread perp_spread) ctx.funding_arb_fee_bps) 4);
    net_edge_bps = some (net_edge rate spot_spread perp_spread);
    paper_mode = if ctx.is_live then false else true;
    raw_signal = some raw;
  }

  abbrev pub raw_rate : F → Payload fl
  raw_rate rate =
      field "funding_rate_raw" (ctx.pyd.dump_float rate)
        (field "funding_bps" (ctx.pyd.dump_float (funding_bps rate)) no_fields)

  abbrev pub raw_internal : Dict String → Dict String → F → F → F → Payload fl
  raw_internal spot_tick perp_tick rate spot_spread perp_spread =
      field "spot_bid" (tick_value "bid" spot_tick) (
        field "spot_ask" (tick_value "ask" spot_tick) (
          field "spot_spread_bps" (ctx.pyd.dump_float spot_spread) (
            field "perp_bid" (tick_value "bid" perp_tick) (
              field "perp_ask" (tick_value "ask" perp_tick)
                (field "perp_spread_bps" (ctx.pyd.dump_float perp_spread) (raw_rate rate))))))

  abbrev pub raw_tradingview : String → Value fl → Dict String → Dict String → F → Payload fl
  raw_tradingview action tv_price spot_tick perp_tick rate = field "trigger" (text "tradingview") (
      field "tv_action" (text action) (
        field "tv_price" tv_price (
          field "spot_bid" (tick_value "bid" spot_tick) (
            field "spot_ask" (tick_value "ask" spot_tick) (
              field "perp_bid" (tick_value "bid" perp_tick)
                (field "perp_ask" (tick_value "ask" perp_tick) (raw_rate rate)))))))

  -- Only a positive rate is of interest; the answer is whether there was an opportunity.
  unfoldable pub offer :
      {r : Redis fl}
      → Dict String
      → Dict String
      → (F → F → F → Opportunity fl)
      → Option F
      → Exec r Bool
  offer spot_tick perp_tick opp none = pure false
  offer spot_tick perp_tick opp (some rate) = if le rate (num_zero fl) then pure false else (do
    spot_spread ← or_raise (spread_bps fl spot_tick)
    perp_spread ← or_raise (spread_bps fl perp_tick)
    if lt (net_edge rate spot_spread perp_spread) ctx.funding_arb_min_edge_bps
        then pure false
        else (do
          valid ← or_raise (create (opp rate spot_spread perp_spread))
          publish_opportunity ctx.pyd ctx.uuid valid
          pure true))

  -- With ticks of both symbols the rate is asked for; the cache that it leaves stays, whatever follows.
  abbrev pub consider :
      {r : Redis fl}
      → String
      → Dict String
      → Dict String
      → (F → F → F → Opportunity fl)
      → Cached r Bool
  consider api_symbol [] perp_tick opp cache w = (pure false w, cache)
  consider api_symbol (e ∷ spot_tick) [] opp cache w = (pure false w, cache)
  consider api_symbol (e ∷ spot_tick) (f ∷ perp_tick) opp cache w =
      let rate = get_funding_rate api_symbol cache in
      (offer (e ∷ spot_tick) (f ∷ perp_tick) opp rate.0 w, rate.1)

  -- The part that the two entry points share, from the symbol of the perpetual on.
  abbrev pub scan_pair :
      {r : Redis fl}
      → String
      → (String → Dict String → Dict String → F → F → F → Opportunity fl)
      → Option String
      → Cached r Bool
  scan_pair symbol opp none cache w = ((none, w), cache)
  scan_pair {r} symbol opp (some perp) cache w =
      let spot_tick = read_latest_tick r "binance" symbol w.server in
      let perp_tick = read_latest_tick r "binance" perp w.server in
      consider (spot_to_api_symbol symbol) spot_tick perp_tick (opp perp spot_tick perp_tick) cache
        w

  unfoldable pub scan :
      {r : Redis fl}
      → String
      → (String → Dict String → Dict String → F → F → F → Opportunity fl)
      → Cached r Bool
  scan symbol opp = scan_pair symbol opp (spot_to_perp symbol)

  abbrev pub tradingview_opportunity :
      String
      → Value fl
      → Dict String
      → String
      → String
      → Dict String
      → Dict String
      → F
      → F
      → F
      → Opportunity fl
  tradingview_opportunity action tv_price state symbol perp spot_tick perp_tick rate spot_spread
        perp_spread =
      opportunity state "tradingview" symbol perp rate spot_spread perp_spread
        (raw_tradingview action tv_price spot_tick perp_tick rate)

  abbrev pub internal_opportunity :
      Dict String → String → String → Dict String → Dict String → F → F → F → Opportunity fl
  internal_opportunity state symbol perp spot_tick perp_tick rate spot_spread perp_spread =
      opportunity state "internal" symbol perp rate spot_spread perp_spread
        (raw_internal spot_tick perp_tick rate spot_spread perp_spread)

  unfoldable pub run_from_signal :
      {r : Redis fl} → String → String → Value fl → Dict String → Cached r Bool
  run_from_signal symbol action tv_price state =
      scan symbol (tradingview_opportunity action tv_price state symbol)

abbrev pub and_then :
    {fl : Floats} {r : Redis fl}
    → Cached r Unit
    → (Option Bool × World r) × RateCache fl
    → (Option {0} Unit × World r) × RateCache fl
and_then rest ((none, w), cache) = ((none, w), cache)
and_then rest ((some published, w), cache) = rest cache w

-- The loop over the configured symbols, each with the id that is drawn for it.
unfoldable pub run_once :
    {fl : Floats} {r : Redis fl} → Context fl → Dict String → List (String × String) → Cached r Unit
run_once ctx state [] cache w = ((some tt, w), cache)
run_once {fl} ctx state ((symbol, uuid) ∷ symbols) cache w =
    let drawn : Context fl = record ctx { uuid = uuid } in
    and_then (run_once ctx state symbols)
      (scan drawn symbol (internal_opportunity drawn state symbol) cache w)
