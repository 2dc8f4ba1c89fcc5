-- ===== src/Strategies/StatArb.antt =====
-- services/strategy/app/strategies/stat_arb.py: signals from the spread of spot and perpetual. The mean
-- and the deviation of numpy are a parameter.
pub mod Spread
pub mod Symbols
pub mod Hedge
use Prim.Native.String.{◌++◌, [] as empty, ◌∷◌ as ◌∷ˢ◌}
use Prim.Native.Char.{code}
use messiah_fx_prod.Prelude.{
  ℕ, zero, suc, String, Bool, true, false, ◌==◌, ltb, length, Option, none, some, List, [], ◌∷◌,
  ◌=ˢ◌, if◌then◌else◌,
}
use messiah_fx_prod.Prelude.Int.{pos}
use messiah_fx_prod.Prelude.Dict.{Dict, lookup, lookup_or}
use messiah_fx_prod.Numbers.{Floats, num_zero}
use messiah_fx_prod.Payload.{Payload, Value, object, num, text, no_fields, field, get, to_float}
use messiah_fx_prod.Redis.{Redis, Exec, pure, reads, or_raise, ◌>>=◌, ◌>>◌}
use messiah_fx_prod.Opportunities.{Opportunity, Pydantic, create, publish_opportunity}
use messiah_fx_prod.Strategies.StatArb.Spread.{
  Statistics, Reading, spot_to_perp, tick_mid, rolling_z_score,
}
use messiah_fx_prod.Strategies.Base.{take_first, read_tick_cache, read_latest_tick}

-- The part of the settings that the strategy reads, and what its calls meet.
pub record Context (fl : Floats) : Type 0 where
  pub is_live : Bool
  pub stat_arb_window : ℕ
  pub stat_arb_entry_z : fl.F
  pub stat_arb_min_edge_bps : fl.F
  pub stat_arb_fee_bps : fl.F
  pub numpy : Statistics fl
  pub pyd : Pydantic fl
  pub now : String
  pub uuid : String

module _ {fl : Floats} where
  open fl use {F, lit, add, sub, mul, div, lt, le, abs, round}

  abbrev pub reversion_bps : Reading fl → F → F
  reversion_bps x spot_mid = round (mul (div (abs x.current_spread) spot_mid) (lit 10000 0)) 4

  abbrev pub net_edge : Context fl → Reading fl → F → F
  net_edge ctx x spot_mid = round (sub (reversion_bps x spot_mid) ctx.stat_arb_fee_bps) 4

  -- The leg that is sold and the leg that is bought.
  abbrev pub legs_by_z : Reading fl → String → String → String × String
  legs_by_z x spot perp = if lt (num_zero fl) x.z_score then (spot, perp) else (perp, spot)

  abbrev pub legs_by_action : String → Reading fl → String → String → String × String
  legs_by_action action x spot perp =
      if action =ˢ "buy"
      then (perp, spot)
      else if action =ˢ "sell"
      then (spot, perp)
      else legs_by_z x spot perp

  abbrev pub opportunity :
      Context fl
      → Dict String
      → String
      → String × String
      → Reading fl
      → F
      → Payload fl
      → Opportunity fl
  opportunity ctx state source legs x spot_mid raw = record {
    strategy_type = "stat_arb";
    venue = "binance";
    source = source;
    symbol_primary = legs.0;
    symbol_secondary = some legs.1;
    detected_at = ctx.now;
    latency_profile = lookup_or "latency_profile" "standard" state;
    spread = some (round x.current_spread 8);
    z_score = some (round x.z_score 4);
    funding_rate = none;
    expected_return_bps = some (reversion_bps x spot_mid);
    fee_cost_bps = some ctx.stat_arb_fee_bps;
    net_edge_bps = some (net_edge ctx x spot_mid);
    paper_mode = if ctx.is_live then false else true;
    raw_signal = some raw;
  }

  -- What the raw signal says of a reading.
  abbrev pub raw_reading : Context fl → Reading fl → F → Payload fl → Payload fl
  raw_reading ctx x spot_mid rest = field "z_score" (ctx.pyd.dump_float x.z_score) (
      field "current_spread" (ctx.pyd.dump_float x.current_spread) (
        field "spread_std" (ctx.pyd.dump_float x.spread_std) (
          field "window_used" (num (fl.of_int (pos x.window_used)))
            (field "spot_mid" (ctx.pyd.dump_float spot_mid) rest))))

  abbrev pub raw_internal : Context fl → Reading fl → F → Payload fl
  raw_internal ctx x spot_mid =
      let direction : String =
        if lt (num_zero fl) x.z_score then "sell_spot_buy_perp" else "buy_spot_sell_perp" in
      raw_reading ctx x spot_mid (field "direction" (text direction) no_fields)

  abbrev pub raw_tradingview : Context fl → String → Value fl → Reading fl → F → Payload fl
  raw_tradingview ctx action tv_price x spot_mid = field "trigger" (text "tradingview") (
      field "tv_action" (text action)
        (field "tv_price" tv_price (raw_reading ctx x spot_mid no_fields)))

  module _ {r : Redis fl} (ctx : Context fl) (symbol : String) where
    -- A reading at the mid price of the last tick; the answer is whether there was an opportunity.
    unfoldable pub offer : Reading fl → (F → Opportunity fl) → Dict String → Exec r Bool
    offer x opp [] = pure false
    offer x opp (entry ∷ tick) = do
      spot_mid ← or_raise (tick_mid fl (entry ∷ tick))
      if le spot_mid (num_zero fl)
          then pure false
          else if lt (net_edge ctx x spot_mid) ctx.stat_arb_min_edge_bps
          then pure false
          else (do
            valid ← or_raise (create (opp spot_mid))
            publish_opportunity ctx.pyd ctx.uuid valid
            pure true)

    abbrev pub consider : (Reading fl → F → Opportunity fl) → Option (Reading fl) → Exec r Bool
    consider opp none = pure false
    consider opp (some x) =
        if lt (abs x.z_score) ctx.stat_arb_entry_z
        then pure false
        else (do spot_tick ← reads (read_latest_tick r "binance" symbol); offer x (opp x) spot_tick)

    -- The part that the two entry points share, from the symbol of the perpetual on.
    unfoldable pub scan : (String → Reading fl → F → Opportunity fl) → Exec r Bool
    scan opp = do
      perp_symbol ← or_raise (spot_to_perp symbol)
      spot_ticks ← reads (read_tick_cache r "binance" symbol ctx.stat_arb_window)
      perp_ticks ← reads (read_tick_cache r "binance" perp_symbol ctx.stat_arb_window)
      consider (opp perp_symbol) (rolling_z_score ctx.numpy spot_ticks perp_ticks)

  abbrev pub tradingview_opportunity :
      Context fl
      → String
      → Value fl
      → Dict String
      → String
      → String
      → Reading fl
      → F
      → Opportunity fl
  tradingview_opportunity ctx action tv_price state symbol perp x spot_mid =
      opportunity ctx state "tradingview" (legs_by_action action x symbol perp) x spot_mid
        (raw_tradingview ctx action tv_price x spot_mid)

  abbrev pub internal_opportunity :
      Context fl → Dict String → String → String → Reading fl → F → Opportunity fl
  internal_opportunity ctx state symbol perp x spot_mid =
      opportunity ctx state "internal" (legs_by_z x symbol perp) x spot_mid
        (raw_internal ctx x spot_mid)

  unfoldable pub run_from_signal :
      {r : Redis fl} → Context fl → String → String → Value fl → Dict String → Exec r Bool
  run_from_signal ctx symbol action tv_price state =
      scan ctx symbol (tradingview_opportunity ctx action tv_price state symbol)

  -- The loop over the configured symbols, each with the id that is drawn for it.
  unfoldable pub run_once :
      {r : Redis fl} → Context fl → Dict String → List (String × String) → Exec r Unit
  run_once ctx state [] = pure tt
  run_once ctx state ((symbol, uuid) ∷ symbols) =
      scan (record ctx { uuid = uuid }) symbol
        (internal_opportunity (record ctx { uuid = uuid }) state symbol)
      >> run_once ctx state symbols
