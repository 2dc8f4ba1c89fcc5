-- ===== src/Strategies/Swing.antt =====
-- services/strategy/app/strategies/swing.py: a TradingView signal becomes an opportunity as it is.
pub mod Direction
use messiah_fx_prod.Prelude.{
  String, Bool, true, false, Option, none, some, List, [], ◌∷◌, ◌=ˢ◌, if◌then◌else◌,
}
use messiah_fx_prod.Prelude.Dict.{Dict, contains, lookup, lookup_or}
use messiah_fx_prod.Numbers.{Floats, num_zero}
use messiah_fx_prod.Payload.{Payload, Value, num, text, no_fields, field, truthy, to_float}
use messiah_fx_prod.Redis.{Redis, Exec, pure, reads, or_raise, ◌>>=◌, ◌>>◌}
use messiah_fx_prod.Opportunities.{Opportunity, Pydantic, create, publish_opportunity}
use messiah_fx_prod.Strategies.Base.{read_latest_tick}
use messiah_fx_prod.Strategies.FundingArb.{spread_bps}

-- The part of the settings that the strategy reads, and what its calls meet.
pub record Context (fl : Floats) : Type 0 where
  pub is_live : Bool
  pub swing_min_edge_bps : fl.F
  pub pyd : Pydantic fl
  pub now : String
  pub uuid : String

-- An action that does not trade: close and alert are for information, others are unknown.
abbrev pub is_idle : String → Bool
is_idle action =
    if contains action ("close" ∷ "alert" ∷ [])
    then true
    else if contains action ("buy" ∷ "sell" ∷ [])
    then false
    else true

module _ {fl : Floats} where
  -- `tv_price or 0`
  abbrev pub price_or_zero : Value fl → Value fl
  price_or_zero tv_price = if truthy tv_price then tv_price else num (num_zero fl)

  abbrev pub mid_or : Value fl → Option String → Option fl.F
  mid_or tv_price none = to_float (price_or_zero tv_price)
  mid_or tv_price (some mid) = fl.parse mid

  module _ (ctx : Context fl) where
    -- The price, none where a price cannot be read; an empty tick is no tick.
    abbrev pub ref_price : Value fl → Dict String → Option (Value fl)
    ref_price tv_price [] = some (price_or_zero tv_price)
    ref_price tv_price (e ∷ live_tick) = elim (mid_or tv_price (lookup "mid" (e ∷ live_tick))) [
      | none ↦ none
      | some price ↦ some (ctx.pyd.dump_float price)
    ]

    abbrev pub tick_spread : Dict String → Option (Option fl.F)
    tick_spread [] = some none
    tick_spread (e ∷ live_tick) = elim (spread_bps fl (e ∷ live_tick)) [
      | none ↦ none
      | some spread ↦ some (some spread)
    ]

    abbrev pub raw : String → Value fl → Value fl → Value fl → Payload fl
    raw action tv_price price note =
        let direction : String = if action =ˢ "buy" then "long" else "short" in
        field "trigger" (text "tradingview") (
          field "tv_action" (text action) (
            field "tv_price" tv_price (
              field "live_ref_price" price
                (field "note" note (field "direction" (text direction) no_fields)))))

    abbrev pub opportunity :
        String → String → Dict String → Option fl.F → Payload fl → Opportunity fl
    opportunity symbol venue state spread raw_signal = record {
      strategy_type = "swing";
      venue = venue;
      source = "tradingview";
      symbol_primary = symbol;
      symbol_secondary = none;
      detected_at = ctx.now;
      latency_profile = lookup_or "latency_profile" "standard" state;
      spread = spread;
      z_score = none;
      funding_rate = none;
      expected_return_bps = some ctx.swing_min_edge_bps;
      fee_cost_bps = some (num_zero fl);
      net_edge_bps = some ctx.swing_min_edge_bps;
      paper_mode = if ctx.is_live then false else true;
      raw_signal = some raw_signal;
    }

    unfoldable pub publish :
        {r : Redis fl}
        → String
        → String
        → String
        → Dict String
        → Value fl
        → Value fl
        → Dict String
        → Exec r Bool
    publish symbol action venue state tv_price note live_tick = do
      price ← or_raise (ref_price tv_price live_tick)
      spread ← or_raise (tick_spread live_tick)
      valid ←
          or_raise (create (opportunity symbol venue state spread (raw action tv_price price note)))
      publish_opportunity ctx.pyd ctx.uuid valid
      pure true

    -- The symbol, the action, the venue, the state, the price and the note of the signal.
    unfoldable pub run_from_signal :
        {r : Redis fl} → String → String → String → Dict String → Value fl → Value fl → Exec r Bool
    run_from_signal {r} symbol action venue state tv_price note =
        if is_idle action then pure false else (do
          live_tick ← reads (read_latest_tick r venue symbol)
          publish symbol action venue state tv_price note live_tick)
