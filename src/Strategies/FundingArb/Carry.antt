-- ===== src/Strategies/FundingArb/Carry.antt =====
-- services/strategy/app/strategies/funding_arb.py and services/executor/app/consumer.py: what a signal
-- sends, and how the executor trades it.
use messiah_fx_prod.Prelude.{
  String, Bool, true, false, ◌≡◌, refl, ◌⊎◌, inl, inr, Option, none, some, List, [], ◌∷◌, ◌++◌,
  ◌=ˢ◌, Bool-cases, Option-cases,
}
use messiah_fx_prod.Prelude.Dict.{Dict, lookup}
use messiah_fx_prod.Numbers.{Floats, num_zero}
use messiah_fx_prod.Payload.{Payload, Value, text}
use messiah_fx_prod.Redis.{Redis, World}
use messiah_fx_prod.Opportunities.{
  Opportunity, is_valid, create, model_dump, publish_command, publish_opportunity,
}
use messiah_fx_prod.Executor.Plan.{Leg, plan_single, build_order_plan}
use messiah_fx_prod.Strategies.Base.{read_latest_tick}
use messiah_fx_prod.Strategies.StatArb.Spread.{spot_to_perp}
use messiah_fx_prod.Strategies.StatArb.Symbols.{spot_to_perp-ne}
use messiah_fx_prod.Strategies.StatArb.Hedge.{IsQuiet}
use messiah_fx_prod.Strategies.FundingArb.{
  Context, RateCache, spot_to_api_symbol, spread_bps, fetched, get_funding_rate, net_edge,
  opportunity, offer, consider, scan_pair, scan, tradingview_opportunity, run_from_signal,
}

module _ {fl : Floats} (ctx : Context fl) where
  -- The rate was fetched less than the poll interval ago, or the exchange answers it now.
  abbrev pub IsFresh : String → RateCache fl → fl.F → Type 0
  IsFresh api_symbol cache rate =
      ((at : fl.F) × (lookup api_symbol cache ≡ some (rate, at))
        × (fl.lt (fl.sub ctx.monotonic at) ctx.funding_arb_poll_seconds ≡ true))
      ⊎ (ctx.last_funding_rate api_symbol ≡ some rate)

  fetched_lem :
      (api_symbol : String) (cache : RateCache fl) (rate : fl.F)
      → (fetched ctx api_symbol (ctx.last_funding_rate api_symbol) cache).0 ≡ some rate
      → ctx.last_funding_rate api_symbol ≡ some rate
  fetched_lem api_symbol cache rate = elim (Option-cases (ctx.last_funding_rate api_symbol)) [
    | inl failed ↦ rw failed (λ h. h)
    | inr answered ↦ rw answered.1 (λ h. h)
  ]

  get_funding_rate-IsFresh :
      (api_symbol : String) (cache : RateCache fl) (rate : fl.F)
      → (get_funding_rate ctx api_symbol cache).0 ≡ some rate
      → IsFresh api_symbol cache rate
  unfolding get_funding_rate
  get_funding_rate-IsFresh api_symbol cache rate = elim (Option-cases (lookup api_symbol cache)) [
    | inl unknown ↦ rw unknown (λ h. inr (fetched_lem api_symbol cache rate h))
    | inr ((r, at), known) ↦
        elim (Bool-cases (fl.lt (fl.sub ctx.monotonic at) ctx.funding_arb_poll_seconds)) [
          | inl young ↦ rw (known, young) (λ h. inl (at, cc h, young))
          | inr old ↦ rw (known, old) (λ h. inr (fetched_lem api_symbol cache rate h))
        ]
  ]

  module _ {r : Redis fl} where
    -- One valid opportunity was published, for a positive rate that is worth the costs.
    pub record IsOffered (opp : fl.F → fl.F → fl.F → Opportunity fl)
        (spot_tick perp_tick : Dict String) (asked : Option fl.F) (w : World r)
        (out : Option Bool × World r) : Type 0 where
      pub rate : fl.F
      pub spot_spread : fl.F
      pub perp_spread : fl.F
      pub is_rate : asked ≡ some rate
      pub is_spot_spread : spread_bps fl spot_tick ≡ some spot_spread
      pub is_perp_spread : spread_bps fl perp_tick ≡ some perp_spread
      pub answers : out.0 ≡ some true
      pub sends :
          out.1.sent
          ≡ w.sent ++ publish_command ctx.pyd ctx.uuid (opp rate spot_spread perp_spread) ∷ []
      pub positive : fl.le rate (num_zero fl) ≡ false
      pub worth :
          fl.lt (net_edge ctx rate spot_spread perp_spread) ctx.funding_arb_min_edge_bps ≡ false
      pub valid : is_valid (opp rate spot_spread perp_spread) ≡ true

    offer-IsOffered :
        (spot_tick perp_tick : Dict String) (opp : fl.F → fl.F → fl.F → Opportunity fl)
        (asked : Option fl.F) (w : World r)
        → IsQuiet w (offer ctx spot_tick perp_tick opp asked w)
          ⊎ IsOffered opp spot_tick perp_tick asked w (offer ctx spot_tick perp_tick opp asked w)
    unfolding offer create publish_opportunity
    offer-IsOffered spot_tick perp_tick opp none w = inl ((λ h. cc h), refl)
    offer-IsOffered spot_tick perp_tick opp (some rate) w =
        elim (Bool-cases (fl.le rate (num_zero fl))) [
          | inl low ↦ rw low (inl ((λ h. cc h), refl))
          | inr high ↦ elim (Option-cases (spread_bps fl spot_tick)) [
            | inl unread ↦ rw (high, unread) (inl ((λ h. cc h), refl))
            | inr (a, is_a) ↦ elim (Option-cases (spread_bps fl perp_tick)) [
              | inl unread ↦ rw (high, is_a, unread) (inl ((λ h. cc h), refl))
              | inr (b, is_b) ↦
                  elim (Bool-cases (fl.lt (net_edge ctx rate a b) ctx.funding_arb_min_edge_bps)) [
                    | inl thin ↦ rw (high, is_a, is_b, thin) (inl ((λ h. cc h), refl))
                    | inr worth ↦ elim (Bool-cases (is_valid (opp rate a b))) [
                      | inr invalid ↦
                          rw (high, is_a, is_b, worth, invalid) (inl ((λ h. cc h), refl))
                      | inl valid ↦
                          rw (high, is_a, is_b, worth, valid)
                            (inr (record {
                              rate = rate;
                              spot_spread = a;
                              perp_spread = b;
                              is_rate = refl;
                              is_spot_spread = is_a;
                              is_perp_spread = is_b;
                              answers = refl;
                              sends = refl;
                              positive = high;
                              worth = worth;
                              valid = valid;
                            }))
                    ]
                  ]
            ]
          ]
        ]

    -- The rate is that of the symbol of the exchange, and the ticks are the last ones of the two symbols.
    abbrev pub IsScanned :
        String
        → String
        → (Dict String → Dict String → fl.F → fl.F → fl.F → Opportunity fl)
        → RateCache fl
        → World r
        → Option Bool × World r
        → Type 0
    IsScanned symbol perp opp cache w =
        let spot_tick = read_latest_tick r "binance" symbol w.server in
        let perp_tick = read_latest_tick r "binance" perp w.server in
        IsOffered (opp spot_tick perp_tick) spot_tick perp_tick
          (get_funding_rate ctx (spot_to_api_symbol symbol) cache).0 w

    consider-IsOffered :
        (api_symbol : String) (spot_tick perp_tick : Dict String)
        (opp : fl.F → fl.F → fl.F → Opportunity fl) (cache : RateCache fl) (w : World r)
        → IsQuiet w (consider ctx api_symbol spot_tick perp_tick opp cache w).0
          ⊎ IsOffered opp spot_tick perp_tick
              (get_funding_rate ctx api_symbol cache).0
              w
              (consider ctx api_symbol spot_tick perp_tick opp cache w).0
    consider-IsOffered api_symbol [] perp_tick opp cache w = inl ((λ h. cc h), refl)
    consider-IsOffered api_symbol (e ∷ spot_tick) [] opp cache w = inl ((λ h. cc h), refl)
    consider-IsOffered api_symbol (e ∷ spot_tick) (f ∷ perp_tick) opp cache w =
        offer-IsOffered (e ∷ spot_tick) (f ∷ perp_tick) opp
          (get_funding_rate ctx api_symbol cache).0 w

    scan_pair-IsOffered :
        (symbol : String)
        (opp : String → Dict String → Dict String → fl.F → fl.F → fl.F → Opportunity fl)
        (pair : Option String) (cache : RateCache fl) (w : World r)
        → IsQuiet w (scan_pair ctx symbol opp pair cache w).0
          ⊎ ((perp : String) × (pair ≡ some perp)
              × IsScanned symbol perp (opp perp) cache w (scan_pair ctx symbol opp pair cache w).0)
    scan_pair-IsOffered symbol opp none cache w = inl ((λ h. cc h), refl)
    scan_pair-IsOffered symbol opp (some perp) cache w =
        let spot_tick = read_latest_tick r "binance" symbol w.server in
        let perp_tick = read_latest_tick r "binance" perp w.server in
        let api_symbol = spot_to_api_symbol symbol in
        elim (consider-IsOffered api_symbol spot_tick perp_tick (opp perp spot_tick perp_tick) cache
          w) [ inl quiet ↦ inl quiet | inr offered ↦ inr (perp, refl, offered) ]

-- The spot is bought and the perpetual is sold, both at binance.
abbrev pub carry : (fl : Floats) → String → String → List (Leg fl)
carry fl symbol perp =
    record { venue = text "binance"; symbol = text symbol; side = "buy" }
    ∷ record { venue = text "binance"; symbol = text perp; side = "sell" }
    ∷ []

plan-carry :
    {fl : Floats} (ctx : Context fl) (state : Dict String) (source symbol perp : String)
    (rate a b : fl.F) (raw : Payload fl)
    → ((symbol =ˢ "") ≡ false) × ((perp =ˢ "") ≡ false)
    → build_order_plan (model_dump ctx.pyd (opportunity ctx state source symbol perp rate a b raw))
      ≡ some (carry fl symbol perp)
unfolding build_order_plan plan_single
plan-carry ctx state source symbol perp rate a b raw h = rw (h.0, h.1) refl

pub record IsCarried {fl : Floats} {r : Redis fl} (ctx : Context fl) (symbol action : String)
    (tv_price : Value fl) (state : Dict String) (cache : RateCache fl) (w : World r)
    (out : Option Bool × World r) : Type 0 where
  pub perp : String
  pub is_perp : spot_to_perp symbol ≡ some perp
  pub offered :
      IsScanned ctx symbol perp
        (tradingview_opportunity ctx action tv_price state symbol perp)
        cache
        w
        out
  pub fresh : IsFresh ctx (spot_to_api_symbol symbol) cache offered.rate
  pub plan :
      build_order_plan (
        model_dump ctx.pyd (
          tradingview_opportunity ctx action tv_price state symbol perp
            (read_latest_tick r "binance" symbol w.server)
            (read_latest_tick r "binance" perp w.server)
            offered.rate
            offered.spot_spread
            offered.perp_spread))
      ≡ some (carry fl symbol perp)

-- A TradingView signal of the funding arbitrage either sends nothing and does not answer that there was
-- an opportunity, or it answers so and sends one valid opportunity: its funding rate is positive and was
-- fetched less than the poll interval ago or is answered now, its net edge is at least the minimum, and
-- the executor's plan for it buys the spot and sells its perpetual at binance, whatever the action is.
pub run_from_signal-IsCarried :
    {fl : Floats} {r : Redis fl} (ctx : Context fl) (symbol action : String) (tv_price : Value fl)
    (state : Dict String) (cache : RateCache fl) (w : World r)
    → IsQuiet w (run_from_signal ctx symbol action tv_price state cache w).0
      ⊎ IsCarried ctx symbol action tv_price state cache w
          (run_from_signal ctx symbol action tv_price state cache w).0
unfolding run_from_signal scan
run_from_signal-IsCarried ctx symbol action tv_price state cache w =
    elim (scan_pair-IsOffered ctx symbol (tradingview_opportunity ctx action tv_price state symbol)
      (spot_to_perp symbol) cache w) [
        | inl quiet ↦ inl quiet
        | inr (perp, is_perp, offered) ↦ inr (record {
          perp = perp;
          is_perp = is_perp;
          offered = offered;
          fresh =
              get_funding_rate-IsFresh ctx (spot_to_api_symbol symbol) cache offered.rate
                offered.is_rate;
          plan =
              plan-carry ctx state "tradingview" symbol perp offered.rate offered.spot_spread
                offered.perp_spread _ (spot_to_perp-ne symbol perp is_perp);
        })
      ]
