-- ===== src/Strategies/StatArb/Hedge.antt =====
-- services/strategy/app/strategies/stat_arb.py and services/executor/app/consumer.py: what a signal sends,
-- and how the executor trades it.
use messiah_fx_prod.Prelude.{
  String, Bool, true, false, ◌≡◌, ◌≢◌, refl, ◌⊎◌, inl, inr, Option, none, some, List, [], ◌∷◌, ◌++◌,
  ◌=ˢ◌, ◌||◌, ◌&&◌, not, eq_iff, if◌then◌else◌, Bool-cases, Option-cases,
}
use messiah_fx_prod.Prelude.Dict.{Dict}
use messiah_fx_prod.Numbers.{Floats, num_zero}
use messiah_fx_prod.Payload.{Payload, Value, text}
use messiah_fx_prod.Redis.{Redis, World}
use messiah_fx_prod.Opportunities.{
  Opportunity, is_valid, create, model_dump, publish_command, publish_opportunity,
}
use messiah_fx_prod.Executor.Plan.{Leg, plan_single, build_order_plan}
use messiah_fx_prod.Strategies.Base.{read_tick_cache, read_latest_tick}
use messiah_fx_prod.Strategies.StatArb.{
  Context, net_edge, legs_by_action, opportunity, offer, consider, scan, tradingview_opportunity,
  run_from_signal,
}
use messiah_fx_prod.Strategies.StatArb.Spread.{Reading, spot_to_perp, rolling_z_score, tick_mid}
use messiah_fx_prod.Strategies.StatArb.Symbols.{spot_to_perp-ne}

-- Nothing was sent, and the answer is not that there was an opportunity.
abbrev pub IsQuiet : {fl : Floats} {r : Redis fl} → World r → Option Bool × World r → Type 0
IsQuiet w out = (out.0 ≢ some true) × (out.1.sent ≡ w.sent)

module _ {fl : Floats} {r : Redis fl} (ctx : Context fl) where
  -- One valid opportunity was published, for a spread that is far from its mean and worth the fees.
  pub record IsOffered (opp : Reading fl → fl.F → Opportunity fl) (o : Option (Reading fl))
      (tick : Dict String) (w : World r) (out : Option Bool × World r) : Type 0 where
    pub reading : Reading fl
    pub spot_mid : fl.F
    pub measured : o ≡ some reading
    pub priced : tick_mid fl tick ≡ some spot_mid
    pub answers : out.0 ≡ some true
    pub sends : out.1.sent ≡ w.sent ++ publish_command ctx.pyd ctx.uuid (opp reading spot_mid) ∷ []
    pub far : fl.lt (fl.abs reading.z_score) ctx.stat_arb_entry_z ≡ false
    pub worth : fl.lt (net_edge ctx reading spot_mid) ctx.stat_arb_min_edge_bps ≡ false
    pub valid : is_valid (opp reading spot_mid) ≡ true

  offer-IsOffered :
      (symbol : String) (x : Reading fl) (opp : Reading fl → fl.F → Opportunity fl)
      (tick : Dict String) (w : World r)
      → fl.lt (fl.abs x.z_score) ctx.stat_arb_entry_z ≡ false
      → IsQuiet w (offer ctx symbol x (opp x) tick w)
        ⊎ IsOffered opp (some x) tick w (offer ctx symbol x (opp x) tick w)
  unfolding offer create publish_opportunity
  offer-IsOffered symbol x opp [] w far = inl ((λ h. cc h), refl)
  offer-IsOffered symbol x opp (entry ∷ tick) w far =
      elim (Option-cases (tick_mid fl (entry ∷ tick))) [
        | inl unread ↦ rw unread (inl ((λ h. cc h), refl))
        | inr mid ↦ elim (Bool-cases (fl.le mid.0 (num_zero fl))) [
          | inl low ↦ rw (mid.1, low) (inl ((λ h. cc h), refl))
          | inr high ↦ elim (Bool-cases (fl.lt (net_edge ctx x mid.0) ctx.stat_arb_min_edge_bps)) [
            | inl thin ↦ rw (mid.1, high, thin) (inl ((λ h. cc h), refl))
            | inr worth ↦ elim (Bool-cases (is_valid (opp x mid.0))) [
              | inl valid ↦
                  rw (mid.1, high, worth, valid)
                    (inr (record {
                      reading = x;
                      spot_mid = mid.0;
                      measured = refl;
                      priced = mid.1;
                      answers = refl;
                      sends = refl;
                      far = far;
                      worth = worth;
                      valid = valid;
                    }))
              | inr invalid ↦ rw (mid.1, high, worth, invalid) (inl ((λ h. cc h), refl))
            ]
          ]
        ]
      ]

  consider-IsOffered :
      (symbol : String) (opp : Reading fl → fl.F → Opportunity fl) (o : Option (Reading fl))
      (w : World r)
      → IsQuiet w (consider ctx symbol opp o w)
        ⊎ IsOffered opp o
            (read_latest_tick r "binance" symbol w.server)
            w
            (consider ctx symbol opp o w)
  consider-IsOffered symbol opp none w = inl ((λ h. cc h), refl)
  consider-IsOffered symbol opp (some x) w =
      elim (Bool-cases (fl.lt (fl.abs x.z_score) ctx.stat_arb_entry_z)) [
        | inl near ↦ rw near (inl ((λ h. cc h), refl))
        | inr far ↦
            rw far
              (offer-IsOffered symbol x opp (read_latest_tick r "binance" symbol w.server) w far)
      ]

  -- The reading is that of the cached ticks of the two symbols, and the price that of the last tick.
  abbrev pub IsScanned :
      String
      → String
      → (Reading fl → fl.F → Opportunity fl)
      → World r
      → Option Bool × World r
      → Type 0
  IsScanned symbol perp opp w =
      IsOffered opp
        (rolling_z_score ctx.numpy (read_tick_cache r "binance" symbol ctx.stat_arb_window w.server)
          (read_tick_cache r "binance" perp ctx.stat_arb_window w.server))
        (read_latest_tick r "binance" symbol w.server) w

  -- From the symbol of the perpetual on, which the reading's opportunity is made for.
  scan-IsOffered :
      (symbol : String) (opp : String → Reading fl → fl.F → Opportunity fl) (w : World r)
      → IsQuiet w (scan ctx symbol opp w)
        ⊎ ((perp : String) × (spot_to_perp symbol ≡ some perp)
            × IsScanned symbol perp (opp perp) w (scan ctx symbol opp w))
  unfolding scan
  scan-IsOffered symbol opp w = elim (Option-cases (spot_to_perp symbol)) [
    | inl bad ↦ rw bad (inl ((λ h. cc h), refl))
    | inr good ↦ rw good.1 (
        let spot_ticks = read_tick_cache r "binance" symbol ctx.stat_arb_window w.server in
        let perp_ticks = read_tick_cache r "binance" good.0 ctx.stat_arb_window w.server in
        elim (consider-IsOffered symbol (opp good.0)
          (rolling_z_score ctx.numpy spot_ticks perp_ticks) w) [
            | inl quiet ↦ inl quiet
            | inr offered ↦ inr (good.0, refl, offered)
          ])
  ]

-- The primary symbol is sold and the secondary is bought, both at binance.
abbrev pub hedge : (fl : Floats) → String × String → List (Leg fl)
hedge fl legs =
    record { venue = text "binance"; symbol = text legs.0; side = "sell" }
    ∷ record { venue = text "binance"; symbol = text legs.1; side = "buy" }
    ∷ []

plan-hedge :
    {fl : Floats} (ctx : Context fl) (state : Dict String) (source : String)
    (legs : String × String) (x : Reading fl) (spot_mid : fl.F) (raw : Payload fl)
    → (legs.0 =ˢ "") ≡ false
    → (legs.1 =ˢ "") ≡ false
    → build_order_plan (model_dump ctx.pyd (opportunity ctx state source legs x spot_mid raw))
      ≡ some (hedge fl legs)
unfolding build_order_plan plan_single
plan-hedge ctx state source legs x spot_mid raw h0 h1 = rw (h0, h1) refl

-- Whether the spot is sold, and the perpetual bought.
abbrev pub sells_spot : {fl : Floats} → String → Reading fl → Bool
sells_spot {fl} action x =
    (action =ˢ "sell") || not (action =ˢ "buy") && fl.lt (num_zero fl) x.z_score

legs_by_action_lem :
    {fl : Floats} (action : String) (x : Reading fl) (symbol perp : String)
    → legs_by_action action x symbol perp
      ≡ (if sells_spot action x then (symbol, perp) else (perp, symbol))
legs_by_action_lem {fl} action x symbol perp = elim (Bool-cases (action =ˢ "buy")) [
  | inl buy ↦ rw ((eq_iff action "buy").0 buy) refl
  | inr other ↦ elim (Bool-cases (action =ˢ "sell")) [
    | inl sell ↦ rw (other, sell) refl
    | inr alert ↦ rw (other, alert) refl
  ]
]

legs_ne :
    (sold : Bool) (symbol perp : String)
    → ((symbol =ˢ "") ≡ false) × ((perp =ˢ "") ≡ false)
    → let legs : String × String = if sold then (symbol, perp) else (perp, symbol) in
      ((legs.0 =ˢ "") ≡ false) × ((legs.1 =ˢ "") ≡ false)
legs_ne true symbol perp h = h
legs_ne false symbol perp h = (h.1, h.0)

-- One valid opportunity is published, and the executor's plan for it sells one leg and buys the other.
pub record IsHedged {fl : Floats} {r : Redis fl} (ctx : Context fl) (symbol action : String)
    (tv_price : Value fl) (state : Dict String) (w : World r) (out : Option Bool × World r)
    : Type 0 where
  pub perp : String
  pub is_perp : spot_to_perp symbol ≡ some perp
  pub offered :
      IsScanned ctx symbol perp
        (tradingview_opportunity ctx action tv_price state symbol perp)
        w
        out
  pub plan :
      build_order_plan (
        model_dump ctx.pyd (
          tradingview_opportunity ctx action tv_price state symbol perp offered.reading
            offered.spot_mid))
      ≡ some
          (hedge fl (if sells_spot action offered.reading then (symbol, perp) else (perp, symbol)))

-- A TradingView signal of the statistical arbitrage either sends nothing and does not answer that there
-- was an opportunity, or it answers so and sends one valid opportunity: its reading is at least the
-- entry threshold away from the mean, its net edge is at least the minimum, and the plan that the
-- executor makes of it has two legs at binance, the spot symbol and its perpetual, of which the first is
-- sold and the second is bought: the spot is bought for the action "buy", sold for "sell", and for any other
-- action sold exactly if the score is positive.
pub run_from_signal-IsHedged :
    {fl : Floats} {r : Redis fl} (ctx : Context fl) (symbol action : String) (tv_price : Value fl)
    (state : Dict String) (w : World r)
    → IsQuiet w (run_from_signal ctx symbol action tv_price state w)
      ⊎ IsHedged ctx symbol action tv_price state w
          (run_from_signal ctx symbol action tv_price state w)
unfolding run_from_signal
run_from_signal-IsHedged ctx symbol action tv_price state w =
    elim (scan-IsOffered ctx symbol (tradingview_opportunity ctx action tv_price state symbol) w) [
      | inl quiet ↦ inl quiet
      | inr (perp, is_perp, offered) ↦
          let x = offered.reading in
          let ne =
            legs_ne (sells_spot action x) symbol perp (spot_to_perp-ne symbol perp is_perp) in
          inr (record {
            perp = perp;
            is_perp = is_perp;
            offered = offered;
            plan =
                rw (legs_by_action_lem action x symbol perp)
                  (plan-hedge ctx state "tradingview" _ x offered.spot_mid _ ne.0 ne.1);
          })
    ]
