-- ===== src/Strategies/Swing/Direction.antt =====
-- services/strategy/app/strategies/swing.py and services/executor/app/consumer.py: a signal is traded in
-- the direction that it names.
use messiah_fx_prod.Prelude.{
  String, Bool, true, false, ◌≡◌, refl, ◌⊎◌, inl, inr, Option, some, [], arith, ◌∷◌, ◌++◌, ◌=ˢ◌,
  eq_iff, Bool-cases, Option-cases,
}
use messiah_fx_prod.Prelude.Text.{lower, strip}
use messiah_fx_prod.Prelude.Dict.{Dict}
use messiah_fx_prod.Numbers.{Floats}
use messiah_fx_prod.Payload.{Value, text}
use messiah_fx_prod.Redis.{Redis, World}
use messiah_fx_prod.Opportunities.{
  Opportunity, is_valid, create, model_dump, publish_command, publish_opportunity,
}
use messiah_fx_prod.Executor.Plan.{side_of, resolve_side, plan_single, build_order_plan}
use messiah_fx_prod.Strategies.Base.{read_latest_tick}
use messiah_fx_prod.Strategies.StatArb.Hedge.{IsQuiet}
use messiah_fx_prod.Strategies.Swing.{
  Context, raw, opportunity, is_idle, ref_price, tick_spread, publish, run_from_signal,
}

plan_lem :
    {fl : Floats} (ctx : Context fl) (symbol action venue : String) (state : Dict String)
    (spread : Option fl.F) (tv_price price note : Value fl)
    → (symbol =ˢ "") ≡ false
    → (action ≡ "buy") ⊎ (action ≡ "sell")
    → build_order_plan (
        model_dump ctx.pyd
          (opportunity ctx symbol venue state spread (raw ctx action tv_price price note)))
      ≡ some (record { venue = text venue; symbol = text symbol; side = action } ∷ [])
unfolding build_order_plan plan_single resolve_side side_of lower strip
plan_lem ctx symbol action venue state spread tv_price price note h (inl buy) = rw (buy, h) refl
plan_lem ctx symbol action venue state spread tv_price price note h (inr sell) = rw (sell, h) refl

-- Which actions trade.
is_idle-cases :
    (action : String)
    → (is_idle action ≡ true) ⊎ ((is_idle action ≡ false) × ((action ≡ "buy") ⊎ (action ≡ "sell")))
is_idle-cases action = elim (Bool-cases (action =ˢ "buy")) [
  | inl buy ↦ let e = (eq_iff action "buy").0 buy in inr (rw e refl, inl e)
  | inr other ↦ elim (Bool-cases (action =ˢ "sell")) [
    | inl sell ↦ let e = (eq_iff action "sell").0 sell in inr (rw e refl, inr e)
    | inr neither ↦ inl (rw (other, neither) (grind arith))
  ]
]

module _ {fl : Floats} {r : Redis fl} (ctx : Context fl) where
  -- One valid opportunity was published, whose plan is a leg on the side that the signal names.
  pub record IsFollowed (symbol action venue : String) (state : Dict String)
      (tv_price note : Value fl) (w : World r) (out : Option Bool × World r) : Type 0 where
    pub price : Value fl
    pub spread : Option fl.F
    pub answers : out.0 ≡ some true
    pub trades : (action ≡ "buy") ⊎ (action ≡ "sell")
    pub sends :
        out.1.sent
        ≡ w.sent
          ++ publish_command ctx.pyd ctx.uuid
              (opportunity ctx symbol venue state spread (raw ctx action tv_price price note))
            ∷ []
    pub valid :
        is_valid (opportunity ctx symbol venue state spread (raw ctx action tv_price price note))
        ≡ true
    pub plan :
        build_order_plan (
          model_dump ctx.pyd
            (opportunity ctx symbol venue state spread (raw ctx action tv_price price note)))
        ≡ some (record { venue = text venue; symbol = text symbol; side = action } ∷ [])

  publish-IsFollowed :
      (symbol action venue : String) (state : Dict String) (tv_price note : Value fl)
      (live_tick : Dict String) (w : World r)
      → (symbol =ˢ "") ≡ false
      → (action ≡ "buy") ⊎ (action ≡ "sell")
      → IsQuiet w (publish ctx symbol action venue state tv_price note live_tick w)
        ⊎ IsFollowed symbol action venue state tv_price note w
            (publish ctx symbol action venue state tv_price note live_tick w)
  unfolding publish create publish_opportunity
  publish-IsFollowed symbol action venue state tv_price note live_tick w h trades =
      elim (Option-cases (ref_price ctx tv_price live_tick)) [
        | inl unread ↦ rw unread (inl ((λ k. cc k), refl))
        | inr (price, p) ↦ elim (Option-cases (tick_spread ctx live_tick)) [
          | inl unread ↦ rw (p, unread) (inl ((λ k. cc k), refl))
          | inr (spread, s) ↦
              let opp : Opportunity fl =
                opportunity ctx symbol venue state spread (raw ctx action tv_price price note) in
              elim (Bool-cases (is_valid opp)) [
                | inr invalid ↦ rw (p, s, invalid) (inl ((λ k. cc k), refl))
                | inl valid ↦
                    rw (p, s, valid)
                      (inr (record {
                        price = price;
                        spread = spread;
                        answers = refl;
                        trades = trades;
                        sends = refl;
                        valid = valid;
                        plan =
                            plan_lem ctx symbol action venue state spread tv_price price note h
                              trades;
                      }))
              ]
        ]
      ]

  -- A TradingView signal of the swing strategy, with a symbol that is not empty, either sends nothing and
  -- does not answer that there was an opportunity, or its action is to buy or to sell, and it answers so
  -- and sends one valid opportunity, for which the executor plans one leg: the symbol of the signal, at
  -- the venue of the signal, on the side that its action names.
  pub run_from_signal-IsFollowed :
      (symbol action venue : String) (state : Dict String) (tv_price note : Value fl) (w : World r)
      → (symbol =ˢ "") ≡ false
      → IsQuiet w (run_from_signal ctx symbol action venue state tv_price note w)
        ⊎ IsFollowed symbol action venue state tv_price note w
            (run_from_signal ctx symbol action venue state tv_price note w)
  unfolding run_from_signal
  run_from_signal-IsFollowed symbol action venue state tv_price note w h =
      elim (is_idle-cases action) [
        | inl idle ↦ rw idle (inl ((λ k. cc k), refl))
        | inr (busy, trades) ↦ rw busy (
            publish-IsFollowed symbol action venue state tv_price note
              (read_latest_tick r venue symbol w.server) w h trades)
      ]
