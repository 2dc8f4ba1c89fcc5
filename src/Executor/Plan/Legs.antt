-- ===== src/Executor/Plan/Legs.antt =====
-- services/executor/app/consumer.py: what an order plan can look like, and that every strategy has one.
use messiah_fx_prod.Prelude.{
  String, Bool, true, false, ◌≡◌, refl, ◌⊎◌, inl, inr, Option, none, some, List, [], ◌∷◌, ◌>>=◌,
  if◌then◌else◌, Bool-cases, ◌=ˢ◌,
}
use messiah_fx_prod.Prelude.Dict.{contains, lookup}
use messiah_fx_prod.Numbers.{Floats}
use messiah_fx_prod.Payload.{Payload, Value, text, null, get_or, truthy}
use messiah_fx_prod.Executor.Plan.{
  Leg, primary, secondary, leg_directions, single_leg_strategies, buy_tokens, sell_tokens, or_else,
  single_leg, spread_legs, side_of, resolve_side, as_key, as_signal, plan_single, build_order_plan,
}

abbrev IsSide : String → Type 0
IsSide side = (side ≡ "buy") ⊎ (side ≡ "sell")

side_of-IsSide : (token side : String) → side_of token ≡ some side → IsSide side
unfolding side_of
side_of-IsSide token side h = elim (Bool-cases (contains token buy_tokens)) [
  | inl buys ↦ let e : some "buy" ≡ some side = rw buys at h in inl (cc e)
  | inr other ↦ elim (Bool-cases (contains token sell_tokens)) [
    | inl sells ↦ let e : some "sell" ≡ some side = rw (other, sells) at h in inr (cc e)
    | inr neither ↦ let e : none ≡ some side = rw (other, neither) at h in cc e
  ]
]

or_else-IsSide :
    (first second : Option String) (side : String)
    → ((s : String) → first ≡ some s → IsSide s)
    → ((s : String) → second ≡ some s → IsSide s)
    → or_else first second ≡ some side
    → IsSide side
or_else-IsSide none second side h k e = k side e
or_else-IsSide (some s) second side h k e = h side e

module _ {fl : Floats} where
  -- A leg buys or sells a symbol that is not empty.
  pub record IsLeg (leg : Leg fl) : Type 0 where
    pub traded : truthy leg.symbol ≡ true
    pub sided : (leg.side ≡ "buy") ⊎ (leg.side ≡ "sell")

  -- No leg, one leg, or two at one venue of which one buys and one sells.
  pub data IsPlan : Option (List (Leg fl)) → Type 0 where
    raised : IsPlan none
    skipped : IsPlan (some [])
    directional : {leg : Leg fl} → IsLeg leg → IsPlan (some (leg ∷ []))
    hedged :
        {a b : Leg fl}
        → IsLeg a
        → IsLeg b
        → a.venue ≡ b.venue
        → ((a.side ≡ "buy") × (b.side ≡ "sell")) ⊎ ((a.side ≡ "sell") × (b.side ≡ "buy"))
        → IsPlan (some (a ∷ b ∷ []))

  resolve_side-IsSide : (d : Payload fl) (side : String) → resolve_side d ≡ some side → IsSide side
  unfolding resolve_side
  resolve_side-IsSide d side h = or_else-IsSide _ _ side (side_of-IsSide _) (side_of-IsSide _) h

  single_leg-IsPlan :
      (venue symbol : Value fl) (o : Option String)
      → ((s : String) → o ≡ some s → IsSide s)
      → IsPlan (some (single_leg venue symbol o))
  single_leg-IsPlan venue symbol none h = skipped
  single_leg-IsPlan venue symbol (some side) h = elim (Bool-cases (truthy symbol)) [
    | inl named ↦ rw named (directional (record { traded = named; sided = h side refl }))
    | inr empty ↦ rw empty skipped
  ]

  two_legs-IsPlan :
      (venue p s : Value fl) (x y : String)
      → IsSide x
      → IsSide y
      → ((x ≡ "buy") × (y ≡ "sell")) ⊎ ((x ≡ "sell") × (y ≡ "buy"))
      → IsPlan (some (spread_legs venue p s (some ((primary, x) ∷ (secondary, y) ∷ []))))
  two_legs-IsPlan venue p s x y sx sy opposite = elim (Bool-cases (truthy p)) [
    | inr no_first ↦ rw no_first skipped
    | inl first ↦ elim (Bool-cases (truthy s)) [
      | inr no_second ↦ rw (first, no_second) skipped
      | inl second ↦
          rw (first, second)
            (hedged (record { traded = first; sided = sx }) (record { traded = second; sided = sy })
              refl opposite)
    ]
  ]

  -- The spread strategies: what their two legs make.
  spread_legs-IsPlan :
      (venue p s : Value fl) (key : String)
      → IsPlan (some (spread_legs venue p s (lookup key leg_directions)))
  spread_legs-IsPlan venue p s key = elim (Bool-cases (key =ˢ "funding_arb")) [
    | inl funding ↦
        rw funding (two_legs-IsPlan venue p s "buy" "sell" (inl refl) (inr refl) (inl (refl, refl)))
    | inr other ↦ elim (Bool-cases (key =ˢ "stat_arb")) [
      | inl stat ↦
          rw (other, stat)
            (two_legs-IsPlan venue p s "sell" "buy" (inr refl) (inl refl) (inr (refl, refl)))
      | inr neither ↦ rw (other, neither) skipped
    ]
  ]

  IsPlan-bind {ℓ} :
      {A : Type ℓ} (m : Option A) (k : A → Option (List (Leg fl)))
      → ((a : A) → IsPlan (k a))
      → IsPlan (m >>= k)
  IsPlan-bind none k h = raised
  IsPlan-bind (some a) k h = h a

  IsPlan-if :
      (b : Bool) (m n : Option (List (Leg fl))) → IsPlan m → IsPlan n → IsPlan (if b then m else n)
  IsPlan-if true m n h k = h
  IsPlan-if false m n h k = k

  -- Whatever the opportunity holds, its plan, if none raises, is empty, or one leg, or two legs at
  -- one venue of which one buys and the other sells; every leg trades a symbol that is not empty.
  pub build_order_plan-IsPlan : (payload : Payload fl) → IsPlan (build_order_plan payload)
  unfolding build_order_plan plan_single
  build_order_plan-IsPlan payload =
      let venue = get_or "venue" (text "binance") payload in
      let symbol_primary = get_or "symbol_primary" (text "") payload in
      IsPlan-bind (as_key (get_or "strategy_type" (text "") payload)) _ λ key.
        IsPlan-if (contains key single_leg_strategies) _ _
          (IsPlan-bind (as_signal (get_or "raw_signal" null payload)) _
            λ d. single_leg-IsPlan venue symbol_primary (resolve_side d) (resolve_side-IsSide d))
          (spread_legs-IsPlan venue symbol_primary (get_or "symbol_secondary" null payload) key)
