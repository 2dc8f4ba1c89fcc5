-- ===== src/Regimes/Known.antt =====
-- shared/mezna_shared/regime_map.py: every regime prefers known strategies, and all are planned.
use messiah_fx_prod.Prelude.{
  String, true, false, ◌≡◌, refl, ◌⊎◌, inl, inr, Option, some, List, [], ◌∷◌,
}
use messiah_fx_prod.Prelude.Dict.{contains, lookup, All, All-contains, AllEntries-lookup_or}
use messiah_fx_prod.Numbers.{Floats}
use messiah_fx_prod.Payload.{Payload, text, object, null, get, get_or, truthy}
use messiah_fx_prod.Regimes.{
  unknown_preferred, regime_strategy_map, all_strategies, preferred_for_regime,
}
use messiah_fx_prod.Executor.Plan.{
  Leg, primary, secondary, leg_directions, single_leg_strategies, resolve_side, as_key, as_signal,
  plan_single, build_order_plan,
}

abbrev IsKnown : String → Type 0
IsKnown s = contains s all_strategies ≡ true

abbrev pub IsOffer : List String → Type 0
IsOffer [] = ⊥
IsOffer (s ∷ ss) = All IsKnown (s ∷ ss)

-- Whatever the regime's label is, some strategy is preferred, and only known strategies are.
pub preferred_for_regime-IsOffer : (regime : String) → IsOffer (preferred_for_regime regime)
unfolding preferred_for_regime
preferred_for_regime-IsOffer regime =
    AllEntries-lookup_or (λ k. IsOffer) regime_strategy_map regime unknown_preferred
      (
        (refl, (refl, (refl, (refl, (refl, tt))))),
        (
          (refl, (refl, (refl, (refl, (refl, tt))))),
          (
            (refl, (refl, (refl, (refl, tt)))),
            (
              (refl, (refl, (refl, (refl, tt)))),
              (
                (refl, (refl, (refl, (refl, tt)))),
                ((refl, (refl, (refl, (refl, (refl, (refl, tt)))))), tt),
              ),
            ),
          ),
        ),
      )
      (refl, (refl, (refl, (refl, (refl, (refl, tt))))))

-- A strategy is directional, or has directions for its two legs.
abbrev HasDirections : String → Type 0
HasDirections s =
    (contains s single_leg_strategies ≡ true)
    ⊎ ((contains s single_leg_strategies ≡ false)
        × (a : String) × (b : String) × (lookup s leg_directions
            ≡ some ((primary, a) ∷ (secondary, b) ∷ [])))

All-HasDirections : All HasDirections all_strategies
All-HasDirections = (
  inr (refl, "buy", "sell", refl),
  (inr (refl, "sell", "buy", refl), (inl refl, (inl refl, (inl refl, (inl refl, tt))))),
)

module _ {fl : Floats} where
  abbrev pub IsPlanned : Option (List (Leg fl)) → Type 0
  IsPlanned plan = (leg : Leg fl) × (legs : List (Leg fl)) × (plan ≡ some (leg ∷ legs))

  -- No known strategy is dropped: an opportunity of one, with both symbols and a signal whose side can
  -- be told, has a plan with at least one leg.
  pub build_order_plan-IsPlanned :
      (payload d : Payload fl) (s side : String)
      → get "strategy_type" payload ≡ some (text s)
      → contains s all_strategies ≡ true
      → truthy (get_or "symbol_primary" (text "") payload) ≡ true
      → truthy (get_or "symbol_secondary" null payload) ≡ true
      → get "raw_signal" payload ≡ some (object d)
      → resolve_side d ≡ some side
      → IsPlanned (build_order_plan payload)
  unfolding build_order_plan plan_single
  build_order_plan-IsPlanned payload d s side named known first second signal sided =
      let strategy : get_or "strategy_type" (text "") payload ≡ text s = rw (named, get_or) refl in
      let key : as_key (get_or "strategy_type" (text "") payload) ≡ some s =
        rw (strategy, as_key) refl in
      let raw : get_or "raw_signal" null payload ≡ object d = rw (signal, get_or) refl in
      let raw_signal : as_signal (get_or "raw_signal" null payload) ≡ some d =
        rw (raw, as_signal) refl in
      elim (All-contains HasDirections all_strategies s All-HasDirections known) [
        | inl directional ↦ (
          record {
            venue = get_or "venue" (text "binance") payload;
            symbol = get_or "symbol_primary" (text "") payload;
            side = side;
          },
          [],
          rw (build_order_plan, key, directional, plan_single, raw_signal, sided, first) refl,
        )
        | inr (spread, a, b, legs) ↦ (
          record {
            venue = get_or "venue" (text "binance") payload;
            symbol = get_or "symbol_primary" (text "") payload;
            side = a;
          },
          record {
            venue = get_or "venue" (text "binance") payload;
            symbol = get_or "symbol_secondary" null payload;
            side = b;
          }
              ∷ [],
          rw (build_order_plan, key, spread, legs, first, second) refl,
        )
      ]
