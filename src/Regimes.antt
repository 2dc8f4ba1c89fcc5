-- ===== src/Regimes.antt =====
-- shared/mezna_shared/regime_map.py: the strategies, and which of them each market regime prefers.
pub mod Known
use messiah_fx_prod.Prelude.{String, List, [], ◌∷◌}
use messiah_fx_prod.Prelude.Dict.{Dict, lookup_or}

abbrev pub unknown_preferred : List String
unknown_preferred =
    "funding_arb" ∷ "stat_arb" ∷ "mean_reversion_scalp" ∷ "swing" ∷ "breakout" ∷ "momentum" ∷ []

abbrev pub regime_strategy_map : Dict (List String)
regime_strategy_map =
    ("trending_bull", "momentum" ∷ "breakout" ∷ "swing" ∷ "stat_arb" ∷ "funding_arb" ∷ [])
    ∷ ("trending_bear", "breakout" ∷ "momentum" ∷ "stat_arb" ∷ "swing" ∷ "funding_arb" ∷ [])
    ∷ ("ranging", "mean_reversion_scalp" ∷ "stat_arb" ∷ "funding_arb" ∷ "swing" ∷ [])
    ∷ ("high_volatility", "funding_arb" ∷ "stat_arb" ∷ "mean_reversion_scalp" ∷ "breakout" ∷ [])
    ∷ ("low_volatility", "mean_reversion_scalp" ∷ "funding_arb" ∷ "stat_arb" ∷ "swing" ∷ [])
    ∷ ("unknown", unknown_preferred)
    ∷ []

abbrev pub all_strategies : List String
all_strategies =
    "funding_arb" ∷ "stat_arb" ∷ "swing" ∷ "breakout" ∷ "mean_reversion_scalp" ∷ "momentum" ∷ []

unfoldable pub preferred_for_regime : String → List String
preferred_for_regime regime = lookup_or regime unknown_preferred regime_strategy_map
