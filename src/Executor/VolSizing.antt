-- ===== src/Executor/VolSizing.antt =====
-- services/executor/app/vol_sizing.py: the volatility multiplier of a leg. The closes of the bars of its
-- symbol are an argument, `none` where reading them raises.
use messiah_fx_prod.Prelude.{Option, none, some, List, [], ◌∷◌, if◌then◌else◌}
use messiah_fx_prod.Numbers.{Floats, num_zero, num_one}
use messiah_fx_prod.Redis.{trim}
use messiah_fx_prod.Volatility.{Roots, returns_from_prices, relative_sizing_multiplier}
use messiah_fx_prod.Executor.Settings.{Settings}

module _ (fl : Floats) where
  -- `if c.get("close")`: neither missing nor zero
  abbrev keep_price : Option fl.F → List fl.F → List fl.F
  keep_price none prices = prices
  keep_price (some x) prices = if fl.eq x (num_zero fl) then prices else x ∷ prices

  abbrev prices_of : List (Option fl.F) → List fl.F
  prices_of [] = []
  prices_of (c ∷ candles) = keep_price c (prices_of candles)

module _ {fl : Floats} where
  unfoldable pub multiplier : Roots fl → Settings fl → Option (List (Option fl.F)) → fl.F
  multiplier roots settings none = num_one fl
  multiplier roots settings (some candles) =
      relative_sizing_multiplier fl roots
        (returns_from_prices fl (prices_of fl (trim settings.vol_target_lookback_bars candles)))
        settings.vol_target_lam settings.vol_target_min settings.vol_target_max
