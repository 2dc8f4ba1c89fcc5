-- ===== src/Executor/Legs/Scaling.antt =====
-- services/executor/app/consumer.py: the money for a leg.
use messiah_fx_prod.Prelude.{
  String, true, not, ◌&&◌, ◌≡◌, refl, ◌⊎◌, inl, inr, Option, none, some, List, Bool-cases,
  if◌then◌else◌,
}
use messiah_fx_prod.Numbers.{Floats, num_one}
use messiah_fx_prod.Numbers.Laws.{IsOrdered}
use messiah_fx_prod.Volatility.Limits.{IsMultiplier, relative_sizing_multiplier-IsMultiplier}
use messiah_fx_prod.Executor.Settings.{Settings}
use messiah_fx_prod.Executor.VolSizing.{multiplier}
use messiah_fx_prod.Executor.Leg.{Outside}
use messiah_fx_prod.Executor.Legs.{Moment, leg_usd}

module _ {fl : Floats} (laws : IsOrdered fl) (outside : Outside fl) (settings : Settings fl)
    (in_order : fl.le settings.vol_target_min settings.vol_target_max ≡ true) where
  multiplier-IsMultiplier :
      (candles : Option (List (Option fl.F)))
      → IsMultiplier laws settings.vol_target_min settings.vol_target_max
          (multiplier outside.roots settings candles)
  unfolding multiplier
  multiplier-IsMultiplier none = inl refl
  multiplier-IsMultiplier (some candles) =
      relative_sizing_multiplier-IsMultiplier laws outside.roots _ settings.vol_target_lam
        settings.vol_target_min settings.vol_target_max in_order

  -- The money as it was, or scaled by a multiplier within the limits.
  abbrev pub IsScaled : fl.F → fl.F → Type 0
  IsScaled position_usd usd =
      (usd ≡ position_usd)
      ⊎ ((m : fl.F) × (((fl.le settings.vol_target_min m ≡ true)
              × (fl.le m settings.vol_target_max ≡ true))
            × (usd ≡ fl.mul position_usd m)))

  IsScaled-by :
      (position_usd m : fl.F)
      → fl.eq (num_one fl) (num_one fl) ≡ true
      → IsMultiplier laws settings.vol_target_min settings.vol_target_max m
      → IsScaled position_usd (
          if settings.vol_target_enabled && not (fl.eq m (num_one fl))
          then fl.mul position_usd m
          else position_usd)
  IsScaled-by position_usd m one_is_one (inr within) =
      elim (Bool-cases (settings.vol_target_enabled && not (fl.eq m (num_one fl)))) [
        | inl scaled ↦ rw scaled (inr (m, (within, refl)))
        | inr not_scaled ↦ rw not_scaled (inl refl)
      ]
  IsScaled-by position_usd m one_is_one (inl is_one) =
      let same : fl.eq m (num_one fl) ≡ true = rw is_one one_is_one in
      elim (Bool-cases settings.vol_target_enabled) [
        | inl enabled ↦ rw (enabled, same) (inl refl)
        | inr disabled ↦ rw disabled (inl refl)
      ]

  -- For floats that meet IsOrdered and in which 1.0 equals itself, and limits in order: a leg gets the
  -- size of the strategy, or that times a multiplier from VOL_TARGET_MIN to VOL_TARGET_MAX.
  pub leg_usd-IsScaled :
      (moment : Moment fl) (position_usd : fl.F) (venue symbol : String)
      → fl.eq (num_one fl) (num_one fl) ≡ true
      → IsScaled position_usd (leg_usd outside settings moment position_usd venue symbol)
  leg_usd-IsScaled moment position_usd venue symbol one_is_one =
      IsScaled-by position_usd (multiplier outside.roots settings (moment.closes venue symbol))
        one_is_one (multiplier-IsMultiplier (moment.closes venue symbol))
