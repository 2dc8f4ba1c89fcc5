-- ===== src/Executor/Sizing/Limits.antt =====
-- services/executor/app/consumer.py: what limits the size of a leg.
use messiah_fx_prod.Prelude.{
  String, Bool, true, false, not, ◌||◌, ◌≡◌, refl, inl, inr, if◌then◌else◌, Bool-cases,
}
use messiah_fx_prod.Numbers.{Floats, num_zero}
use messiah_fx_prod.Numbers.Laws.{IsOrdered}
use messiah_fx_prod.Redis.{Redis}
use messiah_fx_prod.Kelly.Bounds.{IsPosition, kelly_position_usd-IsPosition}
use messiah_fx_prod.Executor.Settings.{Settings, position_usd}
use messiah_fx_prod.Executor.Sizing.{resolve_position_usd}

module _ {fl : Floats} (laws : IsOrdered fl) (r : Redis fl) (settings : Settings fl) where
  -- The fixed size; or, with Kelly enabled and the equity known, a positive size within the Kelly cap
  -- of the equity.
  pub data IsSize : fl.F → Type 0 where
    fixed : IsSize (position_usd settings)
    sized :
        (x : fl.F)
        → settings.kelly_enabled ≡ true
        → fl.le settings.account_equity_usd (num_zero fl) ≡ false
        → fl.le x (num_zero fl) ≡ false
        → IsPosition fl laws settings.account_equity_usd settings.kelly_max_position_pct
            (fl.lit 10 0)
            x
        → IsSize x

  IsSize-if :
      (b c : Bool) (x : fl.F)
      → (b ≡ true → c ≡ false → fl.le x (num_zero fl) ≡ false → IsSize x)
      → IsSize (
          if not b || c
          then position_usd settings
          else if fl.le x (num_zero fl)
          then position_usd settings
          else x)
  IsSize-if false c x h = fixed
  IsSize-if true true x h = fixed
  IsSize-if true false x h = elim (Bool-cases (fl.le x (num_zero fl))) [
    | inl nothing ↦ rw nothing fixed
    | inr positive ↦ rw positive (h refl refl positive)
  ]

  -- For floats that meet `IsOrdered`: whatever the statistics in Redis are, the size of a leg is the fixed size, or a positive Kelly
  -- size, at least 10 dollars and within KELLY_MAX_POSITION_PCT of the equity before it is rounded;
  -- the latter only with Kelly enabled and a positive equity.
  pub resolve_position_usd-IsSize :
      (strategy_type : String) (s : r.S) → IsSize (resolve_position_usd r settings strategy_type s)
  unfolding resolve_position_usd
  resolve_position_usd-IsSize strategy_type s =
      IsSize-if settings.kelly_enabled (fl.le settings.account_equity_usd (num_zero fl)) _
        λ on known positive. sized _ on known positive (
          kelly_position_usd-IsPosition fl laws settings.account_equity_usd _
            settings.kelly_max_position_pct (fl.lit 10 0))
