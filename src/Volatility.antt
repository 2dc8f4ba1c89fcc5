-- ===== src/Volatility.antt =====
-- shared/mezna_shared/volatility.py, without its GARCH model: volatility and the size that it allows.
-- The square root of the math module and the deviation of the statistics module are a parameter. A
-- square that overflows is infinite here.
pub mod Limits
use messiah_fx_prod.Prelude.{ℕ, Bool, ltb, List, [], ◌∷◌, length, if◌then◌else◌}
use messiah_fx_prod.Numbers.{Floats, num_zero, num_one, max_of, min_of}

pub record Roots (fl : Floats) : Type 0 where
  pub sqrt : fl.F → fl.F
  pub pstdev : List fl.F → fl.F

module _ (fl : Floats) where
  open fl use {F, add, sub, mul, div, lt, le}

  -- The returns after a price; a price that is not positive has none.
  returns_after : F → List F → List F
  returns_after prev [] = []
  returns_after prev (price ∷ prices) =
      let rest = returns_after price prices in
      if lt (num_zero fl) prev then div (sub price prev) prev ∷ rest else rest

  unfoldable pub returns_from_prices : List F → List F
  unfolding returns_after
  returns_from_prices [] = []
  returns_from_prices (price ∷ prices) = returns_after price prices

  ewma_var : F → F → List F → F
  ewma_var lam var [] = var
  ewma_var lam var (r ∷ returns) =
      ewma_var lam (add (mul lam var) (mul (mul (sub (num_one fl) lam) r) r)) returns

  unfoldable pub ewma_vol : Roots fl → List F → F → F
  unfolding ewma_var
  ewma_vol roots [] lam = num_zero fl
  ewma_vol roots (r ∷ returns) lam =
      roots.sqrt (max_of fl (ewma_var lam (mul r r) returns) (num_zero fl))

  abbrev pub clamp : F → F → F → F
  clamp lo hi x = max_of fl lo (min_of fl hi x)

  unfoldable pub vol_target_multiplier : F → F → F → F → F
  vol_target_multiplier forecast target lo hi =
      if le forecast (num_zero fl) then num_one fl else clamp lo hi (div target forecast)

  unfoldable pub relative_sizing_multiplier : Roots fl → List F → F → F → F → F
  relative_sizing_multiplier roots returns lam lo hi =
      let recent = ewma_vol roots returns lam in
      if ltb (length returns) 5
      then num_one fl
      else if le recent (num_zero fl)
      then num_one fl
      else clamp lo hi (div (roots.pstdev returns) recent)
