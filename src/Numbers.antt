-- ===== src/Numbers.antt =====
-- Python's floats: a type with the operations that the program calls, as a parameter, and the laws
-- under which theorems are proved. A text becomes a number by `parse` (`float(s)`, `none` where it
-- raises) and a number a text by `show` (`str(x)`).
pub mod Laws
use messiah_fx_prod.Prelude.{ℕ, String, Bool, Option, none, some, List, if◌then◌else◌}
use messiah_fx_prod.Prelude.Int.{ℤ}

pub record Floats : Type 1 where
  pub F : Type 0
  -- the decimal literal m · 10^-k, as in `lit 55 2` for 0.55
  pub lit : ℕ → ℕ → F
  -- `float(n)` for an int
  pub of_int : ℤ → F
  pub add : F → F → F
  pub sub : F → F → F
  pub mul : F → F → F
  pub div : F → F → F
  pub neg : F → F
  pub abs : F → F
  pub lt : F → F → Bool
  pub le : F → F → Bool
  pub eq : F → F → Bool
  -- `sum(xs)`
  pub total : List F → F
  -- `round(x, k)`
  pub round : F → ℕ → F
  pub parse : String → Option F
  pub show : F → String
  -- `f"{x:.kf}"`
  pub fixed : F → ℕ → String

module _ (fl : Floats) where
  open fl use {F, lit, div, lt, eq}

  abbrev pub num_zero : F
  num_zero = lit 0 0

  abbrev pub num_one : F
  num_one = lit 1 0

  -- `a / b`, which raises ZeroDivisionError
  abbrev pub divide : F → F → Option F
  divide a b = if eq b num_zero then none else some (div a b)

  -- `max(a, b)` and `min(a, b)`: the first, unless the second is strictly past it
  abbrev pub max_of : F → F → F
  max_of a b = if lt a b then b else a

  abbrev pub min_of : F → F → F
  min_of a b = if lt b a then b else a

  -- `x or 0.0`
  abbrev pub or_zero : F → F
  or_zero x = if eq x num_zero then num_zero else x
