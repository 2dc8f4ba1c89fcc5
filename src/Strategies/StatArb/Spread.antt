-- ===== src/Strategies/StatArb/Spread.antt =====
-- services/strategy/app/strategies/stat_arb.py: the symbol of the perpetual, and the z-score of the spread.
use Prim.Native.String.{◌++◌, [] as empty, ◌∷◌ as ◌∷ˢ◌}
use Prim.Native.Char.{code}
use messiah_fx_prod.Prelude.{
  ℕ, String, ◌==◌, ltb, length, Option, none, some, List, [], ◌∷◌, if◌then◌else◌,
}
use messiah_fx_prod.Prelude.Dict.{Dict, lookup}
use messiah_fx_prod.Numbers.{Floats, num_zero}
use messiah_fx_prod.Payload.{Value, object, get, to_float}
use messiah_fx_prod.Strategies.Base.{take_first}

pub record Statistics (fl : Floats) : Type 0 where
  pub np_mean : List fl.F → fl.F
  -- `np.std(xs)`
  pub np_std : List fl.F → fl.F

pub record Reading (fl : Floats) : Type 0 where
  pub z_score : fl.F
  pub current_spread : fl.F
  pub spread_std : fl.F
  pub window_used : ℕ

abbrev add_char : String → List String → List String
add_char s [] = s ∷ []
add_char s (part ∷ parts) = (s ++ part) ∷ parts

-- `s.split("/")`
unfoldable pub split_slash : String → List String
split_slash empty = "" ∷ []
split_slash (c ∷ˢ s) =
    let parts = split_slash s in if code c == 47 then "" ∷ parts else add_char (c ∷ˢ empty) parts

abbrev pub perp_of : List String → Option String
perp_of (base ∷ quote ∷ []) = some (base ++ "/" ++ quote ++ ":" ++ quote)
perp_of _ = none

-- `none` is a ValueError.
abbrev pub spot_to_perp : String → Option String
spot_to_perp spot = perp_of (split_slash spot)

abbrev and_some {ℓ} : {A : Type ℓ} → Option A → Option (List A) → Option (List A)
and_some (some x) (some xs) = some (x ∷ xs)
and_some _ _ = none

abbrev pub subtract : (fl : Floats) → List fl.F → List fl.F → List fl.F
subtract fl [] ys = []
subtract fl (x ∷ xs) [] = []
subtract fl (x ∷ xs) (y ∷ ys) = fl.sub x y ∷ subtract fl xs ys

abbrev pub spreads_of : (fl : Floats) → Option (List fl.F) → Option (List fl.F) → List fl.F
spreads_of fl (some spot_mids) (some perp_mids) = subtract fl spot_mids perp_mids
spreads_of fl _ _ = []

-- `float(tick.get("mid", 0))`
abbrev pub tick_mid : (fl : Floats) → Dict String → Option fl.F
tick_mid fl tick = elim (lookup "mid" tick) [ none ↦ some (num_zero fl) | some s ↦ fl.parse s ]

module _ {fl : Floats} where
  open fl use {F, lit, add, sub, mul, div, lt, le, abs, round}

  -- `[float(t["mid"]) for t in ticks]`
  abbrev pub mid_of : Value fl → Option F
  mid_of (object t) = elim (get "mid" t) [ none ↦ none | some v ↦ to_float v ]
  mid_of _ = none

  abbrev pub mids : List (Value fl) → Option (List F)
  mids [] = some []
  mids (t ∷ ticks) = and_some (mid_of t) (mids ticks)

  -- No reading without variance; no spreads at all are mids that could not be read.
  abbrev pub reading_of : Statistics fl → ℕ → List F → Option (Reading fl)
  reading_of numpy n [] = none
  reading_of numpy n (current_spread ∷ spreads) =
      let std = numpy.np_std (current_spread ∷ spreads) in
      if lt std (lit 1 10)
      then none
      else some (record {
        z_score = div (sub current_spread (numpy.np_mean (current_spread ∷ spreads))) std;
        current_spread = current_spread;
        spread_std = std;
        window_used = n;
      })

  abbrev pub min_length : List (Value fl) → List (Value fl) → ℕ
  min_length spot perp = if ltb (length perp) (length spot) then length perp else length spot

  -- At least thirty ticks of each are asked for.
  unfoldable pub rolling_z_score :
      Statistics fl → List (Value fl) → List (Value fl) → Option (Reading fl)
  rolling_z_score numpy spot_ticks perp_ticks =
      let n = min_length spot_ticks perp_ticks in
      if ltb n 30
      then none
      else reading_of numpy n
          (spreads_of fl (mids (take_first n spot_ticks)) (mids (take_first n perp_ticks)))
