-- ===== src/Kelly.antt =====
-- shared/mezna_shared/kelly.py: position sizes by the Kelly criterion. `none` is an exception.
pub mod Bounds
use Prim.Native.String.{◌++◌}
use messiah_fx_prod.Prelude.{
  ℕ, String, Bool, true, false, not, ◌&&◌, ◌||◌, Option, none, some, ◌>>=◌, ◌=ˢ◌, if◌then◌else◌,
}
use messiah_fx_prod.Numbers.{Floats, num_zero, num_one, divide, max_of, min_of}
use messiah_fx_prod.Redis.{Redis}

module _ (fl : Floats) where
  open fl use {F, lit, sub, mul, lt, le, round}

  abbrev pub kelly_min : F
  kelly_min = lit 5 3

  abbrev pub kelly_max : F
  kelly_max = lit 25 2

  -- The share that the formula gives, before it is rounded; no edge is 0.
  unfoldable pub clamped : F → F → F
  clamped full_kelly kelly_multiplier =
      min_of fl (max_of fl (mul full_kelly kelly_multiplier) kelly_min) kelly_max

  unfoldable pub compute_kelly_fraction : F → F → F → F → Option F
  compute_kelly_fraction win_rate avg_win_usd avg_loss_usd kelly_multiplier =
      if not (lt (num_zero fl) win_rate && lt win_rate (num_one fl))
      then some (num_zero fl)
      else if le avg_win_usd (num_zero fl) || le avg_loss_usd (num_zero fl)
      then some (num_zero fl)
      else do
        let loss_rate = sub (num_one fl) win_rate
        win_loss_ratio ← divide fl avg_win_usd avg_loss_usd
        share ← divide fl loss_rate win_loss_ratio
        let full_kelly = sub win_rate share
        if le full_kelly (num_zero fl)
            then some (num_zero fl)
            else some (round (clamped full_kelly kelly_multiplier) 6)

  -- The size before it is rounded.
  abbrev pub capped : F → F → F → F
  capped capital_usd kelly_fraction max_position_pct =
      min_of fl (mul capital_usd kelly_fraction) (mul capital_usd max_position_pct)

  unfoldable pub kelly_position_usd : F → F → F → F → F
  kelly_position_usd capital_usd kelly_fraction max_position_pct min_position_usd =
      let position = capped capital_usd kelly_fraction max_position_pct in
      if le kelly_fraction (num_zero fl) || le capital_usd (num_zero fl)
      then num_zero fl
      else if le min_position_usd position
      then round position 2
      else num_zero fl

-- The text under a key, none if it is missing or empty.
abbrev pub filled_text : Option String → Option String
filled_text none = none
filled_text (some s) = if s =ˢ "" then none else some s

module _ {fl : Floats} (r : Redis fl) where
  -- The computation from the texts that the executor wrote.
  abbrev pub fraction_of : Option String → Option String → Option String → fl.F → Option fl.F
  fraction_of win_rate_raw avg_win_raw avg_loss_raw kelly_multiplier = do
    win_rate_text ← filled_text win_rate_raw
    avg_win_text ← filled_text avg_win_raw
    avg_loss_text ← filled_text avg_loss_raw
    win_rate ← fl.parse win_rate_text
    avg_win ← fl.parse avg_win_text
    avg_loss ← fl.parse avg_loss_text
    fraction ← compute_kelly_fraction fl win_rate avg_win avg_loss kelly_multiplier
    if fl.lt (num_zero fl) fraction then some fraction else none

  -- Missing values, an exception and no edge all fall back.
  unfoldable pub get_strategy_kelly_fraction : String → fl.F → fl.F → r.S → fl.F
  get_strategy_kelly_fraction strategy kelly_multiplier fallback_fraction s =
      elim (fraction_of (r.text_at ("edge:win_rate:" ++ strategy) s)
        (r.text_at ("strategy:avg_win:" ++ strategy) s)
        (r.text_at ("strategy:avg_loss:" ++ strategy) s) kelly_multiplier) [
          | none ↦ fallback_fraction
          | some fraction ↦ fraction
        ]
