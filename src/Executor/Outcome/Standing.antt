-- ===== src/Executor/Outcome/Standing.antt =====
-- services/executor/app/consumer.py, _record_outcome: what it keeps of a strategy, without Redis. A
-- strategy has a number of consecutive losses, perhaps a flag of degradation, and its outcomes.
use messiah_fx_prod.Prelude.{
  ℕ, ◌+◌, String, Bool, true, false, not, ◌&&◌, ◌||◌, ◌≡◌, ◌⊎◌, Option, none, some, List, [], ◌∷◌,
  ◌++◌, map, if◌then◌else◌,
}
use messiah_fx_prod.Prelude.Int.{pos, leb_ℤ}
use messiah_fx_prod.Prelude.ParseInt.{show_int}
use messiah_fx_prod.Numbers.{Floats, num_zero}
use messiah_fx_prod.Redis.{Redis, trim}
use messiah_fx_prod.Executor.Settings.{Settings}
use messiah_fx_prod.Executor.Outcome.Keys.{losses_key, degraded_key, edge_outcomes_key}
use messiah_fx_prod.Executor.Outcome.Edge.{outcome}

pub record Standing : Type 0 where
  pub losses : ℕ
  pub degraded : Option String
  -- true for a win, the newest last
  pub outcomes : List Bool

-- A win clears the losses, a loss counts and degrades where that is enough.
abbrev pub rotated : Bool → Bool → Bool → Standing → Standing
rotated true is_loss is_enough a = record a { losses = 0; degraded = none }
rotated false true is_enough a = record a {
  losses = a.losses + 1;
  degraded = if is_enough then some "1" else a.degraded;
}
rotated false false is_enough a = a

-- An open adds no outcome.
abbrev pub closed : Bool → Bool → Standing → Standing
closed true won a = a
closed false won a = record a { outcomes = a.outcomes ++ won ∷ [] }

module _ {fl : Floats} (settings : Settings fl) where
  abbrev pub is_enough : ℕ → Bool
  is_enough losses = leb_ℤ settings.rotation_consecutive_loss_threshold (pos (losses + 1))

  abbrev pub standing_after : Bool → fl.F → Standing → Standing
  standing_after filled_ok pnl a = closed (fl.eq pnl (num_zero fl)) (fl.lt (num_zero fl) pnl) (
      rotated (filled_ok && fl.lt (num_zero fl) pnl) (not filled_ok || fl.lt pnl (num_zero fl))
        (is_enough a.losses) a)

  -- What Redis holds of a strategy: the counter in decimal, where it is not missing, the flag, and
  -- the last outcomes, as many as the window is long.
  pub record IsShown (r : Redis fl) (strategy : String) (a : Standing) (s : r.S) : Type 0 where
    pub shows_losses :
        (r.text_at (losses_key strategy) s ≡ none × a.losses ≡ 0)
        ⊎ (r.text_at (losses_key strategy) s ≡ some (show_int (pos a.losses)))
    pub shows_degraded : r.text_at (degraded_key strategy) s ≡ a.degraded
    pub shows_outcomes :
        r.list_at (edge_outcomes_key strategy) s
        ≡ trim settings.edge_monitor_window (map outcome a.outcomes)
