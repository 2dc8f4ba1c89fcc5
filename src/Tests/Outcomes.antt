-- ===== src/Tests/Outcomes.antt =====
-- Runs of the executor's statistics, and the theorems at them.
use messiah_fx_prod.Prelude.{true, ◌≡◌, refl, none, some, [], ◌∷◌, ◌=ˢ◌, inl, if◌then◌else◌}
use messiah_fx_prod.Prelude.Int.{pos, negsuc}
use messiah_fx_prod.Numbers.Laws.{whole}
use messiah_fx_prod.Redis.{World, trim}
use messiah_fx_prod.Redis.Memory.{Memory, memory, memory-IsServer}
use messiah_fx_prod.Regimes.{preferred_for_regime}
use messiah_fx_prod.Executor.Outcome.Rotation.{update_rotation_preferred, degrade_if}
use messiah_fx_prod.Executor.Outcome.Choice.{IsRotation, update_rotation_preferred-IsRotation}
use messiah_fx_prod.Executor.Outcome.Statistics.{record_outcome}
use messiah_fx_prod.Executor.Outcome.Standing.{Standing, standing_after, IsShown}
use messiah_fx_prod.Executor.Outcome.Refinement.{record_outcome-IsShown}
use messiah_fx_prod.Strategies.EdgeMonitor.Agreement.{IsAlike}
use messiah_fx_prod.Strategies.Rotation.{handle_rotation_trigger}
use messiah_fx_prod.Strategies.Rotation.Agreement.{handle_rotation_trigger-IsAlike}
use messiah_fx_prod.Tests.Execution.{settings_in_paper}

-- Only the strategy swing is enabled.
abbrev server : Memory whole
server = record {
  texts = λ k. none;
  lists = λ k. [];
  hashes = λ k. if k =ˢ "strategy:state:swing" then ("enabled", "1") ∷ [] else [];
}

abbrev world : World (memory whole)
world = record { server = server; sent = [] }

update_rotation_preferred-IsRotation_example :
    IsRotation
      (memory whole)
      "10:00"
      "momentum"
      "ranging"
      (preferred_for_regime "ranging")
      world
      (update_rotation_preferred "10:00" "momentum" "ranging")
update_rotation_preferred-IsRotation_example =
    update_rotation_preferred-IsRotation (memory whole) "10:00" "momentum" "ranging" world

abbrev new_strategy : Standing
new_strategy = record { losses = 0; degraded = none; outcomes = [] }

new_strategy-IsShown : IsShown settings_in_paper (memory whole) "momentum" new_strategy server
unfolding trim
new_strategy-IsShown = record {
  shows_losses = inl (refl, refl);
  shows_degraded = refl;
  shows_outcomes = refl;
}

record_outcome-IsShown_example :
    ((record_outcome "momentum" settings_in_paper "10:00" true (negsuc 4) world).0 ≡ some tt)
    × IsShown settings_in_paper
        (memory whole)
        "momentum"
        (standing_after settings_in_paper true (negsuc 4) new_strategy)
        (record_outcome "momentum" settings_in_paper "10:00" true (negsuc 4) world).1.server
record_outcome-IsShown_example =
    record_outcome-IsShown (memory-IsServer whole) settings_in_paper "momentum" "10:00" true
      (negsuc 4) new_strategy world new_strategy-IsShown

-- Momentum is degraded while the regime is missing.
handle_rotation_trigger-IsAlike_example :
    IsAlike
      (memory whole)
      (degrade_if "09:00" "momentum" true world).1.server
      (handle_rotation_trigger "09:00" "momentum" (pos 4) world).1.server
handle_rotation_trigger-IsAlike_example =
    handle_rotation_trigger-IsAlike (memory-IsServer whole) "09:00" "momentum" (pos 4) world refl
