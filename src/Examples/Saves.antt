-- ===== src/Examples/Saves.antt =====
-- The theorems on saves, at the small farm.
use ssh_idlefarmer.Prelude.{
  refl, pos, false, true, ◌∷◌, [], some, ℕ, ◌/◌, All, ◌≡◌, arith, lookup, String, ℤ,
}
use ssh_idlefarmer.Sim.Solvent.Balances.{Solvent}
use ssh_idlefarmer.Sim.Advance.{advance}
use ssh_idlefarmer.Game.Intents.{Intent, apply}
use ssh_idlefarmer.Game.Actor.{intent, Save, tick}
use ssh_idlefarmer.Sim.Arrivals.{check_achievements, is_met, is_some}
use ssh_idlefarmer.Sim.Bonus.{is_full_moon}
use ssh_idlefarmer.Sim.State.{new}
use ssh_idlefarmer.Sim.Events.{no_events}
use ssh_idlefarmer.Game.Saves.{
  intent_clean, Reachable-Solvent, apply_refused, acted, ticked, created,
}
use ssh_idlefarmer.Sim.Moon.{long_cycle_never_full}
use ssh_idlefarmer.Sim.Outcome.{unknown_plot}
use ssh_idlefarmer.Sim.Milestones.{check_achievements_complete}
use ssh_idlefarmer.Sim.Clock.{advance_replay}
use ssh_idlefarmer.Examples.Farm.{farm, new_farm, farm_is_valid, first_sprout, farm-HasInt64}

abbrev root : ℕ → ℕ
root n = n / 2

abbrev new_save : Save
new_save = record { state = new_farm; dirty = false }

abbrev planting : Intent
planting = Intent.plant (pos 0) "wheat"

Reachable-Solvent_example :
    Solvent (intent root farm (pos 200) planting (tick farm (pos 150) new_save).1).1.state
Reachable-Solvent_example =
    Reachable-Solvent root farm farm_is_valid farm-HasInt64
      (acted (pos 200) planting (ticked (pos 150) (created 7 (pos 100))))

advance_replay_example :
    advance (advance new_farm farm (pos 500)).0 farm (pos 400)
    ≡ ((advance new_farm farm (pos 500)).0, no_events)
advance_replay_example = advance_replay new_farm farm (pos 500) (pos 400) (omega arith)

no_such_plot : (apply root farm (pos 200) (Intent.harvest (pos 9)) new_farm).0 ≡ some unknown_plot
unfolding apply new ssh_idlefarmer.Sim.Field.harvest ssh_idlefarmer.Sim.Unlocks.plot_at
    ssh_idlefarmer.Sim.State.make_plots
no_such_plot = refl

apply_refused_example : (apply root farm (pos 200) (Intent.harvest (pos 9)) new_farm).1 ≡ new_farm
apply_refused_example =
    apply_refused root farm (pos 200) (Intent.harvest (pos 9)) new_farm no_such_plot

still_clean : (intent root farm (pos 100) (Intent.harvest (pos 9)) new_save).1.dirty ≡ false
unfolding intent new ssh_idlefarmer.Game.Actor.settle apply ssh_idlefarmer.Sim.Field.harvest
    ssh_idlefarmer.Sim.Unlocks.plot_at tick advance ssh_idlefarmer.Sim.State.make_plots
still_clean = refl

intent_clean_example :
    ((intent root farm (pos 100) (Intent.harvest (pos 9)) new_save).1.state ≡ new_farm)
    × (false ≡ false)
intent_clean_example =
    intent_clean root farm (pos 100) (Intent.harvest (pos 9)) new_save (omega arith)
      (unfold new in omega arith) still_clean

check_achievements_complete_example :
    let t = (check_achievements new_farm farm (pos 200)).1 in
    All
      (λ a. is_met new_farm a.condition ≡ true → is_some (lookup a.id t.achievements) ≡ true)
      (first_sprout ∷ [])
    × ((k : String) (earned : ℤ)
        → lookup k new_farm.achievements ≡ some earned
        → lookup k t.achievements ≡ some earned)
check_achievements_complete_example = check_achievements_complete new_farm farm (pos 200)

long_cycle_never_full_example : is_full_moon new_farm farm "wheat" ≡ false
long_cycle_never_full_example =
    long_cycle_never_full new_farm farm "wheat" (ground arith) (omega arith)
