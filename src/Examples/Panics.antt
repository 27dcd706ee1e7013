-- ===== src/Examples/Panics.antt =====
-- A harvest of internal/sim that panics: at a full moon, over content that validate accepts.
use ssh_idlefarmer.Examples.Farm.{farm}
use ssh_idlefarmer.Examples.Actions.{planted_farm}
use ssh_idlefarmer.Prelude.{
  true, true, refl, none, refl, negsuc, pos, none, lookup_or, lookup, insert, ◌⊗◌, ◌≡◌, ◌⊘◌, ◌⊕◌,
  ◌⊖◌, arith, rem,
}
use ssh_idlefarmer.Content.{Content, crop_by_id, build_index}
use ssh_idlefarmer.Sim.State.{State, upgrade_level, multiplier_level}
use ssh_idlefarmer.Sim.Field.{call_harvest}
use ssh_idlefarmer.Content.Validate.{
  validate, ◌⨾◌, check_basics, fail_if, below, check_items, require_id, check_each, check_zone,
  validate_unlock, one_of, check_crop, check_archetypes, has_archetype, check_multiplier,
  check_achievement, check_event, check_flavor, check_seed_upgrade, check_target, check_tuning,
  check_upgrade, first_crop, upgrade_effects, zone_ids_of,
}
use ssh_idlefarmer.Sim.Unlocks.{plot_at, planted_crop}
use ssh_idlefarmer.Sim.Bonus.{
  grow_seconds, sell_bonus, bonus_sum, is_full_moon, moon_phase, add_upgrades, add_multipliers,
  event_effect, active_event, cap_percent, plot_ready, is_mature,
}
use ssh_idlefarmer.Sim.State.{new}
use ssh_idlefarmer.Sim.Harvests.{plot_sells_for_nothing, sells_for_nothing, harvest_iff_ready}

abbrev moon_farm : Content
moon_farm = record farm {
  moon = record farm.moon { cycle_days = pos 28; full_moon_sell_bonus_pct = negsuc 99 };
}

moon_farm_is_valid : validate moon_farm ≡ none
unfolding validate ◌⨾◌ check_basics fail_if below check_items require_id check_each check_zone
    validate_unlock one_of check_crop check_archetypes has_archetype check_multiplier
    check_achievement check_event check_flavor check_seed_upgrade check_target check_tuning
    check_upgrade first_crop upgrade_effects zone_ids_of lookup_or lookup insert ◌⊗◌
moon_farm_is_valid = refl

-- Day 14 of the moon, with ripe wheat.
abbrev full_moon : State
full_moon = record planted_farm { moon_epoch = negsuc 13; updated_at = pos 0 }

is_ripe : plot_ready full_moon moon_farm (pos 0) (pos 200) ≡ true
unfolding plot_ready is_mature planted_crop grow_seconds bonus_sum add_upgrades add_multipliers
    event_effect active_event upgrade_level multiplier_level plot_at crop_by_id build_index lookup
    insert cap_percent lookup_or ◌⊗◌ ◌⊘◌ ◌⊕◌ ◌⊖◌ new
is_ripe = refl

is_worthless : plot_sells_for_nothing full_moon moon_farm (pos 0) ≡ true
unfolding plot_sells_for_nothing sells_for_nothing sell_bonus is_full_moon moon_phase planted_crop
    bonus_sum add_upgrades add_multipliers event_effect active_event upgrade_level multiplier_level
    plot_at crop_by_id build_index lookup insert lookup_or ◌⊗◌ ◌⊘◌ ◌⊕◌ ◌⊖◌ rem new
is_worthless = refl

harvest_panics : call_harvest full_moon moon_farm (pos 0) (pos 200) ≡ none
harvest_panics =
    ground (arith, is_ripe, is_worthless, harvest_iff_ready full_moon moon_farm (pos 0) (pos 200))
