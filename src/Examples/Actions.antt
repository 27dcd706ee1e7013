-- ===== src/Examples/Actions.antt =====
-- The theorems on actions, at saves of the small farm.
use ssh_idlefarmer.Prelude.{
  negsuc, refl, pos, true, ◌∷◌, [], some, ℕ, ◌≡◌, lookup_or, lookup, ◌≤ℤ◌, get_elem?, ◌⊕◌, ◌⊖◌,
  length, ◌↔◌, insert, String, ◌≢◌, arith,
}
use ssh_idlefarmer.Sim.Outcome.{err, err, ok, rebirth_too_soon}
use ssh_idlefarmer.Sim.State.{
  Plot, upgrade_level, State, upgrade_state, decode_state, empty_plot, make_plots, state_version,
  decoded, sat_add,
}
use ssh_idlefarmer.Sim.Unlocks.{
  all_plots_empty, cheapest_unlocked_crop, cheapest_from, unlocked, is_cheaper,
}
use ssh_idlefarmer.Sim.Field.{plant}
use ssh_idlefarmer.Sim.Shop.{buy_upgrade}
use ssh_idlefarmer.Sim.Gifts.{rebirth}
use ssh_idlefarmer.Sim.Harvests.{is_ok, progress_full_iff}
use ssh_idlefarmer.Sim.State.{new}
use ssh_idlefarmer.Sim.Bonus.{grow_seconds, progress_pct, is_mature}
use ssh_idlefarmer.Content.{upgrade_by_id, build_index, crop_by_id}
use ssh_idlefarmer.Examples.Farm.{farm, new_farm, wheat, farm_is_valid, almanac}
use ssh_idlefarmer.Sim.Mercy.{plant_mercy}
use ssh_idlefarmer.Sim.Prices.{prestige_gain, upgrade_cost, can_rebirth, isqrt, sqrt_down, sqrt_up}
use ssh_idlefarmer.Sim.Reborn.{rebirth_twice}
use ssh_idlefarmer.Sim.Versions.{decode_state_twice}
use ssh_idlefarmer.Sim.Levels.{buy_upgrade-level}
use ssh_idlefarmer.Tui.Views.Offers.{is_offered, plant-picker_offer}
use ssh_idlefarmer.Tui.Views.{picker_offer}
use ssh_idlefarmer.Content.Validated.{validate-crop_by_id}

abbrev broke : State
broke = record new_farm { coins = pos 0 }

is_bare : all_plots_empty broke ≡ true
unfolding all_plots_empty new make_plots
is_bare = refl

first_plot : get_elem? broke.plots 0 ≡ some empty_plot
unfolding new make_plots
first_plot = refl

cheapest : cheapest_unlocked_crop broke farm ≡ some wheat
unfolding cheapest_unlocked_crop cheapest_from unlocked is_cheaper
cheapest = refl

plant_mercy_example : (plant broke farm (pos 0) "wheat" (pos 200)).0 ≡ ok tt
plant_mercy_example = plant_mercy broke farm 0 (pos 200) farm_is_valid is_bare first_plot cheapest

abbrev growing : Plot
growing = record empty_plot { crop = "wheat"; planted_at = pos 100 }

abbrev pub planted_farm : State
planted_farm = record new_farm { plots = growing ∷ [] }

wheat_grows : grow_seconds planted_farm farm wheat ≡ pos 60
unfolding grow_seconds new ssh_idlefarmer.Prelude.◌⊘◌ ssh_idlefarmer.Prelude.◌⊗◌ ◌⊖◌ ◌⊕◌
    ssh_idlefarmer.Sim.State.multiplier_level lookup_or lookup
wheat_grows = refl

progress_full_iff_example :
    let pct = progress_pct planted_farm farm growing (pos 130) (some wheat) in
    (pos 0 ≤ℤ pct)
    × (pct ≤ℤ pos 100)
    × ((pct ≡ pos 100) ↔ (is_mature planted_farm farm growing (pos 130) (some wheat) ≡ true))
progress_full_iff_example =
    progress_full_iff planted_farm farm growing (pos 130) wheat (omega arith) (omega arith)
      (rw wheat_grows (omega arith)) (rw wheat_grows (omega arith))

-- A save of version 2 with the old global tool.
abbrev old_farm : State
old_farm = record planted_farm { version = pos 2; tools = ("auto_harvester", true) ∷ [] }

decodes : decode_state (some old_farm) ≡ decoded (upgrade_state old_farm)
unfolding decode_state
decodes = refl

decode_state_twice_example :
    ((upgrade_state old_farm).version ≡ state_version)
    × ((upgrade_state old_farm).coins ≡ old_farm.coins)
    × (length (upgrade_state old_farm).plots ≡ 1)
    × (decode_state (some (upgrade_state old_farm)) ≡ decoded (upgrade_state old_farm))
decode_state_twice_example = decode_state_twice old_farm decodes

abbrev starry : State
starry = record new_farm { prestige_currency = pos 3 }

finds_almanac : upgrade_by_id farm "almanac" ≡ some almanac
unfolding upgrade_by_id build_index lookup insert
finds_almanac = refl

level_zero : upgrade_level starry "almanac" ≡ pos 0
unfolding upgrade_level new lookup_or lookup
level_zero = refl

buys : (buy_upgrade starry farm "almanac").0 ≡ ok tt
unfolding buy_upgrade upgrade_by_id build_index lookup insert upgrade_cost
    ssh_idlefarmer.Sim.Prices.level_cost ssh_idlefarmer.Sim.Prices.grown_cost upgrade_level
    lookup_or new
buys = refl

buy_upgrade-level_example :
    let t = (buy_upgrade starry farm "almanac").1 in
    (upgrade_level t "almanac" ≡ upgrade_level starry "almanac" ⊕ pos 1)
    × (upgrade_level t "almanac" ≤ℤ pos 5)
    × (t.prestige_currency ≡ pos 3 ⊖ upgrade_cost starry almanac)
    × (upgrade_cost starry almanac ≤ℤ pos 3)
    × ((other : String) → other ≢ "almanac" → upgrade_level t other ≡ upgrade_level starry other)
buy_upgrade-level_example =
    buy_upgrade-level starry farm "almanac" finds_almanac (rw level_zero (ground arith))
      (ground arith) buys

abbrev thriving : State
thriving = record planted_farm { run_earnings = pos 90000; lifetime_earnings = pos 120000 }

abbrev ten : ℕ → ℕ
ten n = 10

reborn : is_ok (rebirth ten thriving farm (pos 900)).0 ≡ true
unfolding rebirth can_rebirth prestige_gain isqrt sqrt_down sqrt_up ssh_idlefarmer.Prelude.◌⊘◌
reborn = refl

rebirth_twice_example :
    let t = (rebirth ten thriving farm (pos 900)).1 in
    rebirth ten t farm (pos 901) ≡ (err rebirth_too_soon, t)
rebirth_twice_example = rebirth_twice ten thriving farm (pos 900) (pos 901) farm_is_valid reborn

wheat_is_found : crop_by_id farm "wheat" ≡ some wheat
wheat_is_found = validate-crop_by_id farm 0 farm_is_valid refl

plant-picker_offer_example :
    is_ok (plant broke farm (pos 0) "wheat" (pos 200)).0
    ≡ is_offered (picker_offer broke farm wheat)
unfolding ssh_idlefarmer.Sim.Unlocks.plot_at
plant-picker_offer_example =
    plant-picker_offer broke farm (pos 0) (pos 200) wheat wheat_is_found first_plot refl
