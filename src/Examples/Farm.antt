-- ===== src/Examples/Farm.antt =====
-- A small content: one crop, one tool, one zone, and the tuning of the shipped files in outline.
use ssh_idlefarmer.Prelude.{
  refl, none, pos, true, ◌∷◌, [], arith, ◌≡◌, lookup_or, lookup, insert, ◌⊗◌,
}
use ssh_idlefarmer.Content.{Unlock, Achievement, Content, Zone, Crop, Multiplier, Upgrade}
use ssh_idlefarmer.Sim.State.{State}
use ssh_idlefarmer.Sim.State.{new}
use ssh_idlefarmer.Content.Validated.{HasInt64}
use ssh_idlefarmer.Content.Validate.{
  validate, ◌⨾◌, check_basics, fail_if, below, check_items, require_id, check_each, check_zone,
  validate_unlock, one_of, check_crop, check_archetypes, has_archetype, check_multiplier,
  check_achievement, check_event, check_flavor, check_seed_upgrade, check_target, check_tuning,
  check_upgrade, first_crop, upgrade_effects, zone_ids_of,
}

abbrev pub free : Unlock
free = record { kind = "start"; value = pos 0; zone = "" }

abbrev pub wheat : Crop
wheat = record {
  id = "wheat";
  name = "Wheat";
  archetype = "fast";
  seed_cost = pos 5;
  grow_seconds = pos 60;
  sell_value = pos 12;
  fail_chance_pct = pos 0;
  unlock = free;
}

abbrev pub oak : Crop
oak = record wheat {
  id = "oak";
  name = "Oak";
  archetype = "slow";
  grow_seconds = pos 3600;
  sell_value = pos 300;
}

abbrev pub chili : Crop
chili = record wheat {
  id = "chili";
  name = "Chili";
  archetype = "risky";
  fail_chance_pct = pos 30;
  sell_value = pos 40;
}

abbrev pub almanac : Upgrade
almanac = record {
  id = "almanac";
  name = "Almanac";
  description = "";
  cost = pos 1;
  cost_growth_pct = pos 150;
  max_level = pos 5;
  effect = "sell_bonus_pct";
  effect_value = pos 10;
}

abbrev pub greenhouse : Multiplier
greenhouse = record {
  id = "greenhouse";
  name = "Greenhouse";
  description = "";
  cost = pos 150;
  cost_growth_pct = pos 180;
  max_level = pos 5;
  effect = "grow_speed_pct";
  effect_value = pos 5;
}

abbrev pub creek : Zone
creek = record {
  id = "creek";
  name = "Creek";
  description = "";
  cost = pos 500;
  extra_plots = pos 2;
  unlock = record { kind = "earnings"; value = pos 100; zone = "" };
}

abbrev pub first_sprout : Achievement
first_sprout = record {
  id = "first_sprout";
  name = "First Sprout";
  description = "";
  condition = record { kind = "balance"; value = pos 10 };
}

abbrev pub farm : Content
farm = record {
  crops = wheat ∷ oak ∷ chili ∷ [];
  upgrades = almanac ∷ [];
  multipliers = greenhouse ∷ [];
  seed_upgrades = [];
  zones = creek ∷ [];
  events = [];
  headlines = [];
  achievements = first_sprout ∷ [];
  start = record { coins = pos 20; plots = pos 2 };
  land = record { base_plot_cost = pos 40; growth_pct = pos 160; max_plots = pos 12 };
  prestige = record { divisor = pos 1000; min_earnings = pos 25000 };
  labels = record { starseed_name = ""; starseed_desc = "" };
  events_config = record {
    min_interval_sec = pos 600;
    max_interval_sec = pos 1200;
    min_duration_sec = pos 60;
    max_duration_sec = pos 120;
  };
  plot_automation = record {
    auto_harvest_base_cost = pos 300;
    auto_harvest_growth_pct = pos 150;
    auto_sow_cost = pos 900;
    auto_sow_min_earnings = pos 5000;
  };
  gifts = record {
    online_interval_sec = pos 900;
    offline_interval_sec = pos 7200;
    starseed_chance_pct = pos 5;
    coin_reward_floor = pos 10;
    coin_reward_ceiling = pos 1000;
  };
  golden_harvest = record { chance_pct = pos 1; multiplier = pos 10 };
  moon = record {
    cycle_days = pos 60;
    full_moon_sell_bonus_pct = pos 50;
    moonberry_crop_id = "wheat";
  };
  critters = record {
    visit_chance_pct = pos 2;
    shoo_reward_min = pos 1;
    shoo_reward_max = pos 5;
    kinds = "rabbit" ∷ [];
  };
  flavor = record {
    enabled = true;
    discovery_chance_pct = pos 3;
    discovery_min = pos 1;
    discovery_max = pos 4;
  };
}

pub farm-HasInt64 : HasInt64 farm
farm-HasInt64 = ground arith

pub farm_is_valid : validate farm ≡ none
unfolding validate ◌⨾◌ check_basics fail_if below check_items require_id check_each check_zone
    validate_unlock one_of check_crop check_archetypes has_archetype check_multiplier
    check_achievement check_event check_flavor check_seed_upgrade check_target check_tuning
    check_upgrade first_crop upgrade_effects zone_ids_of lookup_or lookup insert ◌⊗◌
farm_is_valid = refl

-- A new farm at time 100.
abbrev pub new_farm : State
new_farm = new farm 7 (pos 100)
