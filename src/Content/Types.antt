-- ===== src/Content/Types.antt =====
-- internal/content/content.go: the structs of the two data files, field by field.
use ssh_idlefarmer.Prelude.{String, Bool, List, ℤ}

pub record Unlock : Type 0 where
  pub kind : String
  pub value : ℤ
  pub zone : String

pub record Crop : Type 0 where
  pub id : String
  pub name : String
  pub archetype : String
  pub seed_cost : ℤ
  pub grow_seconds : ℤ
  pub sell_value : ℤ
  pub fail_chance_pct : ℤ
  pub unlock : Unlock

pub record Upgrade : Type 0 where
  pub id : String
  pub name : String
  pub description : String
  pub cost : ℤ
  pub cost_growth_pct : ℤ
  pub max_level : ℤ
  pub effect : String
  pub effect_value : ℤ

pub record Multiplier : Type 0 where
  pub id : String
  pub name : String
  pub description : String
  pub cost : ℤ
  pub cost_growth_pct : ℤ
  pub max_level : ℤ
  pub effect : String
  pub effect_value : ℤ

pub record SeedUpgrade : Type 0 where
  pub id : String
  pub crop_id : String
  pub name : String
  pub description : String
  pub cost : ℤ
  pub cost_growth_pct : ℤ
  pub max_level : ℤ

pub record Zone : Type 0 where
  pub id : String
  pub name : String
  pub description : String
  pub cost : ℤ
  pub extra_plots : ℤ
  pub unlock : Unlock

pub record Event : Type 0 where
  pub id : String
  pub name : String
  pub description : String
  pub effect : String
  pub effect_value : ℤ

pub record EventsConfig : Type 0 where
  pub min_interval_sec : ℤ
  pub max_interval_sec : ℤ
  pub min_duration_sec : ℤ
  pub max_duration_sec : ℤ

pub record PlotAutomation : Type 0 where
  pub auto_harvest_base_cost : ℤ
  pub auto_harvest_growth_pct : ℤ
  pub auto_sow_cost : ℤ
  pub auto_sow_min_earnings : ℤ

pub record GiftTuning : Type 0 where
  pub online_interval_sec : ℤ
  pub offline_interval_sec : ℤ
  pub starseed_chance_pct : ℤ
  pub coin_reward_floor : ℤ
  pub coin_reward_ceiling : ℤ

pub record GoldenHarvest : Type 0 where
  pub chance_pct : ℤ
  pub multiplier : ℤ

pub record MoonConfig : Type 0 where
  pub cycle_days : ℤ
  pub full_moon_sell_bonus_pct : ℤ
  pub moonberry_crop_id : String

pub record CritterConfig : Type 0 where
  pub visit_chance_pct : ℤ
  pub shoo_reward_min : ℤ
  pub shoo_reward_max : ℤ
  pub kinds : List String

pub record Headline : Type 0 where
  pub text : String

pub record Labels : Type 0 where
  pub starseed_name : String
  pub starseed_desc : String

pub record Condition : Type 0 where
  pub kind : String
  pub value : ℤ

pub record Achievement : Type 0 where
  pub id : String
  pub name : String
  pub description : String
  pub condition : Condition

pub record Flavor : Type 0 where
  pub enabled : Bool
  pub discovery_chance_pct : ℤ
  pub discovery_min : ℤ
  pub discovery_max : ℤ

pub record Start : Type 0 where
  pub coins : ℤ
  pub plots : ℤ

pub record Land : Type 0 where
  pub base_plot_cost : ℤ
  pub growth_pct : ℤ
  pub max_plots : ℤ

pub record Prestige : Type 0 where
  pub divisor : ℤ
  pub min_earnings : ℤ

-- The exported fields; the lookup maps are functions of these (Content/Index).
pub record Content : Type 0 where
  pub crops : List Crop
  pub upgrades : List Upgrade
  pub multipliers : List Multiplier
  pub seed_upgrades : List SeedUpgrade
  pub zones : List Zone
  pub events : List Event
  pub headlines : List Headline
  pub achievements : List Achievement
  pub start : Start
  pub land : Land
  pub prestige : Prestige
  pub labels : Labels
  pub events_config : EventsConfig
  pub plot_automation : PlotAutomation
  pub gifts : GiftTuning
  pub golden_harvest : GoldenHarvest
  pub moon : MoonConfig
  pub critters : CritterConfig
  pub flavor : Flavor
