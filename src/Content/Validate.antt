-- ===== src/Content/Validate.antt =====
-- internal/content/content.go: `validate`, which `Load` runs on the decoded files, with `requireID` and
-- `validateUnlock`. An error is a value that names the check; its text is left out.
use ssh_idlefarmer.Prelude.{
  pos, false, true, suc, ◌∷◌, [], some, none, Option, List, String, Bool, Dict, ℤ, ◌||◌, ℕ, any,
  leb, not, if◌then◌else◌, ltb_ℤ, ◌&&◌, insert, length, lookup_or, str_eq, leb_ℤ, ◌+◌, eqb_ℤ, ◌⊗◌,
}
use ssh_idlefarmer.Content.{
  Upgrade, Flavor, Multiplier, Event, Achievement, Content, Unlock, Zone, Crop, SeedUpgrade,
}

infixr 30 ◌⨾◌
pub data Problem : Type 0 where
  no_crops start_invalid land_invalid max_plots_below_start divisor_invalid min_earnings_invalid :
      Problem
  no_id : String → ℕ → Problem
  no_name duplicate : String → String → Problem
  zone_of_itself zone_numbers : String → Problem
  unlock_value unlock_zone unlock_kind : String → String → Problem
  unknown_archetype crop_numbers risky_chance chance_not_risky : String → Problem
  archetype_missing : Problem
  unknown_effect : String → String → Problem
  upgrade_numbers upgrade_reduction multiplier_numbers multiplier_reduction : String → Problem
  seed_upgrade_no_crop seed_upgrade_crop seed_upgrade_target seed_upgrade_levels : String → Problem
  seed_upgrade_numbers event_value condition_kind condition_value : String → Problem
  events_interval events_duration harvest_costs sow_costs gift_intervals gift_chance : Problem
  golden_invalid discovery_chance discovery_range : Problem

-- `if bad { return … }`
unfoldable pub fail_if : Bool → Problem → Option Problem
fail_if bad p = if bad then some p else none

-- The first problem of two checks, in their order.
unfoldable pub ◌⨾◌ : Option Problem → Option Problem → Option Problem
some p ⨾ rest = some p
none ⨾ rest = rest

unfoldable pub below : ℤ → ℕ → Bool
below x n = ltb_ℤ x (pos n)

unfoldable pub one_of : List String → String → Bool
one_of names s = any (str_eq s) names

-- `requireID`, whose message counts the items from 1.
unfoldable pub require_id : String → ℕ → String → String → Option Problem
require_id kind idx id name =
    fail_if (str_eq id "") (no_id kind (idx + 1)) ⨾ fail_if (str_eq name "") (no_name kind id)

unfoldable pub validate_unlock : String → String → Unlock → Dict Bool → Option Problem
validate_unlock kind id u zone_ids =
    if one_of ("" ∷ "start" ∷ []) u.kind
    then none
    else if one_of ("earnings" ∷ "prestige" ∷ []) u.kind
    then fail_if (below u.value 1) (unlock_value kind id)
    else if str_eq u.kind "zone"
    then fail_if (not (lookup_or false u.zone zone_ids)) (unlock_zone kind id)
    else some (unlock_kind kind id)

-- The loops over items with an id and a name share their start: both are there, and the id is new.
-- `seen` holds the ids so far, and `check` is the rest of the body.
module _ {A : Type 0} (kind : String) (id name : A → String) (check : A → Option Problem) where
  unfoldable pub check_items : Dict Bool → ℕ → List A → Option Problem
  check_items seen i [] = none
  check_items seen i (x ∷ xs) =
      require_id kind i (id x) (name x)
      ⨾ fail_if (lookup_or false (id x) seen) (duplicate kind (id x))
      ⨾ check x
      ⨾ check_items (insert (id x) true seen) (suc i) xs

-- A loop that only checks each item.
unfoldable pub check_each : {A : Type 0} → (A → Option Problem) → List A → Option Problem
check_each check [] = none
check_each check (x ∷ xs) = check x ⨾ check_each check xs

-- `zoneIDs`, when its loop is done.
unfoldable pub zone_ids_of : List Zone → Dict Bool
zone_ids_of [] = []
zone_ids_of (z ∷ zs) = insert z.id true (zone_ids_of zs)

unfoldable pub check_zone : Dict Bool → Zone → Option Problem
check_zone zone_ids z =
    fail_if (str_eq z.unlock.kind "zone" && str_eq z.unlock.zone z.id) (zone_of_itself z.id)
    ⨾ fail_if (below z.cost 0 || below z.extra_plots 1) (zone_numbers z.id)
    ⨾ validate_unlock "zone" z.id z.unlock zone_ids

unfoldable pub check_crop : Dict Bool → Crop → Option Problem
check_crop zone_ids cr =
    fail_if (not (one_of ("fast" ∷ "slow" ∷ "risky" ∷ []) cr.archetype)) (unknown_archetype cr.id)
    ⨾ fail_if (below cr.seed_cost 0 || below cr.sell_value 0 || below cr.grow_seconds 1)
        (crop_numbers cr.id)
    ⨾ (if str_eq cr.archetype "risky"
        then fail_if (below cr.fail_chance_pct 1 || ltb_ℤ (pos 99) cr.fail_chance_pct)
            (risky_chance cr.id)
        else fail_if (not (eqb_ℤ cr.fail_chance_pct (pos 0))) (chance_not_risky cr.id))
    ⨾ validate_unlock "crop" cr.id cr.unlock zone_ids

-- `archetypes`, when the loop over the crops is done: whether some crop has the archetype. The map
-- is iterated in no fixed order, so which of the missing ones is named is left open.
unfoldable pub has_archetype : List Crop → String → Bool
has_archetype crops a = any (λ (cr : Crop). str_eq cr.archetype a) crops

unfoldable pub check_archetypes : List Crop → Option Problem
check_archetypes crops =
    fail_if (any (λ a. not (has_archetype crops a)) ("fast" ∷ "slow" ∷ "risky" ∷ []))
      archetype_missing

unfoldable pub upgrade_effects : List String
upgrade_effects =
    "grow_speed_pct" ∷ "sell_bonus_pct" ∷ "start_coins" ∷ "plot_discount_pct" ∷ "gift_rate_pct"
    ∷ "event_rate_pct" ∷ "event_duration_pct" ∷ []

unfoldable pub check_upgrade : Upgrade → Option Problem
check_upgrade u =
    fail_if (not (one_of upgrade_effects u.effect)) (unknown_effect "upgrade" u.id)
    ⨾ fail_if
        (below u.cost 1
          || below u.cost_growth_pct 100
          || below u.max_level 1
          || below u.effect_value 1)
        (upgrade_numbers u.id)
    ⨾ fail_if
        (one_of ("grow_speed_pct" ∷ "plot_discount_pct" ∷ []) u.effect
          && leb_ℤ (pos 100) (u.effect_value ⊗ u.max_level))
        (upgrade_reduction u.id)

unfoldable pub check_multiplier : Multiplier → Option Problem
check_multiplier m =
    fail_if (not (one_of ("grow_speed_pct" ∷ "sell_bonus_pct" ∷ []) m.effect))
      (unknown_effect "multiplier" m.id)
    ⨾ fail_if
        (below m.cost 1
          || below m.cost_growth_pct 100
          || below m.max_level 1
          || below m.effect_value 1)
        (multiplier_numbers m.id)
    ⨾ fail_if (str_eq m.effect "grow_speed_pct" && leb_ℤ (pos 100) (m.effect_value ⊗ m.max_level))
        (multiplier_reduction m.id)

-- The search for the crop, which stops at the first.
unfoldable pub first_crop : String → List Crop → Option Crop
first_crop id [] = none
first_crop id (cr ∷ rest) = if str_eq cr.id id then some cr else first_crop id rest

-- What is asked of the crop of a seed upgrade.
unfoldable pub check_target : String → Option Crop → Option Problem
check_target id none = some (seed_upgrade_crop id)
check_target id (some cr) = fail_if (not (str_eq cr.archetype "risky")) (seed_upgrade_target id)

unfoldable pub check_seed_upgrade : List Crop → SeedUpgrade → Option Problem
check_seed_upgrade crops su =
    fail_if (str_eq su.crop_id "") (seed_upgrade_no_crop su.id)
    ⨾ check_target su.id (first_crop su.crop_id crops)
    ⨾ fail_if (not (eqb_ℤ su.max_level (pos 3))) (seed_upgrade_levels su.id)
    ⨾ fail_if (below su.cost 1 || below su.cost_growth_pct 100) (seed_upgrade_numbers su.id)

unfoldable pub check_event : Event → Option Problem
check_event ev =
    fail_if
      (not (one_of ("seed_discount_pct" ∷ "sell_bonus_pct" ∷ "grow_speed_pct" ∷ []) ev.effect))
      (unknown_effect "event" ev.id)
    ⨾ fail_if (below ev.effect_value 1) (event_value ev.id)

unfoldable pub check_achievement : Achievement → Option Problem
check_achievement a =
    fail_if
      (not
        (one_of ("harvests" ∷ "earnings" ∷ "plots" ∷ "rebirths" ∷ "balance" ∷ []) a.condition.kind))
      (condition_kind a.id)
    ⨾ fail_if (below a.condition.value 1) (condition_value a.id)

-- The checks before the loops.
unfoldable pub check_basics : Content → Option Problem
check_basics c =
    fail_if (leb (length c.crops) 0) no_crops
    ⨾ fail_if (below c.start.coins 0 || below c.start.plots 1) start_invalid
    ⨾ fail_if (below c.land.base_plot_cost 1 || below c.land.growth_pct 100) land_invalid
    ⨾ fail_if (ltb_ℤ c.land.max_plots c.start.plots) max_plots_below_start
    ⨾ fail_if (below c.prestige.divisor 1) divisor_invalid
    ⨾ fail_if (below c.prestige.min_earnings 1) min_earnings_invalid

-- The checks of the tuning, between the events and the achievements.
unfoldable pub check_tuning : Content → Option Problem
check_tuning c =
    let ec = c.events_config in
    let pa = c.plot_automation in
    let gt = c.gifts in
    let gh = c.golden_harvest in
    fail_if (below ec.min_interval_sec 1 || ltb_ℤ ec.max_interval_sec ec.min_interval_sec)
      events_interval
    ⨾ fail_if (below ec.min_duration_sec 1 || ltb_ℤ ec.max_duration_sec ec.min_duration_sec)
        events_duration
    ⨾ fail_if (below pa.auto_harvest_base_cost 1 || below pa.auto_harvest_growth_pct 100)
        harvest_costs
    ⨾ fail_if (below pa.auto_sow_cost 1 || below pa.auto_sow_min_earnings 1) sow_costs
    ⨾ fail_if (below gt.online_interval_sec 1 || below gt.offline_interval_sec 1) gift_intervals
    ⨾ fail_if (below gt.starseed_chance_pct 0 || ltb_ℤ (pos 100) gt.starseed_chance_pct) gift_chance
    ⨾ fail_if (below gh.chance_pct 0 || ltb_ℤ (pos 100) gh.chance_pct || below gh.multiplier 10)
        golden_invalid

unfoldable pub check_flavor : Flavor → Option Problem
check_flavor f =
    if f.enabled
    then fail_if (below f.discovery_chance_pct 0 || ltb_ℤ (pos 100) f.discovery_chance_pct)
        discovery_chance
      ⨾ fail_if (below f.discovery_min 0 || ltb_ℤ f.discovery_max f.discovery_min) discovery_range
    else none

unfoldable pub validate : Content → Option Problem
validate c =
    let zone_ids = zone_ids_of c.zones in
    check_basics c
    ⨾ check_items "zone" (λ (z : Zone). z.id) (λ (z : Zone). z.name) (λ z. none) [] 0 c.zones
    ⨾ check_each (check_zone zone_ids) c.zones
    ⨾ check_items "crop" (λ (x : Crop). x.id) (λ (x : Crop). x.name) (check_crop zone_ids) [] 0
        c.crops
    ⨾ check_archetypes c.crops
    ⨾ check_items "upgrade" (λ (u : Upgrade). u.id) (λ (u : Upgrade). u.name) check_upgrade [] 0
        c.upgrades
    ⨾ check_items "multiplier" (λ (m : Multiplier). m.id) (λ (m : Multiplier). m.name)
        check_multiplier [] 0 c.multipliers
    ⨾ check_items "seed_upgrade" (λ (u : SeedUpgrade). u.id) (λ (u : SeedUpgrade). u.name)
        (check_seed_upgrade c.crops) [] 0 c.seed_upgrades
    ⨾ check_items "event" (λ (ev : Event). ev.id) (λ (ev : Event). ev.name) check_event [] 0
        c.events
    ⨾ check_tuning c
    ⨾ check_items "achievement" (λ (a : Achievement). a.id) (λ (a : Achievement). a.name)
        check_achievement [] 0 c.achievements
    ⨾ check_flavor c.flavor
