-- ===== src/Sim/Bonus.antt =====
-- internal/sim/derive.go: the running event, bonuses, grow times, seed costs, payouts and the moon.
use ssh_idlefarmer.Prelude.{
  String, Bool, false, not, ◌&&◌, ◌||◌, Option, none, some, List, [], ◌∷◌, if◌then◌else◌, str_eq, ℤ,
  pos, max_int64, ◌⊕◌, ◌⊖◌, ◌⊗◌, ◌⊘◌, rem, ltb_ℤ, leb_ℤ, eqb_ℤ,
}
use ssh_idlefarmer.Content.{Content, Crop, Upgrade, Multiplier, Event, event_by_id}
use ssh_idlefarmer.Sim.State.{
  State, Plot, upgrade_level, multiplier_level, seed_upgrade_level, salvage_numerator,
}
use ssh_idlefarmer.Sim.Unlocks.{all_plots_empty, cheapest_unlocked_crop, plot_at, planted_crop}

-- `activeEvent`
unfoldable pub active_event : State → Content → Option Event
active_event s c = if str_eq s.event_id "" then none else event_by_id c s.event_id

-- `EventActive`
unfoldable pub is_event_active : State → ℤ → Bool
is_event_active s now = not (str_eq s.event_id "") && ltb_ℤ now s.event_ends_at

-- The effect value of the running event, if it has the effect asked for.
unfoldable pub event_effect : Option Event → String → Option ℤ
event_effect none effect = none
event_effect (some ev) effect = if str_eq ev.effect effect then some ev.effect_value else none

-- `if x >= 100 { x = 99 }`
unfoldable pub cap_percent : ℤ → ℤ
cap_percent x = if leb_ℤ (pos 100) x then pos 99 else x

unfoldable pub discounted : Option ℤ → ℤ → ℤ
discounted none cost = cost
discounted (some discount) cost = cost ⊗ (pos 100 ⊖ cap_percent discount) ⊘ pos 100

unfoldable pub seed_cost : State → Content → Crop → ℤ
unfolding discounted event_effect active_event cap_percent
seed_cost s c crop =
    let cost = discounted (event_effect (active_event s c) "seed_discount_pct") crop.seed_cost in
    if ltb_ℤ cost (pos 0) then pos 0 else cost

-- `MercyPlantEligible`
unfoldable pub mercy_for : State → Content → String → Option Crop → Bool
mercy_for s c crop_id none = false
mercy_for s c crop_id (some cheapest) =
    str_eq crop_id cheapest.id && ltb_ℤ s.coins (seed_cost s c cheapest)

unfoldable pub mercy_plant_eligible : State → Content → String → Bool
unfolding mercy_for
mercy_plant_eligible s c crop_id =
    all_plots_empty s && mercy_for s c crop_id (cheapest_unlocked_crop s c)

-- `sum += u.EffectValue * int64(s.UpgradeLevel(u.ID))` over the upgrades with the effect.
unfoldable pub add_upgrades : State → String → ℤ → List Upgrade → ℤ
add_upgrades s effect sum [] = sum
add_upgrades s effect sum (u ∷ us) =
    add_upgrades s effect
      (if str_eq u.effect effect then sum ⊕ u.effect_value ⊗ upgrade_level s u.id else sum) us

unfoldable pub add_multipliers : State → String → ℤ → List Multiplier → ℤ
add_multipliers s effect sum [] = sum
add_multipliers s effect sum (m ∷ ms) =
    add_multipliers s effect
      (if str_eq m.effect effect then sum ⊕ m.effect_value ⊗ multiplier_level s m.id else sum) ms

-- `upgradeEffectSum`
unfoldable pub upgrade_effect_sum : State → Content → String → ℤ
unfolding add_upgrades
upgrade_effect_sum s c effect = add_upgrades s effect (pos 0) c.upgrades

abbrev pub add_if_some : Option ℤ → ℤ → ℤ
add_if_some none sum = sum
add_if_some (some v) sum = sum ⊕ v

-- The bonus of upgrades, multipliers and the running event, added up in this order.
unfoldable pub bonus_sum : State → Content → String → ℤ
unfolding add_upgrades add_multipliers event_effect active_event
bonus_sum s c effect =
    add_if_some (event_effect (active_event s c) effect)
      (add_multipliers s effect (add_upgrades s effect (pos 0) c.upgrades) c.multipliers)

unfoldable pub grow_seconds : State → Content → Crop → ℤ
unfolding bonus_sum cap_percent
grow_seconds s c crop =
    let reduction = cap_percent (bonus_sum s c "grow_speed_pct") in
    let g = crop.grow_seconds ⊗ (pos 100 ⊖ reduction) ⊘ pos 100 in
    if ltb_ℤ g (pos 1) then pos 1 else g

-- `MoonPhase`: the cycle is the constant 28.
unfoldable pub moon_phase : State → ℤ
moon_phase s =
    if eqb_ℤ s.moon_epoch (pos 0)
    then pos 0
    else rem (s.updated_at ⊘ pos 86400 ⊖ s.moon_epoch) (pos 28)

unfoldable pub is_full_moon : State → Content → String → Bool
unfolding moon_phase
is_full_moon s c crop_id =
    if not (str_eq crop_id c.moon.moonberry_crop_id) || ltb_ℤ c.moon.cycle_days (pos 1)
    then false
    else eqb_ℤ (moon_phase s) (c.moon.cycle_days ⊘ pos 2)

unfoldable pub moon_phase_name : State → Content → String
unfolding moon_phase
moon_phase_name s c =
    let cycle = if ltb_ℤ c.moon.cycle_days (pos 1) then pos 28 else c.moon.cycle_days in
    let phase = moon_phase s in
    if eqb_ℤ phase (cycle ⊘ pos 2)
    then "Full Moon"
    else if eqb_ℤ phase (pos 0)
    then "New Moon"
    else if ltb_ℤ phase (cycle ⊘ pos 4)
    then "Waxing Crescent"
    else if ltb_ℤ phase (cycle ⊘ pos 2)
    then "Waxing Gibbous"
    else if ltb_ℤ phase (pos 3 ⊗ cycle ⊘ pos 4)
    then "Waning Gibbous"
    else "Waning Crescent"

-- The end of `sellMultiplied`: the bonus is applied, and the payout saturates. None is a panic: where
-- 100 and the bonus are 0 together, the code divides by zero.
unfoldable pub apply_bonus : ℤ → ℤ → Option ℤ
apply_bonus base bonus =
    if eqb_ℤ bonus (pos 0)
    then some base
    else if eqb_ℤ (pos 100 ⊕ bonus) (pos 0)
    then none
    else if ltb_ℤ (pos max_int64 ⊘ (pos 100 ⊕ bonus)) base
    then some (pos max_int64)
    else some (base ⊗ (pos 100 ⊕ bonus) ⊘ pos 100)

unfoldable pub sell_bonus : State → Content → String → ℤ
unfolding bonus_sum is_full_moon
sell_bonus s c crop_id =
    let bonus = bonus_sum s c "sell_bonus_pct" in
    if is_full_moon s c crop_id then bonus ⊕ c.moon.full_moon_sell_bonus_pct else bonus

-- `sellMultiplied`. Where it panics the process ends, and nothing sees the 0 that stands here: a state that
-- is computed with it is one that the program does not reach.
unfoldable pub sell_multiplied : State → Content → ℤ → String → ℤ
unfolding sell_bonus apply_bonus
sell_multiplied s c base crop_id = elim (apply_bonus base (sell_bonus s c crop_id)) [
  | none ↦ pos 0
  | some paid ↦ paid
]

-- `crop.SellValue * SalvageNumerator(level) / 8`
unfoldable pub salvage_base : State → Crop → ℤ
salvage_base s crop = crop.sell_value ⊗ salvage_numerator (seed_upgrade_level s crop.id) ⊘ pos 8

unfoldable pub salvage_value : State → Content → Crop → ℤ
unfolding salvage_base
salvage_value s c crop = sell_multiplied s c (salvage_base s crop) crop.id

-- `PlotReady`
unfoldable pub is_mature : State → Content → Plot → ℤ → Option Crop → Bool
is_mature s c plot now none = false
is_mature s c plot now (some crop) = leb_ℤ (plot.planted_at ⊕ grow_seconds s c crop) now

unfoldable pub plot_ready : State → Content → ℤ → ℤ → Bool
unfolding is_mature planted_crop
plot_ready s c i now = elim (plot_at s i) [
  | none ↦ false
  | some plot ↦ is_mature s c plot now (planted_crop c plot)
]

unfoldable pub progress_pct : State → Content → Plot → ℤ → Option Crop → ℤ
progress_pct s c plot now none = pos 0
progress_pct s c plot now (some crop) =
    let grow = grow_seconds s c crop in
    let elapsed = now ⊖ plot.planted_at in
    if leb_ℤ elapsed (pos 0)
    then pos 0
    else if leb_ℤ grow elapsed
    then pos 100
    else elapsed ⊗ pos 100 ⊘ grow

-- `PlotProgressPct`
unfoldable pub plot_progress_pct : State → Content → ℤ → ℤ → ℤ
unfolding progress_pct planted_crop
plot_progress_pct s c i now = elim (plot_at s i) [
  | none ↦ pos 0
  | some plot ↦ progress_pct s c plot now (planted_crop c plot)
]
