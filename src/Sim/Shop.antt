-- ===== src/Sim/Shop.antt =====
-- internal/sim/actions.go: plots, zones, market upgrades, plot automation and permanent upgrades.
use ssh_idlefarmer.Prelude.{
  String, Bool, true, false, not, Option, none, some, [], ◌∷◌, ◌++◌, insert, lookup_or,
  if◌then◌else◌, str_eq, ℤ, pos, ◌⊕◌, ◌⊖◌, ltb_ℤ,
}
use ssh_idlefarmer.Content.{
  Content, Crop, crop_by_id, zone_by_id, multiplier_by_id, seed_upgrade_by_id, upgrade_by_id,
}
use ssh_idlefarmer.Sim.State.{
  State, Plot, empty_plot, make_plots, seed_upgrade_level, multiplier_level, upgrade_level,
}
use ssh_idlefarmer.Sim.Unlocks.{unlocked, plot_at}
use ssh_idlefarmer.Sim.Prices.{
  next_plot_cost, multiplier_cost, seed_upgrade_cost, plot_auto_harvest_cost, upgrade_cost,
}
use ssh_idlefarmer.Sim.Outcome.{
  Outcome, ok, err, put_plot, unknown_plot, unknown_item, locked, cant_afford, cant_afford_pp,
  maxed, already_owned,
}

unfoldable pub buy_plot : State → Content → Outcome ℤ
buy_plot s c =
    let cost = next_plot_cost s c in
    if ltb_ℤ cost (pos 0)
    then (err maxed, s)
    else if ltb_ℤ s.coins cost
    then (err cant_afford, s)
    else (
      ok cost,
      record s {
        coins = s.coins ⊖ cost;
        purchased_plots = s.purchased_plots ⊕ pos 1;
        plots = s.plots ++ empty_plot ∷ [];
      },
    )

unfoldable pub buy_zone : State → Content → String → Outcome (Unit {0})
buy_zone s c id = elim (zone_by_id c id) [
  | none ↦ (err unknown_item, s)
  | some zone ↦
      if lookup_or false id s.zones
      then (err already_owned, s)
      else if not (unlocked s zone.unlock)
      then (err locked, s)
      else if ltb_ℤ s.coins zone.cost
      then (err cant_afford, s)
      else (
        ok tt,
        record s {
          coins = s.coins ⊖ zone.cost;
          zones = insert id true s.zones;
          plots = s.plots ++ make_plots zone.extra_plots;
        },
      )
]

unfoldable pub buy_multiplier : State → Content → String → Outcome (Unit {0})
buy_multiplier s c id = elim (multiplier_by_id c id) [
  | none ↦ (err unknown_item, s)
  | some m ↦
      let cost = multiplier_cost s m in
      if ltb_ℤ cost (pos 0)
      then (err maxed, s)
      else if ltb_ℤ s.coins cost
      then (err cant_afford, s)
      else (
        ok tt,
        record s {
          coins = s.coins ⊖ cost;
          multipliers = insert id (multiplier_level s id ⊕ pos 1) s.multipliers;
        },
      )
]

-- `crop == nil || !s.Unlocked(crop.Unlock)`
unfoldable pub is_locked_crop : State → Option Crop → Bool
is_locked_crop s none = true
is_locked_crop s (some crop) = not (unlocked s crop.unlock)

unfoldable pub buy_seed_upgrade : State → Content → String → Outcome (Unit {0})
unfolding is_locked_crop
buy_seed_upgrade s c id = elim (seed_upgrade_by_id c id) [
  | none ↦ (err unknown_item, s)
  | some su ↦
      let cost = seed_upgrade_cost s su in
      if is_locked_crop s (crop_by_id c su.crop_id)
      then (err locked, s)
      else if ltb_ℤ cost (pos 0)
      then (err maxed, s)
      else if ltb_ℤ s.coins cost
      then (err cant_afford, s)
      else (
        ok tt,
        record s {
          coins = s.coins ⊖ cost;
          seed_upgrades =
              insert su.crop_id (seed_upgrade_level s su.crop_id ⊕ pos 1) s.seed_upgrades;
        },
      )
]

-- `UpgradePlotAuto(…, "harvest")`
unfoldable pub buy_auto_harvest : State → Content → ℤ → Plot → Outcome (Unit {0})
buy_auto_harvest s c i plot =
    let cost = plot_auto_harvest_cost s c in
    if plot.auto_harvest
    then (err already_owned, s)
    else if ltb_ℤ s.coins cost
    then (err cant_afford, s)
    else (
      ok tt,
      put_plot (record s { coins = s.coins ⊖ cost }) i (record plot { auto_harvest = true }),
    )

-- `UpgradePlotAuto(…, "sow")`
unfoldable pub buy_auto_sow : State → Content → ℤ → Plot → Outcome (Unit {0})
buy_auto_sow s c i plot =
    let cost = c.plot_automation.auto_sow_cost in
    if plot.auto_sow
    then (err already_owned, s)
    else if not plot.auto_harvest
    then (err locked, s)
    else if ltb_ℤ s.lifetime_earnings c.plot_automation.auto_sow_min_earnings
    then (err locked, s)
    else if ltb_ℤ s.coins cost
    then (err cant_afford, s)
    else (ok tt, put_plot (record s { coins = s.coins ⊖ cost }) i (record plot { auto_sow = true }))

unfoldable pub upgrade_plot_auto : State → Content → ℤ → String → Outcome (Unit {0})
unfolding buy_auto_harvest buy_auto_sow
upgrade_plot_auto s c i kind = elim (plot_at s i) [
  | none ↦ (err unknown_plot, s)
  | some plot ↦
      if str_eq kind "harvest"
      then buy_auto_harvest s c i plot
      else if str_eq kind "sow"
      then buy_auto_sow s c i plot
      else (err unknown_item, s)
]

unfoldable pub buy_upgrade : State → Content → String → Outcome (Unit {0})
buy_upgrade s c id = elim (upgrade_by_id c id) [
  | none ↦ (err unknown_item, s)
  | some u ↦
      let cost = upgrade_cost s u in
      if ltb_ℤ cost (pos 0)
      then (err maxed, s)
      else if ltb_ℤ s.prestige_currency cost
      then (err cant_afford_pp, s)
      else (
        ok tt,
        record s {
          prestige_currency = s.prestige_currency ⊖ cost;
          upgrades = insert id (upgrade_level s id ⊕ pos 1) s.upgrades;
        },
      )
]
