-- ===== src/Sim/Solvent/Actions.antt =====
-- Every action of the player keeps the balances at zero or more.
use ssh_idlefarmer.Content.{
  Content, Crop, multiplier_by_id, seed_upgrade_by_id, zone_by_id, upgrade_by_id, crop_by_id,
}
use ssh_idlefarmer.Content.Bounds.{
  IsPriced, zone_by_id-ok, crop_by_id-fits, seed_upgrade_by_id-fits, upgrade_by_id-fits,
  multiplier_by_id-fits,
}
use ssh_idlefarmer.Sim.State.{State, Plot, seed_upgrade_level, multiplier_level, upgrade_level}
use ssh_idlefarmer.Sim.Solvent.Balances.{Solvent, spend-NonNeg}
use ssh_idlefarmer.Prelude.{inr, inr, inl, some, String, arith, ℤ, InRange, Option-cases}
use ssh_idlefarmer.Sim.Field.{plant, gather, harvest, plant_crop}
use ssh_idlefarmer.Sim.Shop.{
  buy_upgrade, upgrade_plot_auto, buy_multiplier, buy_seed_upgrade, buy_zone, buy_plot,
}
use ssh_idlefarmer.Sim.Prices.{
  multiplier_cost, seed_upgrade_cost, upgrade_cost, plot_auto_harvest_cost, next_plot_cost,
}
use ssh_idlefarmer.Sim.Solvent.Prices.{
  next_plot_cost-InRange, plot_auto_harvest_cost-NonNeg, seed_cost-NonNeg, level_cost-InRange,
}
use ssh_idlefarmer.Sim.Unlocks.{plot_at}
use ssh_idlefarmer.Sim.Solvent.Payouts.{
  harvest_payout-InRange, bank_harvest-Solvent, harvest_payout-Solvent,
}
use ssh_idlefarmer.Sim.Bonus.{seed_cost}
use ssh_idlefarmer.Sim.Payout.{harvest_payout}

module _ (c : Content) (k : IsPriced c) where
  plant_crop-Solvent :
      (s : State) (i : ℤ) (plot : Plot) (id : String) (now : ℤ) (crop : Crop)
      → InRange crop.seed_cost
      → Solvent s
      → Solvent (plant_crop s c i plot id now (some crop)).1
  unfolding plant_crop
  plant_crop-Solvent s i plot id now crop r h =
      ground
        (arith, seed_cost-NonNeg s c crop r, spend-NonNeg s.coins (seed_cost s c crop) h.coins_ok)

  pub plant-Solvent :
      (s : State) (i : ℤ) (id : String) (now : ℤ) → Solvent s → Solvent (plant s c i id now).1
  unfolding plant plant_crop
  plant-Solvent s i id now h = elim (Option-cases (plot_at s i)) [
    | inl e ↦ ground arith
    | inr (plot, e) ↦ elim (Option-cases (crop_by_id c id)) [
      | inl e' ↦ ground arith
      | inr (crop, e') ↦
          ground
            (arith, plant_crop-Solvent s i plot id now crop (crop_by_id-fits c k id crop e').0 h)
    ]
  ]

  gather-Solvent :
      (s : State) (i : ℤ) (plot : Plot) (crop : Crop)
      → InRange crop.sell_value
      → Solvent s
      → Solvent (gather s c i plot crop).1
  unfolding gather
  gather-Solvent s i plot crop r h =
      let (hp, hd) = harvest_payout-InRange s c crop r k.finds_fit in
      let (paid, s₁) = harvest_payout s c crop in
      ground (arith, bank_harvest-Solvent paid s₁ hp hd (harvest_payout-Solvent s c crop h))

  pub harvest-Solvent : (s : State) (i now : ℤ) → Solvent s → Solvent (harvest s c i now).1
  unfolding harvest
  harvest-Solvent s i now h = elim (Option-cases (plot_at s i)) [
    | inl e ↦ ground arith
    | inr (plot, e) ↦ elim (Option-cases (crop_by_id c plot.crop)) [
      | inl e' ↦ ground arith
      | inr (crop, e') ↦
          ground (arith, gather-Solvent s i plot crop (crop_by_id-fits c k plot.crop crop e').1 h)
    ]
  ]

  pub buy_plot-Solvent : (s : State) → Solvent s → Solvent (buy_plot s c).1
  unfolding buy_plot
  buy_plot-Solvent s h =
      ground
        (arith, next_plot_cost-InRange s c, spend-NonNeg s.coins (next_plot_cost s c) h.coins_ok)

  pub buy_zone-Solvent : (s : State) (id : String) → Solvent s → Solvent (buy_zone s c id).1
  unfolding buy_zone
  buy_zone-Solvent s id h = elim (Option-cases (zone_by_id c id)) [
    | inl e ↦ ground arith
    | inr (zone, e) ↦
        ground (arith, spend-NonNeg s.coins zone.cost h.coins_ok (zone_by_id-ok c k id zone e))
  ]

  pub buy_multiplier-Solvent :
      (s : State) (id : String) → Solvent s → Solvent (buy_multiplier s c id).1
  unfolding buy_multiplier multiplier_cost
  buy_multiplier-Solvent s id h = elim (Option-cases (multiplier_by_id c id)) [
    | inl e ↦ ground arith
    | inr (m, e) ↦ ground (
      arith,
      level_cost-InRange (multiplier_level s m.id) m.max_level m.cost_growth_pct m.cost
          (multiplier_by_id-fits c k id m e),
      spend-NonNeg s.coins (multiplier_cost s m) h.coins_ok,
    )
  ]

  pub buy_seed_upgrade-Solvent :
      (s : State) (id : String) → Solvent s → Solvent (buy_seed_upgrade s c id).1
  unfolding buy_seed_upgrade seed_upgrade_cost
  buy_seed_upgrade-Solvent s id h = elim (Option-cases (seed_upgrade_by_id c id)) [
    | inl e ↦ ground arith
    | inr (su, e) ↦ ground (
      arith,
      level_cost-InRange (seed_upgrade_level s su.crop_id) su.max_level su.cost_growth_pct su.cost
          (seed_upgrade_by_id-fits c k id su e),
      spend-NonNeg s.coins (seed_upgrade_cost s su) h.coins_ok,
    )
  ]

  pub buy_upgrade-Solvent : (s : State) (id : String) → Solvent s → Solvent (buy_upgrade s c id).1
  unfolding buy_upgrade upgrade_cost
  buy_upgrade-Solvent s id h = elim (Option-cases (upgrade_by_id c id)) [
    | inl e ↦ ground arith
    | inr (u, e) ↦ ground (
      arith,
      level_cost-InRange (upgrade_level s u.id) u.max_level u.cost_growth_pct u.cost
          (upgrade_by_id-fits c k id u e),
      spend-NonNeg s.prestige_currency (upgrade_cost s u) h.starseeds_ok,
    )
  ]

  pub upgrade_plot_auto-Solvent :
      (s : State) (i : ℤ) (kind : String) → Solvent s → Solvent (upgrade_plot_auto s c i kind).1
  unfolding upgrade_plot_auto
  upgrade_plot_auto-Solvent s i kind h = ground (
    arith,
    plot_auto_harvest_cost-NonNeg s c k.auto_harvest_fits,
    spend-NonNeg s.coins (plot_auto_harvest_cost s c) h.coins_ok,
    spend-NonNeg s.coins c.plot_automation.auto_sow_cost h.coins_ok k.auto_sow_ok,
  )
