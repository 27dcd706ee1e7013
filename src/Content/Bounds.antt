-- ===== src/Content/Bounds.antt =====
-- What the engine's money needs of the content: prices and payouts are int64 values, and the prices
-- that no function of the engine clamps are not negative, which `validate` checks.
use ssh_idlefarmer.Content.Index.{
  build_index-All, crop_by_id, zone_by_id, upgrade_by_id, multiplier_by_id, seed_upgrade_by_id,
}
use ssh_idlefarmer.Content.Types.{Content, Crop, Upgrade, Multiplier, SeedUpgrade, Zone}
use ssh_idlefarmer.Prelude.{[], some, NonNeg, InRange, All, lookup, String, ◌≡◌}

pub record IsPriced (c : Content) : Type 0 where
  pub start_coins_ok : NonNeg c.start.coins
  pub auto_sow_ok : NonNeg c.plot_automation.auto_sow_cost
  pub auto_harvest_fits : InRange c.plot_automation.auto_harvest_base_cost
  pub plot_fits : InRange c.land.base_plot_cost
  pub zones_ok : All (λ (z : Zone). NonNeg z.cost) c.zones
  pub crops_fit : All (λ (x : Crop). InRange x.seed_cost × InRange x.sell_value) c.crops
  pub upgrades_fit : All (λ (u : Upgrade). InRange u.cost) c.upgrades
  pub multipliers_fit : All (λ (m : Multiplier). InRange m.cost) c.multipliers
  pub seed_upgrades_fit : All (λ (u : SeedUpgrade). InRange u.cost) c.seed_upgrades
  pub finds_fit : InRange c.flavor.discovery_min
  pub shoo_fits : InRange c.critters.shoo_reward_min
  pub gift_floor_fits : InRange c.gifts.coin_reward_floor
  pub gift_ceiling_fits : InRange c.gifts.coin_reward_ceiling

module _ (c : Content) (h : IsPriced c) where
  pub crop_by_id-fits :
      (id : String) (x : Crop)
      → crop_by_id c id ≡ some x
      → InRange x.seed_cost × InRange x.sell_value
  unfolding crop_by_id lookup
  crop_by_id-fits id =
      build_index-All (λ (x : Crop). x.id)
        (λ (x : Crop). InRange x.seed_cost × InRange x.sell_value) [] c.crops id h.crops_fit
        (λ x e. cc)

  pub zone_by_id-ok : (id : String) (x : Zone) → zone_by_id c id ≡ some x → NonNeg x.cost
  unfolding zone_by_id lookup
  zone_by_id-ok id =
      build_index-All (λ (x : Zone). x.id) (λ (x : Zone). NonNeg x.cost) [] c.zones id h.zones_ok
        (λ x e. cc)

  pub upgrade_by_id-fits :
      (id : String) (x : Upgrade) → upgrade_by_id c id ≡ some x → InRange x.cost
  unfolding upgrade_by_id lookup
  upgrade_by_id-fits id =
      build_index-All (λ (x : Upgrade). x.id) (λ (x : Upgrade). InRange x.cost) [] c.upgrades id
        h.upgrades_fit (λ x e. cc)

  pub multiplier_by_id-fits :
      (id : String) (x : Multiplier) → multiplier_by_id c id ≡ some x → InRange x.cost
  unfolding multiplier_by_id lookup
  multiplier_by_id-fits id =
      build_index-All (λ (x : Multiplier). x.id) (λ (x : Multiplier). InRange x.cost) []
        c.multipliers id h.multipliers_fit (λ x e. cc)

  pub seed_upgrade_by_id-fits :
      (id : String) (x : SeedUpgrade) → seed_upgrade_by_id c id ≡ some x → InRange x.cost
  unfolding seed_upgrade_by_id lookup
  seed_upgrade_by_id-fits id =
      build_index-All (λ (x : SeedUpgrade). x.id) (λ (x : SeedUpgrade). InRange x.cost) []
        c.seed_upgrades id h.seed_upgrades_fit (λ x e. cc)
