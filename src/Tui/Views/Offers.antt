-- ===== src/Tui/Views/Offers.antt =====
-- The rows of internal/tui/views.go against the actions of internal/sim/actions.go.
use ssh_idlefarmer.Prelude.{pos, false, true, some, Bool, ℤ, str_eq, ◌≡◌, ◌↔◌, arith, leb_ℤ, ltb_ℤ}
use ssh_idlefarmer.Sim.Field.{plant, plant_crop, harvest}
use ssh_idlefarmer.Sim.Shop.{buy_zone, buy_multiplier}
use ssh_idlefarmer.Tui.Views.{
  multiplier_offer, gated, free_of_charge, too_dear, had, on_sale, plot_card, Offer, ripe,
  picker_offer, zone_offer,
}
use ssh_idlefarmer.Sim.State.{State, Plot, multiplier_level}
use ssh_idlefarmer.Content.{
  Content, Crop, Zone, crop_by_id, zone_by_id, Multiplier, multiplier_by_id,
}
use ssh_idlefarmer.Sim.Harvests.{is_ok, harvest-plot_ready}
use ssh_idlefarmer.Sim.Unlocks.{plot_at}
use ssh_idlefarmer.Sim.Prices.{multiplier_cost, level_cost}

abbrev pub is_offered : Offer → Bool
is_offered gated = false
is_offered free_of_charge = true
is_offered too_dear = false
is_offered had = false
is_offered on_sale = true

-- For a crop that the content finds under its id, and an empty plot: the row of the picker offers
-- the crop, for its price or for nothing, exactly when planting it on the plot succeeds, at any
-- time.
pub plant-picker_offer :
    (s : State) (c : Content) (i now : ℤ) (crop : Crop) {plot : Plot}
    → crop_by_id c crop.id ≡ some crop
    → plot_at s i ≡ some plot
    → str_eq plot.crop "" ≡ true
    → is_ok (plant s c i crop.id now).0 ≡ is_offered (picker_offer s c crop)
unfolding plant plant_crop picker_offer
plant-picker_offer s c i now crop found there bare = ground (arith, found, there, bare)

-- For a zone that the content finds under its id: the row of the market offers it exactly when buying it
-- succeeds.
buy_zone-zone_offer :
    (s : State) (c : Content) (z : Zone)
    → zone_by_id c z.id ≡ some z
    → is_ok (buy_zone s c z.id).0 ≡ is_offered (zone_offer s z)
unfolding buy_zone zone_offer
buy_zone-zone_offer s c z found = ground (arith, found)

-- The card of a planted plot says that it is ripe exactly when harvesting it gets past its checks, up to the
-- payout.
harvest-plot_card :
    (s : State) (c : Content) (i now : ℤ) (plot : Plot)
    → str_eq plot.crop "" ≡ false
    → (is_ok (harvest s c i now).0 ≡ true) ↔ (plot_card s c i plot now ≡ ripe)
unfolding plot_card
harvest-plot_card s c i now plot planted = ground (arith, planted, harvest-plot_ready s c i now)

maxed_cost :
    (level max growth cost : ℤ)
    → leb_ℤ max level ≡ true
    → ltb_ℤ (level_cost level max growth cost) (pos 0) ≡ true
unfolding level_cost
maxed_cost level max growth cost h = ground (arith, h)

maxed :
    (s : State) (m : Multiplier)
    → leb_ℤ m.max_level (multiplier_level s m.id) ≡ true
    → ltb_ℤ (multiplier_cost s m) (pos 0) ≡ true
unfolding multiplier_cost
maxed s m h = maxed_cost (multiplier_level s m.id) m.max_level m.cost_growth_pct m.cost h

-- For a tool that the content finds under its id, whose price is not negative before its greatest level:
-- the row of the market offers it exactly when buying it succeeds.
buy_multiplier-multiplier_offer :
    (s : State) (c : Content) (m : Multiplier)
    → multiplier_by_id c m.id ≡ some m
    → (leb_ℤ m.max_level (multiplier_level s m.id) ≡ false
        → ltb_ℤ (multiplier_cost s m) (pos 0) ≡ false)
    → is_ok (buy_multiplier s c m.id).0 ≡ is_offered (multiplier_offer s m)
unfolding buy_multiplier multiplier_offer
buy_multiplier-multiplier_offer s c m found priced = ground (arith, found, priced, maxed s m)
