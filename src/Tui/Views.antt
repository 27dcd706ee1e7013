-- ===== src/Tui/Views.antt =====
-- internal/tui/views.go: what `View` changes in the model, and what its rows say, as values. Styles, texts
-- and the layout are left out.
use ssh_idlefarmer.Prelude.{
  pos, false, true, some, none, String, Bool, length, ℤ, Option, if◌then◌else◌, leb_ℤ, lookup_or,
  leb, not, ltb_ℤ, ◌||◌, str_eq, ◌-◌, ◌&&◌, ltb, ◌⊕◌, ◌⊖◌,
}
use ssh_idlefarmer.Tui.Model.{
  Ui, Overlay, no_overlay, onboarding, away_summary, picker, upgrade_menu, rebirth_confirm,
  name_editor, kicked, farm, market, land, rebirth_hall, progress, stats, help,
}
use ssh_idlefarmer.Content.{Content, Crop, SeedUpgrade, Zone, Multiplier, Unlock, crop_by_id}
use ssh_idlefarmer.Sim.State.{State, Plot, seed_upgrade_level, multiplier_level}
use ssh_idlefarmer.Tui.Keys.{market_items}
use ssh_idlefarmer.Sim.Unlocks.{unlocked}
use ssh_idlefarmer.Sim.Prices.{multiplier_cost, seed_upgrade_cost}
use ssh_idlefarmer.Sim.Bonus.{
  plot_ready, mercy_plant_eligible, plot_progress_pct, seed_cost, grow_seconds,
}
pub mod Offers
pub mod Core

-- `View` moves a cursor that stands behind its list to the last entry. A farm has plots.
unfoldable pub view_farm : Ui → Ui
view_farm u =
    let plots = length u.snap.plots in
    if leb plots u.cursor then record u { cursor = plots - 1 } else u

unfoldable pub view_market : Content → Ui → Ui
view_market c u =
    let items = length (market_items c) in
    if leb items u.market_idx && ltb 0 items then record u { market_idx = items - 1 } else u

abbrev pub is_open : Overlay → Bool
is_open no_overlay = false
is_open onboarding = true
is_open away_summary = true
is_open picker = true
is_open upgrade_menu = true
is_open rebirth_confirm = true
is_open name_editor = true
is_open kicked = true

unfoldable pub screen_body : Content → Ui → Ui
unfolding view_farm view_market
screen_body c u = elim u.scr [
  | farm ↦ view_farm u
  | market ↦ view_market c u
  | land ↦ u
  | rebirth_hall ↦ u
  | progress ↦ u
  | stats ↦ u
  | help ↦ u
]

unfoldable pub view : Content → Ui → Ui
unfolding screen_body
view c u =
    if ltb_ℤ u.width (pos 36) || ltb_ℤ u.height (pos 10)
    then u
    else if is_open u.overlay
    then u
    else screen_body c u

-- A card of `plotCard`.
pub data Card : Type 0 where
  visitor : String → Card
  bare ripe unknown : Card
  growing : ℤ → ℤ → Card  -- the percentage, and the seconds left

unfoldable pub plot_card : State → Content → ℤ → Plot → ℤ → Card
plot_card s c i plot now =
    if str_eq plot.crop ""
    then if str_eq plot.critter "" then bare else visitor plot.critter
    else if plot_ready s c i now
    then ripe
    else elim (crop_by_id c plot.crop) [
      | none ↦ unknown
      | some crop ↦
          growing (plot_progress_pct s c i now) (plot.planted_at ⊕ grow_seconds s c crop ⊖ now)
    ]

-- A row of `viewPicker` and of the market: it is locked, free, too dear or had already, or it is on sale.
pub data Offer : Type 0 where
  gated free_of_charge too_dear had on_sale : Offer

unfoldable pub picker_offer : State → Content → Crop → Offer
picker_offer s c crop =
    if not (unlocked s crop.unlock)
    then gated
    else if mercy_plant_eligible s c crop.id
    then free_of_charge
    else if ltb_ℤ s.coins (seed_cost s c crop)
    then too_dear
    else on_sale

-- The rows of `viewMarket`, with what `marketItems` puts into them.
unfoldable pub multiplier_offer : State → Multiplier → Offer
multiplier_offer s m =
    if leb_ℤ m.max_level (multiplier_level s m.id)
    then had
    else if ltb_ℤ s.coins (multiplier_cost s m)
    then too_dear
    else on_sale

-- `crop != nil && !st.Unlocked(crop.Unlock)`
abbrev pub is_gated : State → Option Crop → Bool
is_gated s none = false
is_gated s (some crop) = not (unlocked s crop.unlock)

unfoldable pub strain_offer : State → Content → SeedUpgrade → Offer
strain_offer s c su =
    if leb_ℤ su.max_level (seed_upgrade_level s su.crop_id)
    then had
    else if is_gated s (crop_by_id c su.crop_id)
    then gated
    else if ltb_ℤ s.coins (seed_upgrade_cost s su)
    then too_dear
    else on_sale

unfoldable pub zone_offer : State → Zone → Offer
zone_offer s z =
    if lookup_or false z.id s.zones
    then had
    else if not (unlocked s z.unlock)
    then gated
    else if ltb_ℤ s.coins z.cost
    then too_dear
    else on_sale
