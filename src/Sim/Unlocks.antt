-- ===== src/Sim/Unlocks.antt =====
-- internal/sim/derive.go: unlock gates, the crops on offer, and the state of a plot.
use ssh_idlefarmer.Prelude.{
  Bool, true, false, not, ◌&&◌, ◌||◌, Option, none, some, List, [], ◌∷◌, lookup_or, get_elem?, any,
  if◌then◌else◌, str_eq, ℤ, pos, negsuc, ◌⊖◌, ltb_ℤ, leb_ℤ,
}
use ssh_idlefarmer.Content.{Content, Crop, Unlock, crop_by_id}
use ssh_idlefarmer.Sim.State.{State, Plot}

-- `Unlocked`
unfoldable pub unlocked : State → Unlock → Bool
unlocked s u =
    if str_eq u.kind "" || str_eq u.kind "start"
    then true
    else if str_eq u.kind "earnings"
    then leb_ℤ u.value s.lifetime_earnings
    else if str_eq u.kind "prestige"
    then leb_ℤ u.value s.rebirths
    else if str_eq u.kind "zone"
    then lookup_or false u.zone s.zones
    else false

-- The loop of `VisibleCrops`, which skips prestige crops more than one rebirth away.
unfoldable pub visible_crops : State → List Crop → List Crop
visible_crops s [] = []
visible_crops s (crop ∷ crops) =
    let rest = visible_crops s crops in
    if str_eq crop.unlock.kind "prestige"
      && ltb_ℤ (pos 1) crop.unlock.value
      && ltb_ℤ s.rebirths (crop.unlock.value ⊖ pos 1)
    then rest
    else crop ∷ rest

-- `best == nil || crop.SeedCost < best.SeedCost`
unfoldable pub is_cheaper : Option Crop → Crop → Bool
is_cheaper none crop = true
is_cheaper (some best) crop = ltb_ℤ crop.seed_cost best.seed_cost

-- The loop of `CheapestUnlockedCrop`, with the best crop so far.
unfoldable pub cheapest_from : State → Option Crop → List Crop → Option Crop
unfolding is_cheaper
cheapest_from s best [] = best
cheapest_from s best (crop ∷ crops) =
    cheapest_from s (if unlocked s crop.unlock && is_cheaper best crop then some crop else best)
      crops

unfoldable pub cheapest_unlocked_crop : State → Content → Option Crop
cheapest_unlocked_crop s c = cheapest_from s none c.crops

abbrev pub is_planted : Plot → Bool
is_planted p = not (str_eq p.crop "")

unfoldable pub all_plots_empty : State → Bool
all_plots_empty s = not (any is_planted s.plots)

-- Indexing with an `int`: none where the code answers that there is no such plot.
unfoldable pub plot_at : State → ℤ → Option Plot
plot_at s (pos i) = get_elem? s.plots i
plot_at s (negsuc i) = none

-- The crop that grows on a plot, if it is planted with a known crop.
unfoldable pub planted_crop : Content → Plot → Option Crop
planted_crop c plot = if str_eq plot.crop "" then none else crop_by_id c plot.crop
