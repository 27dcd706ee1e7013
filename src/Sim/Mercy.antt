-- ===== src/Sim/Mercy.antt =====
-- The mercy rule of internal/sim/derive.go and internal/sim/actions.go: a farm with nothing planted can
-- always plant.
-- The search for the cheapest crop gives the best so far or a crop of the list that is unlocked.
use ssh_idlefarmer.Prelude.{
  none, inr, inl, pos, false, true, suc, zero, ◌∷◌, [], some, none, List, ℕ, Option, any, ◌≡◌, ℤ,
  get_elem?, ◌⊎◌, str_eq, if◌then◌else◌, some_inj, ◌&&◌, arith, Bool-cases, eq_iff, ap, String, ◌∙◌,
}
use ssh_idlefarmer.Sim.Outcome.{ok, ok, ok, Outcome}
use ssh_idlefarmer.Sim.Field.{plant_crop}
use ssh_idlefarmer.Sim.Field.{plant}
use ssh_idlefarmer.Sim.Unlocks.{
  cheapest_from, is_planted, unlocked, all_plots_empty, cheapest_unlocked_crop, is_cheaper, plot_at,
}
use ssh_idlefarmer.Sim.State.{Plot, State}
use ssh_idlefarmer.Sim.Bonus.{mercy_plant_eligible, mercy_for}
use ssh_idlefarmer.Content.{Crop, Content, crop_by_id}
use ssh_idlefarmer.Content.Validate.{validate}
use ssh_idlefarmer.Content.Validated.{validate-crop_by_id}

cheapest_from-origin :
    (s : State) (best : Option Crop) (crops : List Crop) {x : Crop}
    → cheapest_from s best crops ≡ some x
    → (best ≡ some x) ⊎ ((i : ℕ) × (get_elem? crops i ≡ some x) × (unlocked s x.unlock ≡ true))
unfolding cheapest_from
cheapest_from-origin s best [] h = inl h
cheapest_from-origin s best (crop ∷ crops) {x} h =
    elim (cheapest_from-origin s
      (if unlocked s crop.unlock && is_cheaper best crop then some crop else best) crops h) [
        | inr (i, at, gate) ↦ inr (suc i, at, gate)
        | inl e ↦ elim (Bool-cases (unlocked s crop.unlock && is_cheaper best crop)) [
          | inr worse ↦ inl (rw worse at e)
          | inl better ↦
              let same : crop ≡ x = some_inj (rw better at e) in
              inr (0, ap some same, rw (← same) (ground (arith, better)))
        ]
      ]

planted_of_mercy :
    (s : State) (c : Content) (i : ℤ) (plot : Plot) (now : ℤ) (x : Crop)
    → unlocked s x.unlock ≡ true
    → all_plots_empty s ≡ true
    → cheapest_unlocked_crop s c ≡ some x
    → (plant_crop s c i plot x.id now (some x)).0 ≡ ok tt
unfolding plant_crop mercy_plant_eligible mercy_for
planted_of_mercy s c i plot now x gate empty cheapest = ground (arith, eq_iff x.id x.id)

empty_at :
    (plots : List Plot) (i : ℕ) {p : Plot}
    → any is_planted plots ≡ false
    → get_elem? plots i ≡ some p
    → str_eq p.crop "" ≡ true
empty_at [] i h e = cc
empty_at (q ∷ plots) zero h e = let same = some_inj e in rw (← same) (ground (arith, h))
empty_at (q ∷ plots) (suc i) h e = empty_at plots i (ground (arith, h)) e

plant_here :
    (s : State) (c : Content) (i now : ℤ) (id : String) {p : Plot} {x : Crop}
    → plot_at s i ≡ some p
    → str_eq p.crop "" ≡ true
    → crop_by_id c id ≡ some x
    → plant s c i id now ≡ plant_crop s c i p id now (some x)
unfolding plant
plant_here s c i now id here bare found = ground arith

-- Over content that validate accepts, on a farm whose plots are all empty, planting the cheapest
-- unlocked crop on a plot that exists succeeds, whatever the coins.
pub plant_mercy :
    (s : State) (c : Content) (i : ℕ) (now : ℤ) {x : Crop} {p : Plot}
    → validate c ≡ none
    → all_plots_empty s ≡ true
    → get_elem? s.plots i ≡ some p
    → cheapest_unlocked_crop s c ≡ some x
    → (plant s c (pos i) x.id now).0 ≡ ok tt
unfolding plot_at all_plots_empty cheapest_unlocked_crop
plant_mercy s c i now {x} {p} valid empty here cheapest =
    elim (cheapest_from-origin s none c.crops cheapest) [
      | inl e ↦ absurd cc
      | inr (j, at, gate) ↦
          let found = validate-crop_by_id c j valid at in
          let bare = empty_at s.plots i (ground (arith, empty)) here in
          ap (λ (o : Outcome (Unit {0})). o.0) (plant_here s c (pos i) now x.id here bare found)
          ∙ planted_of_mercy s c (pos i) p now x gate empty cheapest
    ]
