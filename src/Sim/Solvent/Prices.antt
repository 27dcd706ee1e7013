-- ===== src/Sim/Solvent/Prices.antt =====
-- The prices of internal/sim/derive.go are amounts of int64.
use ssh_idlefarmer.Content.{Content, Crop, Upgrade}
use ssh_idlefarmer.Sim.Bonus.{
  seed_cost, discounted, event_effect, active_event, cap_percent, upgrade_effect_sum,
}
use ssh_idlefarmer.Sim.Prices.{
  grown_cost, level_cost, next_plot_cost, plot_auto_harvest_cost, start_coins, start_coins_from,
  at_least_1,
}
use ssh_idlefarmer.Sim.State.{State, sat_add}
use ssh_idlefarmer.Sim.Solvent.Balances.{sat_add-NonNeg}
use ssh_idlefarmer.Prelude.{
  pos, pos, suc, zero, ◌∷◌, [], some, none, ℕ, Dict, Option, InRange, ℤ, NonNeg, arith, ⊘-InRange,
  List, ◌⊗◌, pos_part, lookup_or, ◌⊘◌, ⊗-InRange, max_int64, count_if, ◌⊖◌, if◌then◌else◌, str_eq,
}

discounted-InRange : (d : Option ℤ) (cost : ℤ) → InRange cost → InRange (discounted d cost)
unfolding discounted
discounted-InRange none cost h = h
discounted-InRange (some x) cost h = ⊘-InRange _ _

-- No event makes a seed's price negative.
pub seed_cost-NonNeg :
    (s : State) (c : Content) (crop : Crop) → InRange crop.seed_cost → NonNeg (seed_cost s c crop)
unfolding seed_cost
seed_cost-NonNeg s c crop h = ground (
  arith,
  discounted-InRange (event_effect (active_event s c) "seed_discount_pct") crop.seed_cost h,
)

pub grown_cost-InRange :
    (n : ℕ) (growth cost : ℤ) → InRange cost → InRange (grown_cost n growth cost)
unfolding grown_cost
grown_cost-InRange zero growth cost h = h
grown_cost-InRange (suc n) growth cost h = ground (
  arith,
  grown_cost-InRange n growth (cost ⊗ growth ⊘ pos 100) (⊘-InRange _ _),
  ⊘-InRange (pos max_int64) (pos 100),
)

pub level_cost-InRange :
    (level max_level growth cost : ℤ)
    → InRange cost
    → InRange (level_cost level max_level growth cost)
unfolding level_cost
level_cost-InRange level max_level growth cost h =
    ground (arith, grown_cost-InRange (pos_part level) growth cost h)

at_least_1-NonNeg : (x : ℤ) → InRange x → NonNeg (at_least_1 x)
at_least_1-NonNeg x h = ground arith

pub next_plot_cost-InRange : (s : State) (c : Content) → InRange (next_plot_cost s c)
unfolding next_plot_cost
next_plot_cost-InRange s c = ground (
  arith,
  ⊘-InRange
      (grown_cost (pos_part s.purchased_plots) c.land.growth_pct c.land.base_plot_cost
        ⊗ (pos 100 ⊖ cap_percent (upgrade_effect_sum s c "plot_discount_pct")))
      (pos 100),
)

pub plot_auto_harvest_cost-NonNeg :
    (s : State) (c : Content)
    → InRange c.plot_automation.auto_harvest_base_cost
    → NonNeg (plot_auto_harvest_cost s c)
unfolding plot_auto_harvest_cost
plot_auto_harvest_cost-NonNeg s c h =
    let n = count_if (λ p. p.auto_harvest) s.plots in
    let growth = c.plot_automation.auto_harvest_growth_pct in
    let base = c.plot_automation.auto_harvest_base_cost in
    at_least_1-NonNeg (grown_cost n growth base) (grown_cost-InRange n growth base h)

start_coins_from-NonNeg :
    (levels : Dict ℤ) (coins : ℤ) (us : List Upgrade)
    → NonNeg coins
    → NonNeg (start_coins_from levels coins us)
unfolding start_coins_from
start_coins_from-NonNeg levels coins [] h = h
start_coins_from-NonNeg levels coins (u ∷ us) h =
    start_coins_from-NonNeg levels
      (if str_eq u.effect "start_coins"
        then sat_add coins (u.effect_value ⊗ lookup_or (pos 0) u.id levels)
        else coins)
      us
      (ground (
        arith,
        sat_add-NonNeg coins (u.effect_value ⊗ lookup_or (pos 0) u.id levels) h
            (⊗-InRange u.effect_value (lookup_or (pos 0) u.id levels)),
      ))

pub start_coins-NonNeg :
    (c : Content) (levels : Dict ℤ) → NonNeg c.start.coins → NonNeg (start_coins c levels)
unfolding start_coins
start_coins-NonNeg c levels h = start_coins_from-NonNeg levels c.start.coins c.upgrades h
