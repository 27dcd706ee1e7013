-- ===== src/Sim/Prices.antt =====
-- internal/sim/derive.go: start coins, prices, and the rebirth formula with its integer square root.
use ssh_idlefarmer.Prelude.{
  ℕ, zero, suc, ◌/◌, Bool, ◌&&◌, List, [], ◌∷◌, Dict, lookup_or, count_if, if◌then◌else◌, str_eq,
  leb, ltb, ℤ, pos, negsuc, pos_part, max_int64, ◌⊕◌, ◌⊖◌, ◌⊗◌, ◌⊘◌, ltb_ℤ, leb_ℤ,
}
use ssh_idlefarmer.Content.{Content, Upgrade, Multiplier, SeedUpgrade}
use ssh_idlefarmer.Sim.State.{State, upgrade_level, multiplier_level, seed_upgrade_level, sat_add}
use ssh_idlefarmer.Sim.Bonus.{cap_percent, upgrade_effect_sum}

-- The loop of `startCoins`.
unfoldable pub start_coins_from : Dict ℤ → ℤ → List Upgrade → ℤ
start_coins_from upgrades coins [] = coins
start_coins_from upgrades coins (u ∷ us) =
    start_coins_from upgrades
      (if str_eq u.effect "start_coins"
        then sat_add coins (u.effect_value ⊗ lookup_or (pos 0) u.id upgrades)
        else coins)
      us

unfoldable pub start_coins : Content → Dict ℤ → ℤ
unfolding start_coins_from
start_coins c upgrades = start_coins_from upgrades c.start.coins c.upgrades

-- The loop of the five price functions: a price grown `n` times by `growth` percent. It ends early
-- at `math.MaxInt64 / 100` where the next product would overflow.
unfoldable pub grown_cost : ℕ → ℤ → ℤ → ℤ
grown_cost zero growth cost = cost
grown_cost (suc n) growth cost =
    let rest = grown_cost n growth (cost ⊗ growth ⊘ pos 100) in
    if ltb_ℤ (pos max_int64 ⊘ growth) cost then pos max_int64 ⊘ pos 100 else rest

-- `if cost < 1 { cost = 1 }`
abbrev pub at_least_1 : ℤ → ℤ
at_least_1 cost = if ltb_ℤ cost (pos 1) then pos 1 else cost

-- `NextPlotCost`: -1 at the cap.
unfoldable pub next_plot_cost : State → Content → ℤ
unfolding grown_cost upgrade_effect_sum cap_percent
next_plot_cost s c =
    let grown = grown_cost (pos_part s.purchased_plots) c.land.growth_pct c.land.base_plot_cost in
    let discount = cap_percent (upgrade_effect_sum s c "plot_discount_pct") in
    if leb_ℤ c.land.max_plots (c.start.plots ⊕ s.purchased_plots)
    then negsuc 0
    else at_least_1 (grown ⊗ (pos 100 ⊖ discount) ⊘ pos 100)

unfoldable pub plot_auto_harvest_cost : State → Content → ℤ
unfolding grown_cost
plot_auto_harvest_cost s c = at_least_1 (
    grown_cost (count_if (λ p. p.auto_harvest) s.plots) c.plot_automation.auto_harvest_growth_pct
      c.plot_automation.auto_harvest_base_cost)

-- The price of the next level, or -1 at the maximum: `UpgradeCost`, `MultiplierCost` and
-- `SeedUpgradeCost` share it.
unfoldable pub level_cost : ℤ → ℤ → ℤ → ℤ → ℤ
unfolding grown_cost
level_cost level max_level growth cost =
    if leb_ℤ max_level level then negsuc 0 else grown_cost (pos_part level) growth cost

unfoldable pub upgrade_cost : State → Upgrade → ℤ
upgrade_cost s u = level_cost (upgrade_level s u.id) u.max_level u.cost_growth_pct u.cost

unfoldable pub multiplier_cost : State → Multiplier → ℤ
multiplier_cost s m = level_cost (multiplier_level s m.id) m.max_level m.cost_growth_pct m.cost

unfoldable pub seed_upgrade_cost : State → SeedUpgrade → ℤ
seed_upgrade_cost s su =
    level_cost (seed_upgrade_level s su.crop_id) su.max_level su.cost_growth_pct su.cost

-- `for r > 0 && r > n/r { r-- }`
unfoldable pub sqrt_down : ℕ → ℕ → ℕ
sqrt_down n zero = zero
sqrt_down n (suc r) = let rest = sqrt_down n r in if ltb (n / suc r) (suc r) then rest else suc r

-- `for r+1 <= n/(r+1) { r++ }`, with fuel; each round that goes on has r < n.
unfoldable pub sqrt_up : ℕ → ℕ → ℕ → ℕ
sqrt_up zero n r = r
sqrt_up (suc fuel) n r =
    let rest = sqrt_up fuel n (suc r) in if leb (suc r) (n / suc r) then rest else r

-- The initial estimate `int64(math.Sqrt(float64(n)))` is an argument of the model.
module _ (float_sqrt : ℕ → ℕ) where
  unfoldable pub isqrt : ℤ → ℤ
  unfolding sqrt_up sqrt_down
  isqrt (pos n) = if leb n 0 then pos 0 else pos (sqrt_up n n (sqrt_down n (float_sqrt n)))
  isqrt (negsuc n) = pos 0

  unfoldable pub prestige_gain : State → Content → ℤ
  prestige_gain s c = isqrt (s.run_earnings ⊘ c.prestige.divisor)

  unfoldable pub can_rebirth : State → Content → Bool
  can_rebirth s c =
      leb_ℤ c.prestige.min_earnings s.run_earnings && leb_ℤ (pos 1) (prestige_gain s c)
