-- ===== src/Sim/Solvent/Fortunes.antt =====
-- Parcels, critters and a rebirth keep the balances at zero or more.
use ssh_idlefarmer.Content.{Content}
use ssh_idlefarmer.Content.Bounds.{IsPriced}
use ssh_idlefarmer.Sim.State.{State, roll100, roll_range}
use ssh_idlefarmer.Sim.Solvent.Balances.{
  Solvent, roll100-Solvent, sat_add-NonNeg, credit-Solvent, roll_range-Solvent,
}
use ssh_idlefarmer.Sim.Gifts.{
  gift_coin_reward, gift_coins, gift_starseeds, redeem_gift, shoo_critter, rebirth, clamp_reward,
}
use ssh_idlefarmer.Prelude.{
  inr, inl, pos, false, ℕ, ℤ, Option-cases, arith, InRange, ◌⊘◌, ◌⊕◌, ⊕-InRange, ◌⊗◌, ◌⊖◌,
}
use ssh_idlefarmer.Sim.Prices.{at_least_1, isqrt, prestige_gain}
use ssh_idlefarmer.Sim.Unlocks.{plot_at}
use ssh_idlefarmer.Sim.Outcome.{put_plot}
use ssh_idlefarmer.Sim.Roots.{prestige_gain-InRange}
use ssh_idlefarmer.Sim.Solvent.Prices.{start_coins-NonNeg}
use ssh_idlefarmer.Sim.Solvent.Payouts.{roll_range-InRange}

module _ (c : Content) (k : IsPriced c) where
  clamp_reward-InRange : (x : ℤ) → InRange x → InRange (clamp_reward c x)
  clamp_reward-InRange x h = ground arith

  module _ (float_sqrt : ℕ → ℕ) where
    gift_coins-Solvent : (s : State) → Solvent s → Solvent (gift_coins float_sqrt s c).1
    unfolding gift_coins gift_coin_reward
    gift_coins-Solvent s h =
        let base =
          clamp_reward c
            (isqrt float_sqrt (s.run_earnings ⊘ pos 10) ⊕ pos 10 ⊕ s.rebirths ⊗ pos 50) in
        let lo = (pos 0 ⊖ base) ⊘ pos 5 in
        let hi = base ⊘ pos 5 in
        credit-Solvent (roll_range s lo hi).1 (clamp_reward c (base ⊕ (roll_range s lo hi).0))
          (clamp_reward-InRange (base ⊕ (roll_range s lo hi).0)
            (⊕-InRange base (roll_range s lo hi).0))
          (roll_range-Solvent s lo hi h)

    gift_starseeds-Solvent : (s : State) → Solvent s → Solvent (gift_starseeds float_sqrt s c).1
    unfolding gift_starseeds
    gift_starseeds-Solvent s h =
        let base = at_least_1 (isqrt float_sqrt (s.run_earnings ⊘ c.prestige.divisor) ⊕ pos 1) in
        ground (
          arith,
          sat_add-NonNeg s.prestige_currency (base ⊕ s.rebirths) h.starseeds_ok
              (⊕-InRange base s.rebirths),
        )

    pub redeem_gift-Solvent : (s : State) → Solvent s → Solvent (redeem_gift float_sqrt s c).1
    unfolding redeem_gift
    redeem_gift-Solvent s h =
        let opened = record s { gift_pending = false; gift_arrived_at = pos 0 } in
        let h₁ : Solvent opened = ground arith in
        let h₂ = roll100-Solvent opened h₁ in
        ground (
          arith,
          gift_coins-Solvent opened h₁,
          gift_coins-Solvent (roll100 opened).1 h₂,
          gift_starseeds-Solvent (roll100 opened).1 h₂,
        )

    pub rebirth-Solvent : (s : State) (now : ℤ) → Solvent s → Solvent (rebirth float_sqrt s c now).1
    unfolding rebirth
    rebirth-Solvent s now h = ground (
      arith,
      sat_add-NonNeg s.prestige_currency (prestige_gain float_sqrt s c) h.starseeds_ok,
      prestige_gain-InRange float_sqrt s c,
      start_coins-NonNeg c s.upgrades k.start_coins_ok,
    )

  pub shoo_critter-Solvent : (s : State) (i : ℤ) → Solvent s → Solvent (shoo_critter s c i).1
  unfolding shoo_critter
  shoo_critter-Solvent s i h = elim (Option-cases (plot_at s i)) [
    | inl e ↦ ground arith
    | inr (plot, e) ↦
        let s₁ = put_plot s i (record plot { critter = "" }) in
        let h₁ : Solvent s₁ = ground arith in
        let lo = c.critters.shoo_reward_min in
        let hi = c.critters.shoo_reward_max in
        ground (
          arith,
          credit-Solvent (roll_range s₁ lo hi).1 (roll_range s₁ lo hi).0
              (roll_range-InRange s₁ lo hi k.shoo_fits) (roll_range-Solvent s₁ lo hi h₁),
        )
  ]
