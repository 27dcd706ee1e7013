-- ===== src/Sim/Gifts.antt =====
-- internal/sim/actions.go: parcels, critters, the name and the settings of a farm, and rebirth.
use ssh_idlefarmer.Prelude.{
  Bool, false, not, none, some, [], if◌then◌else◌, str_eq, ℤ, pos, ◌⊕◌, ◌⊖◌, ltb_ℤ, List, ℕ, length,
  ◌⊘◌, ◌⊗◌, ◌==◌, ltb,
}
use ssh_idlefarmer.Content.{Content}
use ssh_idlefarmer.Sim.State.{State, make_plots, sat_add, credit, roll_range, roll100}
use ssh_idlefarmer.Sim.Unlocks.{plot_at}
use ssh_idlefarmer.Sim.Prices.{at_least_1, isqrt, prestige_gain, can_rebirth, start_coins}
use ssh_idlefarmer.Sim.Outcome.{
  Outcome, ok, err, put_plot, unknown_plot, rebirth_too_soon, no_gift, no_critter, name_too_long,
  name_empty,
}
use ssh_idlefarmer.Prelude.Runes.{trim_space}

pub record GiftResult : Type 0 where
  pub coins : ℤ
  pub starseeds : ℤ

-- `clamp` of the reward to the configured floor, then to the ceiling
abbrev pub clamp_reward : Content → ℤ → ℤ
clamp_reward c x =
    let y = if ltb_ℤ x c.gifts.coin_reward_floor then c.gifts.coin_reward_floor else x in
    if ltb_ℤ c.gifts.coin_reward_ceiling y then c.gifts.coin_reward_ceiling else y

module _ (float_sqrt : ℕ → ℕ) where
  unfoldable pub gift_coin_reward : State → Content → ℤ × State
  gift_coin_reward s c =
      let base =
        clamp_reward c
          (isqrt float_sqrt (s.run_earnings ⊘ pos 10) ⊕ pos 10 ⊕ s.rebirths ⊗ pos 50) in
      let (jitter, s') = roll_range s ((pos 0 ⊖ base) ⊘ pos 5) (base ⊘ pos 5) in
      (clamp_reward c (base ⊕ jitter), s')

  -- A parcel of Starseeds.
  unfoldable pub gift_starseeds : State → Content → Outcome GiftResult
  gift_starseeds s c =
      let base = at_least_1 (isqrt float_sqrt (s.run_earnings ⊘ c.prestige.divisor) ⊕ pos 1) in
      let seeds = base ⊕ s.rebirths in
      (
        ok (record { coins = pos 0; starseeds = seeds }),
        record s { prestige_currency = sat_add s.prestige_currency seeds },
      )

  -- A parcel of coins.
  unfoldable pub gift_coins : State → Content → Outcome GiftResult
  unfolding gift_coin_reward
  gift_coins s c =
      let (reward, s') = gift_coin_reward s c in
      (ok (record { coins = reward; starseeds = pos 0 }), credit s' reward)

  -- The chance of Starseeds is rolled after the first rebirth only.
  unfoldable pub redeem_gift : State → Content → Outcome GiftResult
  unfolding gift_starseeds gift_coins
  redeem_gift s c =
      let opened = record s { gift_pending = false; gift_arrived_at = pos 0 } in
      let (r, rolled) = roll100 opened in
      let coins_first = gift_coins opened c in
      let seeds = gift_starseeds rolled c in
      let coins = gift_coins rolled c in
      if not s.gift_pending
      then (err no_gift, s)
      else if ltb_ℤ s.rebirths (pos 1)
      then coins_first
      else if ltb_ℤ r c.gifts.starseed_chance_pct
      then seeds
      else coins

unfoldable pub shoo_critter : State → Content → ℤ → Outcome ℤ
shoo_critter s c i = elim (plot_at s i) [
  | none ↦ (err unknown_plot, s)
  | some plot ↦
      let (reward, s') =
        roll_range (put_plot s i (record plot { critter = "" })) c.critters.shoo_reward_min
          c.critters.shoo_reward_max in
      if str_eq plot.critter "" then (err no_critter, s) else (ok reward, credit s' reward)
]

unfoldable pub set_farm_name : State → List ℕ → Outcome (Unit {0})
set_farm_name s name =
    let trimmed = trim_space name in
    if length trimmed == 0
    then (err name_empty, s)
    else if ltb 24 (length trimmed)
    then (err name_too_long, s)
    else (ok tt, record s { farm_name = trimmed })

unfoldable pub set_flavor : State → Bool → State
set_flavor s enabled = record s { flavor_enabled = enabled }

module _ (float_sqrt : ℕ → ℕ) where
  unfoldable pub rebirth : State → Content → ℤ → Outcome ℤ
  rebirth s c now =
      let gain = prestige_gain float_sqrt s c in
      if not (can_rebirth float_sqrt s c) then (err rebirth_too_soon, s) else (
        ok gain,
        record s {
          prestige_currency = sat_add s.prestige_currency gain;
          rebirths = s.rebirths ⊕ pos 1;
          coins = start_coins c s.upgrades;
          plots = make_plots c.start.plots;
          purchased_plots = pos 0;
          tools = [];
          zones = [];
          multipliers = [];
          seed_upgrades = [];
          run_earnings = pos 0;
          event_id = "";
          event_ends_at = pos 0;
          updated_at = now;
        },
      )
