-- ===== src/Sim/Frame/Actions.antt =====
-- The actions of a player leave the version and the time of the save.
use ssh_idlefarmer.Sim.Frame.{
  Framed, Framed-trans, harvest_payout-Framed, bank_harvest-Framed, roll100-Framed,
  roll_range-Framed, credit-Framed,
}
use ssh_idlefarmer.Sim.State.{State, roll100, Plot, roll_range, credit}
use ssh_idlefarmer.Sim.Field.{plant, harvest, plant_crop, harvest_crop, gather}
use ssh_idlefarmer.Sim.Shop.{
  buy_plot, buy_zone, buy_multiplier, buy_seed_upgrade, upgrade_plot_auto, buy_upgrade,
  buy_auto_harvest, buy_auto_sow,
}
use ssh_idlefarmer.Sim.Gifts.{
  clamp_reward, redeem_gift, shoo_critter, set_farm_name, rebirth, gift_coins, gift_starseeds,
  gift_coin_reward,
}
use ssh_idlefarmer.Prelude.{
  inl, false, inl, inr, refl, pos, ℕ, List, String, ℤ, arith, Option-cases, ◌≡◌, ◌⊎◌, ◌⊘◌, ◌⊕◌, ◌⊗◌,
  ◌⊖◌,
}
use ssh_idlefarmer.Content.{Content, Crop, crop_by_id}
use ssh_idlefarmer.Sim.Unlocks.{plot_at}
use ssh_idlefarmer.Sim.Prices.{isqrt}
use ssh_idlefarmer.Sim.Payout.{harvest_payout}
use ssh_idlefarmer.Sim.Outcome.{put_plot}

pub plant-Framed :
    (s : State) (c : Content) (i : ℤ) (id : String) (now : ℤ) → Framed s (plant s c i id now).1
unfolding plant plant_crop
plant-Framed s c i id now = ground arith

gather-Framed :
    (s : State) (c : Content) (i : ℤ) (plot : Plot) (crop : Crop)
    → Framed s (gather s c i plot crop).1
unfolding gather
gather-Framed s c i plot crop =
    let (paid, s₁) = harvest_payout s c crop in
    ground (arith, harvest_payout-Framed s c crop, bank_harvest-Framed paid s₁)

pub harvest-Framed : (s : State) (c : Content) (i now : ℤ) → Framed s (harvest s c i now).1
unfolding harvest harvest_crop
harvest-Framed s c i now = elim (Option-cases (plot_at s i)) [
  | inl e ↦ ground arith
  | inr (plot, e) ↦ elim (Option-cases (crop_by_id c plot.crop)) [
    | inl e' ↦ ground arith
    | inr (crop, e') ↦ ground (arith, gather-Framed s c i plot crop)
  ]
]

pub buy_plot-Framed : (s : State) (c : Content) → Framed s (buy_plot s c).1
unfolding buy_plot
buy_plot-Framed s c = ground arith

pub buy_zone-Framed : (s : State) (c : Content) (id : String) → Framed s (buy_zone s c id).1
unfolding buy_zone
buy_zone-Framed s c id = ground arith

pub buy_multiplier-Framed :
    (s : State) (c : Content) (id : String) → Framed s (buy_multiplier s c id).1
unfolding buy_multiplier
buy_multiplier-Framed s c id = ground arith

pub buy_seed_upgrade-Framed :
    (s : State) (c : Content) (id : String) → Framed s (buy_seed_upgrade s c id).1
unfolding buy_seed_upgrade
buy_seed_upgrade-Framed s c id = ground arith

pub upgrade_plot_auto-Framed :
    (s : State) (c : Content) (i : ℤ) (kind : String) → Framed s (upgrade_plot_auto s c i kind).1
unfolding upgrade_plot_auto buy_auto_harvest buy_auto_sow
upgrade_plot_auto-Framed s c i kind = ground arith

pub buy_upgrade-Framed : (s : State) (c : Content) (id : String) → Framed s (buy_upgrade s c id).1
unfolding buy_upgrade
buy_upgrade-Framed s c id = ground arith

gift_coins-Framed :
    (float_sqrt : ℕ → ℕ) (s : State) (c : Content) → Framed s (gift_coins float_sqrt s c).1
unfolding gift_coins gift_coin_reward
gift_coins-Framed q s c =
    let base = clamp_reward c (isqrt q (s.run_earnings ⊘ pos 10) ⊕ pos 10 ⊕ s.rebirths ⊗ pos 50) in
    let (jitter, s') = roll_range s ((pos 0 ⊖ base) ⊘ pos 5) (base ⊘ pos 5) in
    Framed-trans s s' (credit s' (clamp_reward c (base ⊕ jitter)))
      (roll_range-Framed s ((pos 0 ⊖ base) ⊘ pos 5) (base ⊘ pos 5))
      (credit-Framed s' (clamp_reward c (base ⊕ jitter)))

gift_starseeds-Framed :
    (float_sqrt : ℕ → ℕ) (s : State) (c : Content) → Framed s (gift_starseeds float_sqrt s c).1
unfolding gift_starseeds
gift_starseeds-Framed q s c = (refl, refl)

pub redeem_gift-Framed :
    (float_sqrt : ℕ → ℕ) (s : State) (c : Content) → Framed s (redeem_gift float_sqrt s c).1
unfolding redeem_gift
redeem_gift-Framed q s c =
    let opened = record s { gift_pending = false; gift_arrived_at = pos 0 } in
    let t = (roll100 opened).1 in
    ground (
      arith,
      roll100-Framed opened,
      gift_coins-Framed q opened c,
      gift_coins-Framed q t c,
      gift_starseeds-Framed q t c,
    )

pub shoo_critter-Framed : (s : State) (c : Content) (i : ℤ) → Framed s (shoo_critter s c i).1
unfolding shoo_critter
shoo_critter-Framed s c i = elim (Option-cases (plot_at s i)) [
  | inl e ↦ ground arith
  | inr (plot, e) ↦
      let s₁ = put_plot s i (record plot { critter = "" }) in
      let lo = c.critters.shoo_reward_min in
      let hi = c.critters.shoo_reward_max in
      ground (
        arith,
        roll_range-Framed s₁ lo hi,
        credit-Framed (roll_range s₁ lo hi).1 (roll_range s₁ lo hi).0,
      )
]

pub set_farm_name-Framed : (s : State) (name : List ℕ) → Framed s (set_farm_name s name).1
unfolding set_farm_name
set_farm_name-Framed s name = ground arith

-- A rebirth sets the time.
pub rebirth-version :
    (float_sqrt : ℕ → ℕ) (s : State) (c : Content) (now : ℤ)
    → let t = (rebirth float_sqrt s c now).1 in
      (t.version ≡ s.version) × ((t.updated_at ≡ s.updated_at) ⊎ (t.updated_at ≡ now))
unfolding rebirth
rebirth-version q s c now = ground arith
