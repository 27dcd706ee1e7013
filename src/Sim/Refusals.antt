-- ===== src/Sim/Refusals.antt =====
-- An action that is refused leaves the save as it was.
use ssh_idlefarmer.Content.{Content}
use ssh_idlefarmer.Sim.State.{State}
use ssh_idlefarmer.Sim.Outcome.{err, Outcome, ok, err}
use ssh_idlefarmer.Sim.Field.{plant, plant_crop, harvest, harvest_crop, gather}
use ssh_idlefarmer.Sim.Shop.{
  buy_plot, buy_zone, buy_multiplier, buy_seed_upgrade, upgrade_plot_auto, buy_upgrade,
}
use ssh_idlefarmer.Sim.Gifts.{redeem_gift, shoo_critter, set_farm_name, rebirth}
use ssh_idlefarmer.Prelude.{◌≡◌, arith, String, ℕ, ℤ, List}

-- The outcome of an action from a state: the state is unchanged if the action was refused.
abbrev pub Unchanged : {A : Type 0} → State → Outcome A → Type 0
Unchanged s (ok a, t) = Unit {0}
Unchanged s (err e, t) = t ≡ s

pub plant-Unchanged :
    (s : State) (c : Content) (i : ℤ) (id : String) (now : ℤ) → Unchanged s (plant s c i id now)
unfolding plant plant_crop
plant-Unchanged s c i id now = ground arith

pub harvest-Unchanged : (s : State) (c : Content) (i now : ℤ) → Unchanged s (harvest s c i now)
unfolding harvest harvest_crop gather
harvest-Unchanged s c i now = ground arith

pub buy_plot-Unchanged : (s : State) (c : Content) → Unchanged s (buy_plot s c)
unfolding buy_plot
buy_plot-Unchanged s c = ground arith

pub buy_zone-Unchanged : (s : State) (c : Content) (id : String) → Unchanged s (buy_zone s c id)
unfolding buy_zone
buy_zone-Unchanged s c id = ground arith

pub buy_multiplier-Unchanged :
    (s : State) (c : Content) (id : String) → Unchanged s (buy_multiplier s c id)
unfolding buy_multiplier
buy_multiplier-Unchanged s c id = ground arith

pub buy_seed_upgrade-Unchanged :
    (s : State) (c : Content) (id : String) → Unchanged s (buy_seed_upgrade s c id)
unfolding buy_seed_upgrade
buy_seed_upgrade-Unchanged s c id = ground arith

pub upgrade_plot_auto-Unchanged :
    (s : State) (c : Content) (i : ℤ) (kind : String) → Unchanged s (upgrade_plot_auto s c i kind)
unfolding upgrade_plot_auto
upgrade_plot_auto-Unchanged s c i kind = ground arith

pub buy_upgrade-Unchanged :
    (s : State) (c : Content) (id : String) → Unchanged s (buy_upgrade s c id)
unfolding buy_upgrade
buy_upgrade-Unchanged s c id = ground arith

pub redeem_gift-Unchanged :
    (float_sqrt : ℕ → ℕ) (s : State) (c : Content) → Unchanged s (redeem_gift float_sqrt s c)
unfolding redeem_gift
redeem_gift-Unchanged float_sqrt s c = ground arith

pub shoo_critter-Unchanged : (s : State) (c : Content) (i : ℤ) → Unchanged s (shoo_critter s c i)
unfolding shoo_critter
shoo_critter-Unchanged s c i = ground arith

pub set_farm_name-Unchanged : (s : State) (name : List ℕ) → Unchanged s (set_farm_name s name)
unfolding set_farm_name
set_farm_name-Unchanged s name = ground arith

pub rebirth-Unchanged :
    (float_sqrt : ℕ → ℕ) (s : State) (c : Content) (now : ℤ)
    → Unchanged s (rebirth float_sqrt s c now)
unfolding rebirth
rebirth-Unchanged float_sqrt s c now = ground arith
