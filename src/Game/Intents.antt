-- ===== src/Game/Intents.antt =====
-- internal/game/session.go: the intents of a session as values, and `intent`, which runs one on the
-- actor's goroutine.
use ssh_idlefarmer.Content.{Content}
use ssh_idlefarmer.Sim.State.{State}
use ssh_idlefarmer.Sim.Outcome.{err, err, ok, Error, Outcome}
use ssh_idlefarmer.Sim.Field
use ssh_idlefarmer.Sim.Shop
use ssh_idlefarmer.Sim.Gifts
use ssh_idlefarmer.Prelude.{some, some, none, Option, ℕ, ℤ, String, List, Bool}

-- One constructor for each method of `Session` that calls `intent`.
pub data Intent : Type 0 where
  plant : ℤ → String → Intent
  harvest : ℤ → Intent
  buy_plot : Intent
  buy_zone : String → Intent
  buy_multiplier : String → Intent
  buy_seed_upgrade : String → Intent
  upgrade_plot_auto : ℤ → String → Intent
  buy_upgrade : String → Intent
  redeem_gift : Intent
  shoo_critter : ℤ → Intent
  set_farm_name : List ℕ → Intent
  rebirth : Intent
  set_flavor : Bool → Intent

-- The error of an outcome and the state; what else a method hands on is left out.
abbrev pub verdict : {A : Type 0} → Outcome A → Option Error × State
verdict (ok a, s) = (none, s)
verdict (err e, s) = (some e, s)

-- The closure that each method passes to `intent`.
unfoldable pub apply : (ℕ → ℕ) → Content → ℤ → Intent → State → Option Error × State
apply float_sqrt c now (Intent.plant i id) s = verdict (Field.plant s c i id now)
apply float_sqrt c now (Intent.harvest i) s = verdict (Field.harvest s c i now)
apply float_sqrt c now Intent.buy_plot s = verdict (Shop.buy_plot s c)
apply float_sqrt c now (Intent.buy_zone id) s = verdict (Shop.buy_zone s c id)
apply float_sqrt c now (Intent.buy_multiplier id) s = verdict (Shop.buy_multiplier s c id)
apply float_sqrt c now (Intent.buy_seed_upgrade id) s = verdict (Shop.buy_seed_upgrade s c id)
apply float_sqrt c now (Intent.upgrade_plot_auto i kind) s =
    verdict (Shop.upgrade_plot_auto s c i kind)
apply float_sqrt c now (Intent.buy_upgrade id) s = verdict (Shop.buy_upgrade s c id)
apply float_sqrt c now Intent.redeem_gift s = verdict (Gifts.redeem_gift float_sqrt s c)
apply float_sqrt c now (Intent.shoo_critter i) s = verdict (Gifts.shoo_critter s c i)
apply float_sqrt c now (Intent.set_farm_name name) s = verdict (Gifts.set_farm_name s name)
apply float_sqrt c now Intent.rebirth s = verdict (Gifts.rebirth float_sqrt s c now)
apply float_sqrt c now (Intent.set_flavor enabled) s = (none, Gifts.set_flavor s enabled)
