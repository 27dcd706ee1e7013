-- ===== src/Game/Held.antt =====
-- What the ticks and the intents of an open save keep: the current version, and a time from 0 on.
use ssh_idlefarmer.Sim.Frame.{Framed, advance-version, check_achievements-Framed}
use ssh_idlefarmer.Game.Intents.{Intent, apply, verdict}
use ssh_idlefarmer.Sim.Field.{plant, harvest}
use ssh_idlefarmer.Sim.Shop.{
  buy_plot, buy_zone, buy_multiplier, buy_seed_upgrade, upgrade_plot_auto, buy_upgrade,
}
use ssh_idlefarmer.Sim.Gifts.{redeem_gift, shoo_critter, set_farm_name, rebirth, set_flavor}
use ssh_idlefarmer.Prelude.{inr, inr, inl, some, none, ℕ, ◌∙◌, ◌≡◌, ℤ, NonNeg, Option, arith}
use ssh_idlefarmer.Sim.Outcome.{err, err, ok, Outcome, Error}
use ssh_idlefarmer.Sim.State.{State, state_version}
use ssh_idlefarmer.Content.{Content}
use ssh_idlefarmer.Game.Actor.{intent, tick, settle, Save}
use ssh_idlefarmer.Sim.Frame.Actions.{
  redeem_gift-Framed, plant-Framed, rebirth-version, harvest-Framed, buy_plot-Framed,
  buy_zone-Framed, buy_multiplier-Framed, buy_seed_upgrade-Framed, upgrade_plot_auto-Framed,
  buy_upgrade-Framed, shoo_critter-Framed, set_farm_name-Framed,
}
use ssh_idlefarmer.Sim.Arrivals.{check_achievements}
use ssh_idlefarmer.Sim.Clock.{advance-updated_at}

-- A state as it is decoded, with a time that is not negative.
abbrev pub IsCurrent : State → Type 0
IsCurrent s = (s.version ≡ state_version) × NonNeg s.updated_at

Framed-IsCurrent : (s t : State) → IsCurrent s → Framed s t → IsCurrent t
Framed-IsCurrent s t (v, n) (a, b) = (a ∙ v, rw b n)

verdict-IsCurrent : {A : Type 0} (o : Outcome A) → IsCurrent o.1 → IsCurrent (verdict o).1
verdict-IsCurrent (ok a, s) h = h
verdict-IsCurrent (err e, s) h = h

module _ (float_sqrt : ℕ → ℕ) (c : Content) (now : ℤ) (time : NonNeg now) where
  rebirth-IsCurrent : (s : State) → IsCurrent s → IsCurrent (rebirth float_sqrt s c now).1
  rebirth-IsCurrent s (v, n) =
      let (a, b) = rebirth-version float_sqrt s c now in
      elim b [ inl e ↦ (a ∙ v, rw e n) | inr e ↦ (a ∙ v, rw e time) ]

  acted-IsCurrent :
      {A : Type 0} (s : State) (o : Outcome A)
      → IsCurrent s
      → Framed s o.1
      → IsCurrent (verdict o).1
  acted-IsCurrent s o h f = verdict-IsCurrent o (Framed-IsCurrent s o.1 h f)

  apply-IsCurrent :
      (i : Intent) (s : State) → IsCurrent s → IsCurrent (apply float_sqrt c now i s).1
  unfolding apply
  apply-IsCurrent (Intent.plant i id) s h =
      acted-IsCurrent s (plant s c i id now) h (plant-Framed s c i id now)
  apply-IsCurrent (Intent.harvest i) s h =
      acted-IsCurrent s (harvest s c i now) h (harvest-Framed s c i now)
  apply-IsCurrent Intent.buy_plot s h = acted-IsCurrent s (buy_plot s c) h (buy_plot-Framed s c)
  apply-IsCurrent (Intent.buy_zone id) s h =
      acted-IsCurrent s (buy_zone s c id) h (buy_zone-Framed s c id)
  apply-IsCurrent (Intent.buy_multiplier id) s h =
      acted-IsCurrent s (buy_multiplier s c id) h (buy_multiplier-Framed s c id)
  apply-IsCurrent (Intent.buy_seed_upgrade id) s h =
      acted-IsCurrent s (buy_seed_upgrade s c id) h (buy_seed_upgrade-Framed s c id)
  apply-IsCurrent (Intent.upgrade_plot_auto i kind) s h =
      acted-IsCurrent s (upgrade_plot_auto s c i kind) h (upgrade_plot_auto-Framed s c i kind)
  apply-IsCurrent (Intent.buy_upgrade id) s h =
      acted-IsCurrent s (buy_upgrade s c id) h (buy_upgrade-Framed s c id)
  apply-IsCurrent Intent.redeem_gift s h =
      acted-IsCurrent s (redeem_gift float_sqrt s c) h (redeem_gift-Framed float_sqrt s c)
  apply-IsCurrent (Intent.shoo_critter i) s h =
      acted-IsCurrent s (shoo_critter s c i) h (shoo_critter-Framed s c i)
  apply-IsCurrent (Intent.set_farm_name name) s h =
      acted-IsCurrent s (set_farm_name s name) h (set_farm_name-Framed s name)
  apply-IsCurrent Intent.rebirth s h =
      verdict-IsCurrent (rebirth float_sqrt s c now) (rebirth-IsCurrent s h)
  apply-IsCurrent (Intent.set_flavor enabled) s h = unfold set_flavor in h

  settle-IsCurrent :
      (v : Save) (o : Option Error × State) → IsCurrent o.1 → IsCurrent (settle c now v o).1.state
  unfolding settle
  settle-IsCurrent v (some e, s) h = h
  settle-IsCurrent v (none, s) h =
      Framed-IsCurrent s (check_achievements s c now).1 h (check_achievements-Framed s c now)

  pub tick-IsCurrent : (v : Save) → IsCurrent v.state → IsCurrent (tick c now v).1.state
  unfolding tick
  tick-IsCurrent v (e, n) =
      (advance-version v.state c now ∙ e, ground (arith, advance-updated_at v.state c now, n, time))

  pub intent-IsCurrent :
      (i : Intent) (v : Save) → IsCurrent v.state → IsCurrent (intent float_sqrt c now i v).1.state
  unfolding intent
  intent-IsCurrent i v h =
      let v' = (tick c now v).1 in
      settle-IsCurrent v' (apply float_sqrt c now i v'.state)
        (apply-IsCurrent i v'.state (tick-IsCurrent v h))
