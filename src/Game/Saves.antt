-- ===== src/Game/Saves.antt =====
-- What holds of every save that the game can reach, and what its dirty flag promises.
use ssh_idlefarmer.Content.{Content}
use ssh_idlefarmer.Content.Bounds.{IsPriced}
use ssh_idlefarmer.Sim.State.{State, new}
use ssh_idlefarmer.Game.Intents.{Intent, apply, verdict}
use ssh_idlefarmer.Sim.Field.{plant, harvest}
use ssh_idlefarmer.Sim.Shop.{
  buy_plot, buy_zone, buy_multiplier, buy_seed_upgrade, upgrade_plot_auto, buy_upgrade,
}
use ssh_idlefarmer.Sim.Gifts.{redeem_gift, shoo_critter, set_farm_name, rebirth, set_flavor}
use ssh_idlefarmer.Game.Actor.{Save, tick, intent, persist, settle}
use ssh_idlefarmer.Prelude.{
  inr, inr, inl, refl, pos, true, refl, false, some, none, ℤ, ℕ, Bool, NonNeg, Option, ◌≡◌, arith,
  ◌⊖◌, leb_ℤ, ◌≤ℤ◌, Bool-cases, ltb_ℤ, ◌∙◌,
}
use ssh_idlefarmer.Sim.Outcome.{err, err, ok, Outcome, Error}
use ssh_idlefarmer.Sim.Solvent.Balances.{Solvent}
use ssh_idlefarmer.Sim.Refusals.{
  Unchanged, plant-Unchanged, harvest-Unchanged, buy_plot-Unchanged, buy_zone-Unchanged,
  buy_multiplier-Unchanged, buy_seed_upgrade-Unchanged, upgrade_plot_auto-Unchanged,
  buy_upgrade-Unchanged, redeem_gift-Unchanged, shoo_critter-Unchanged, set_farm_name-Unchanged,
  rebirth-Unchanged,
}
use ssh_idlefarmer.Sim.Solvent.Time.{check_achievements-Solvent, advance-Solvent}
use ssh_idlefarmer.Sim.Solvent.Actions.{
  plant-Solvent, harvest-Solvent, buy_plot-Solvent, buy_zone-Solvent, buy_multiplier-Solvent,
  buy_seed_upgrade-Solvent, upgrade_plot_auto-Solvent, buy_upgrade-Solvent,
}
use ssh_idlefarmer.Sim.Clock.{advance-elapsed, advance_idle}
use ssh_idlefarmer.Sim.Solvent.Fortunes.{redeem_gift-Solvent, shoo_critter-Solvent, rebirth-Solvent}
use ssh_idlefarmer.Content.Validate.{validate}
use ssh_idlefarmer.Content.Validated.{HasInt64, validate-IsPriced}

-- The saves that come from a new farm by ticks, intents and writes, in any order and at any times.
pub data Reachable (float_sqrt : ℕ → ℕ) (c : Content) : Save → Type 0 where
  created :
      (seed : ℕ) (now : ℤ)
      → Reachable float_sqrt c (record { state = new c seed now; dirty = false })
  ticked : {v : Save} (now : ℤ) → Reachable float_sqrt c v → Reachable float_sqrt c (tick c now v).1
  acted :
      {v : Save} (now : ℤ) (i : Intent)
      → Reachable float_sqrt c v
      → Reachable float_sqrt c (intent float_sqrt c now i v).1
  persisted :
      {v : Save} (written : Bool)
      → Reachable float_sqrt c v
      → Reachable float_sqrt c (persist written v).1

verdict-state : {A : Type 0} (o : Outcome A) → (verdict o).1 ≡ o.1
verdict-state (ok a, s) = refl
verdict-state (err e, s) = refl

verdict_refused :
    {A : Type 0} (s : State) (o : Outcome A) {e : Error}
    → Unchanged s o
    → (verdict o).0 ≡ some e
    → (verdict o).1 ≡ s
verdict_refused s (ok a, t) u h = cc
verdict_refused s (err e, t) u h = u

-- Whichever intent is refused with an error, the state after it is the state before it.
pub apply_refused :
    (float_sqrt : ℕ → ℕ) (c : Content) (now : ℤ) (i : Intent) (s : State) {e : Error}
    → (apply float_sqrt c now i s).0 ≡ some e
    → (apply float_sqrt c now i s).1 ≡ s
unfolding apply
apply_refused q c now (Intent.plant i id) s =
    verdict_refused s (plant s c i id now) (plant-Unchanged s c i id now)
apply_refused q c now (Intent.harvest i) s =
    verdict_refused s (harvest s c i now) (harvest-Unchanged s c i now)
apply_refused q c now Intent.buy_plot s = verdict_refused s (buy_plot s c) (buy_plot-Unchanged s c)
apply_refused q c now (Intent.buy_zone id) s =
    verdict_refused s (buy_zone s c id) (buy_zone-Unchanged s c id)
apply_refused q c now (Intent.buy_multiplier id) s =
    verdict_refused s (buy_multiplier s c id) (buy_multiplier-Unchanged s c id)
apply_refused q c now (Intent.buy_seed_upgrade id) s =
    verdict_refused s (buy_seed_upgrade s c id) (buy_seed_upgrade-Unchanged s c id)
apply_refused q c now (Intent.upgrade_plot_auto i kind) s =
    verdict_refused s (upgrade_plot_auto s c i kind) (upgrade_plot_auto-Unchanged s c i kind)
apply_refused q c now (Intent.buy_upgrade id) s =
    verdict_refused s (buy_upgrade s c id) (buy_upgrade-Unchanged s c id)
apply_refused q c now Intent.redeem_gift s =
    verdict_refused s (redeem_gift q s c) (redeem_gift-Unchanged q s c)
apply_refused q c now (Intent.shoo_critter i) s =
    verdict_refused s (shoo_critter s c i) (shoo_critter-Unchanged s c i)
apply_refused q c now (Intent.set_farm_name name) s =
    verdict_refused s (set_farm_name s name) (set_farm_name-Unchanged s name)
apply_refused q c now Intent.rebirth s =
    verdict_refused s (rebirth q s c now) (rebirth-Unchanged q s c now)
apply_refused q c now (Intent.set_flavor enabled) s = λ h. cc

leb_ℤ→le : (a b : ℤ) → leb_ℤ a b ≡ true → a ≤ℤ b
leb_ℤ→le a b h = ground arith

later-pos : (a b : ℤ) → NonNeg a → NonNeg b → leb_ℤ a b ≡ false → ltb_ℤ (pos 0) (a ⊖ b) ≡ true
unfolding ◌⊖◌
later-pos a b ha hb h = ground arith

pub tick_clean :
    (c : Content) (now : ℤ) (v : Save)
    → NonNeg now
    → NonNeg v.state.updated_at
    → (tick c now v).1.dirty ≡ false
    → ((tick c now v).1.state ≡ v.state) × (v.dirty ≡ false)
unfolding tick
tick_clean c now v hn hu h =
    let elapsed_lem = advance-elapsed v.state c now in
    elim (Bool-cases (leb_ℤ now v.state.updated_at)) [
      | inl e ↦
          ground
            (arith, elapsed_lem, advance_idle v.state c now (leb_ℤ→le now v.state.updated_at e))
      | inr e ↦ absurd (ground (arith, elapsed_lem, later-pos now v.state.updated_at hn hu e))
    ]

-- Only a refused intent can leave a save clean, one that was clean before.
settle_clean :
    (c : Content) (now : ℤ) (v : Save) (o : Option Error × State)
    → (settle c now v o).1.dirty ≡ false
    → (v.dirty ≡ false) × ((settle c now v o).1.state ≡ o.1) × ((e : Error) × (o.0 ≡ some e))
unfolding settle
settle_clean c now v (some e, s) h = (h, refl, (e, refl))
settle_clean c now v (none, s) h = cc

-- At times from 0 on, an intent that leaves the save's dirty flag unset has left the state as it
-- was and found the flag unset, so no change is missed by the next write.
pub intent_clean :
    (float_sqrt : ℕ → ℕ) (c : Content) (now : ℤ) (i : Intent) (v : Save)
    → NonNeg now
    → NonNeg v.state.updated_at
    → (intent float_sqrt c now i v).1.dirty ≡ false
    → ((intent float_sqrt c now i v).1.state ≡ v.state) × (v.dirty ≡ false)
unfolding intent
intent_clean q c now i v hn hu h =
    let v' = (tick c now v).1 in
    let (clean, kept, (e, refused)) = settle_clean c now v' (apply q c now i v'.state) h in
    let (same, was_clean) = tick_clean c now v hn hu clean in
    (kept ∙ apply_refused q c now i v'.state refused ∙ same, was_clean)

new-Solvent : (c : Content) (seed : ℕ) (now : ℤ) → IsPriced c → Solvent (new c seed now)
unfolding new
new-Solvent c seed now k = ground (arith, k.start_coins_ok)

apply-Solvent :
    (float_sqrt : ℕ → ℕ) (c : Content) (k : IsPriced c) (now : ℤ) (i : Intent) (s : State)
    → Solvent s
    → Solvent (apply float_sqrt c now i s).1
unfolding apply
apply-Solvent q c k now (Intent.plant i id) s h =
    rw (verdict-state (plant s c i id now)) (plant-Solvent c k s i id now h)
apply-Solvent q c k now (Intent.harvest i) s h =
    rw (verdict-state (harvest s c i now)) (harvest-Solvent c k s i now h)
apply-Solvent q c k now Intent.buy_plot s h =
    rw (verdict-state (buy_plot s c)) (buy_plot-Solvent c k s h)
apply-Solvent q c k now (Intent.buy_zone id) s h =
    rw (verdict-state (buy_zone s c id)) (buy_zone-Solvent c k s id h)
apply-Solvent q c k now (Intent.buy_multiplier id) s h =
    rw (verdict-state (buy_multiplier s c id)) (buy_multiplier-Solvent c k s id h)
apply-Solvent q c k now (Intent.buy_seed_upgrade id) s h =
    rw (verdict-state (buy_seed_upgrade s c id)) (buy_seed_upgrade-Solvent c k s id h)
apply-Solvent q c k now (Intent.upgrade_plot_auto i kind) s h =
    rw (verdict-state (upgrade_plot_auto s c i kind)) (upgrade_plot_auto-Solvent c k s i kind h)
apply-Solvent q c k now (Intent.buy_upgrade id) s h =
    rw (verdict-state (buy_upgrade s c id)) (buy_upgrade-Solvent c k s id h)
apply-Solvent q c k now Intent.redeem_gift s h =
    rw (verdict-state (redeem_gift q s c)) (redeem_gift-Solvent c k q s h)
apply-Solvent q c k now (Intent.shoo_critter i) s h =
    rw (verdict-state (shoo_critter s c i)) (shoo_critter-Solvent c k s i h)
apply-Solvent q c k now (Intent.set_farm_name name) s h = unfold set_farm_name in ground arith
apply-Solvent q c k now Intent.rebirth s h =
    rw (verdict-state (rebirth q s c now)) (rebirth-Solvent c k q s now h)
apply-Solvent q c k now (Intent.set_flavor enabled) s h = unfold set_flavor in ground arith

settle-Solvent :
    (c : Content) (now : ℤ) (v : Save) (o : Option Error × State)
    → Solvent o.1
    → Solvent (settle c now v o).1.state
unfolding settle
settle-Solvent c now v (some e, s) h = h
settle-Solvent c now v (none, s) h = check_achievements-Solvent c now s h

tick-Solvent :
    (c : Content) (k : IsPriced c) (now : ℤ) (v : Save)
    → Solvent v.state
    → Solvent (tick c now v).1.state
unfolding tick
tick-Solvent c k now v h = advance-Solvent c k v.state now h

intent-Solvent :
    (float_sqrt : ℕ → ℕ) (c : Content) (k : IsPriced c) (now : ℤ) (i : Intent) (v : Save)
    → Solvent v.state
    → Solvent (intent float_sqrt c now i v).1.state
unfolding intent
intent-Solvent q c k now i v h =
    let v' = (tick c now v).1 in
    settle-Solvent c now v' (apply q c now i v'.state)
      (apply-Solvent q c k now i v'.state (tick-Solvent c k now v h))

persist-Solvent :
    (written : Bool) (v : Save) → Solvent v.state → Solvent (persist written v).1.state
unfolding persist
persist-Solvent written v h = ground arith

priced-Solvent :
    (float_sqrt : ℕ → ℕ) (c : Content)
    → IsPriced c
    → {v : Save} → Reachable float_sqrt c v
    → Solvent v.state
priced-Solvent q c k (created seed now) = new-Solvent c seed now k
priced-Solvent q c k (ticked {v} now r) = tick-Solvent c k now v (priced-Solvent q c k r)
priced-Solvent q c k (acted {v} now i r) = intent-Solvent q c k now i v (priced-Solvent q c k r)
priced-Solvent q c k (persisted {v} written r) = persist-Solvent written v (priced-Solvent q c k r)

-- Over content that validate accepts, with int64 values in its fields, every save that comes from
-- a new farm by ticks, intents and writes, in any order and at any times, has its coins, earnings,
-- Starseeds and number of harvests between 0 and the greatest int64.
pub Reachable-Solvent :
    (float_sqrt : ℕ → ℕ) (c : Content)
    → validate c ≡ none
    → HasInt64 c
    → {v : Save} → Reachable float_sqrt c v
    → Solvent v.state
Reachable-Solvent q c valid t = priced-Solvent q c (validate-IsPriced c valid t)
