-- ===== src/Sim/Levels.antt =====
-- Bought levels in internal/sim/actions.go stay within their maximum, and are paid in full.
-- A permanent upgrade is below its maximum.
use ssh_idlefarmer.Prelude.{
  refl, negsuc, pos, false, true, suc, zero, some, ◌⊕◌, ℤ, InRange, ltb_ℤ, ◌≡◌, arith, ◌≤ℤ◌, String,
  ◌⊖◌, ◌≢◌, insert, if◌then◌else◌, eq_iff, str_eq, lookup_or-insert, lookup_or,
}
use ssh_idlefarmer.Sim.Outcome.{ok, ok, ok}
use ssh_idlefarmer.Sim.Prices.{level_cost, upgrade_cost}
use ssh_idlefarmer.Sim.Shop.{buy_upgrade}
use ssh_idlefarmer.Sim.State.{upgrade_level, State}
use ssh_idlefarmer.Content.{Content, Upgrade, upgrade_by_id, upgrade_by_id-id}

level_cost-lt :
    (level max_level growth cost : ℤ)
    → ltb_ℤ (level_cost level max_level growth cost) (pos 0) ≡ false
    → ltb_ℤ level max_level ≡ true
unfolding level_cost
level_cost-lt level max_level growth cost h = ground arith

next-le :
    (level max_level : ℤ)
    → InRange level
    → InRange max_level
    → ltb_ℤ level max_level ≡ true
    → level ⊕ pos 1 ≤ℤ max_level
unfolding ◌⊕◌
next-le (pos a) (pos b) h k e = ground arith
next-le (pos a) (negsuc b) h k e = absurd (ground (arith, e))
next-le (negsuc zero) (pos b) h k e = ground arith
next-le (negsuc (suc a)) (pos b) h k e = ground arith
next-le (negsuc a) (negsuc b) h k e = ground arith

-- The save after an upgrade is bought.
abbrev with_level : State → String → ℤ → State
with_level s id cost = record s {
  prestige_currency = s.prestige_currency ⊖ cost;
  upgrades = insert id (upgrade_level s id ⊕ pos 1) s.upgrades;
}

bought :
    (s : State) (c : Content) (id : String) {u : Upgrade}
    → upgrade_by_id c id ≡ some u
    → (buy_upgrade s c id).0 ≡ ok tt
    → (ltb_ℤ (upgrade_cost s u) (pos 0) ≡ false)
      × (ltb_ℤ s.prestige_currency (upgrade_cost s u) ≡ false)
      × ((buy_upgrade s c id).1 ≡ with_level s id (upgrade_cost s u))
unfolding buy_upgrade
bought s c id found h = ground arith

with_level-level :
    (s : State) (id other : String) (cost : ℤ)
    → upgrade_level (with_level s id cost) other
      ≡ (if str_eq id other then upgrade_level s id ⊕ pos 1 else upgrade_level s other)
unfolding upgrade_level
with_level-level s id other cost =
    lookup_or-insert (pos 0) id other (lookup_or (pos 0) id s.upgrades ⊕ pos 1) s.upgrades

same_level :
    (s : State) (u : Upgrade) (id : String)
    → u.id ≡ id
    → ltb_ℤ (upgrade_cost s u) (pos 0) ≡ false
    → ltb_ℤ (upgrade_level s id) u.max_level ≡ true
unfolding upgrade_cost
same_level s u id own h =
    rw (← own) (level_cost-lt (upgrade_level s u.id) u.max_level u.cost_growth_pct u.cost h)

-- When the purchase of a permanent upgrade succeeds, with an int64 level and maximum, its level is
-- one more and at most the maximum, the other levels are as before, and its price was affordable
-- and is taken from the Starseeds.
pub buy_upgrade-level :
    (s : State) (c : Content) (id : String) {u : Upgrade}
    → upgrade_by_id c id ≡ some u
    → InRange (upgrade_level s id)
    → InRange u.max_level
    → (buy_upgrade s c id).0 ≡ ok tt
    → let t = (buy_upgrade s c id).1 in
      (upgrade_level t id ≡ upgrade_level s id ⊕ pos 1)
      × (upgrade_level t id ≤ℤ u.max_level)
      × (t.prestige_currency ≡ s.prestige_currency ⊖ upgrade_cost s u)
      × (upgrade_cost s u ≤ℤ s.prestige_currency)
      × ((other : String) → other ≢ id → upgrade_level t other ≡ upgrade_level s other)
buy_upgrade-level s c id {u} found hl hm h =
    let own = upgrade_by_id-id c id found in
    let (positive, affordable, after) = bought s c id found h in
    let below_max = same_level s u id own positive in
    let raised : upgrade_level (with_level s id (upgrade_cost s u)) id
        ≡ upgrade_level s id ⊕ pos 1 =
      ground (arith, with_level-level s id id (upgrade_cost s u), eq_iff id id) in
    rw after (
      raised,
      rw raised (next-le (upgrade_level s id) u.max_level hl hm below_max),
      refl,
      ground (arith, affordable),
      λ other differs.
          ground (arith, with_level-level s id other (upgrade_cost s u), eq_iff id other, differs),
    )
