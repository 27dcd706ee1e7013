-- ===== src/Sim/Solvent/Balances.antt =====
-- The balances of a save as amounts: from 0 to the greatest int64. What keeps them so, below the level
-- of the player's actions.
use ssh_idlefarmer.Sim.State.{
  State, sat_add, credit, roll100, roll_bp, roll_range, next_rand, sat_mul,
}
use ssh_idlefarmer.Prelude.{
  suc, suc, negsuc, negsuc, pos, false, ◌⊖◌, NonNeg, ℤ, ◌⊕◌, arith, InRange, ltb_ℤ, ◌≡◌, ◌⊘◌,
  ⊗-InRange, max_int64,
}
use ssh_idlefarmer.Sim.Money.{sat_mul_lem}
use native.Mathlib.Nat.{div-le_self}

pub record Solvent (s : State) : Type 0 where
  pub coins_ok : NonNeg s.coins
  pub run_ok : NonNeg s.run_earnings
  pub lifetime_ok : NonNeg s.lifetime_earnings
  pub starseeds_ok : NonNeg s.prestige_currency
  pub harvests_ok : NonNeg s.lifetime_harvests

-- Whatever int64 is added to an amount, `satAdd` gives an amount.
pub sat_add-NonNeg : (a b : ℤ) → NonNeg a → InRange b → NonNeg (sat_add a b)
unfolding sat_add ◌⊕◌ ◌⊖◌
sat_add-NonNeg (pos a) (pos b) ha hb = ground arith
sat_add-NonNeg (pos a) (negsuc b) ha hb = ground arith
sat_add-NonNeg (negsuc a) b ha hb = absurd (omega arith)

-- What is paid is at most what is there.
pub spend-NonNeg : (a b : ℤ) → NonNeg a → NonNeg b → ltb_ℤ a b ≡ false → NonNeg (a ⊖ b)
unfolding ◌⊖◌
spend-NonNeg (pos a) (pos b) ha hb h = ground arith
spend-NonNeg (pos a) (negsuc b) ha hb h = absurd (omega arith)
spend-NonNeg (negsuc a) b ha hb h = absurd (omega arith)

pub credit-Solvent :
    (s : State) (amount : ℤ) → InRange amount → Solvent s → Solvent (credit s amount)
unfolding credit
credit-Solvent s amount r h = ground (
  arith,
  sat_add-NonNeg s.coins amount h.coins_ok r,
  sat_add-NonNeg s.run_earnings amount h.run_ok r,
  sat_add-NonNeg s.lifetime_earnings amount h.lifetime_ok r,
)

pub roll100-Solvent : (s : State) → Solvent s → Solvent (roll100 s).1
unfolding roll100 next_rand
roll100-Solvent s h = ground arith

pub roll_bp-Solvent : (s : State) → Solvent s → Solvent (roll_bp s).1
unfolding roll_bp next_rand
roll_bp-Solvent s h = ground arith

pub roll_range-Solvent : (s : State) (lo hi : ℤ) → Solvent s → Solvent (roll_range s lo hi).1
unfolding roll_range next_rand
roll_range-Solvent s lo hi h = ground arith

-- An amount times any int64: `satMul` gives an amount.
pub sat_mul-NonNeg : (a b : ℤ) → NonNeg a → InRange b → NonNeg (sat_mul a b)
sat_mul-NonNeg (pos a) (pos b) ha hb = rw (sat_mul_lem a b ha.1 hb.0) (omega arith)
sat_mul-NonNeg (pos a) (negsuc b) ha hb =
    unfold sat_mul ◌⊘◌ in ground (arith, div-le_self max_int64 (suc b))
sat_mul-NonNeg (negsuc a) b ha hb = absurd (omega arith)

pub sat_mul-InRange : (a b : ℤ) → InRange (sat_mul a b)
unfolding sat_mul
sat_mul-InRange a b = ground (arith, ⊗-InRange a b)
