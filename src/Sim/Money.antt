-- ===== src/Sim/Money.antt =====
-- Saturating sums of internal/sim/state.go, and what `credit` does to the balances.
use Prim.Native.Nat.{min}
use ssh_idlefarmer.Prelude.Division.{mul-le_of_le-div, lt-mul_of_div-lt}
use ssh_idlefarmer.Sim.State.{sat_add, sat_mul}
use ssh_idlefarmer.Prelude.{
  pos, suc, zero, ℕ, ◌⊕◌, ◌⊖◌, ◌≤◌, max_int64, ◌≡◌, ◌*◌, ◌+◌, arith, ⊘_pos, ⊗_pos,
}

-- For int64 values that are not negative satAdd is the sum, cut off at the greatest int64.
sat_add_lem :
    (a b : ℕ)
    → a ≤ max_int64
    → b ≤ max_int64
    → sat_add (pos a) (pos b) ≡ pos (min (a + b) max_int64)
unfolding sat_add ◌⊕◌ ◌⊖◌
sat_add_lem a b ha hb = ground arith

-- For int64 values that are not negative satMul is the product, cut off at the greatest int64.
pub sat_mul_lem :
    (a b : ℕ)
    → a ≤ max_int64
    → b ≤ max_int64
    → sat_mul (pos a) (pos b) ≡ pos (min (a * b) max_int64)
unfolding sat_mul
sat_mul_lem zero b ha hb = ground arith
sat_mul_lem (suc a) zero ha hb = ground arith
sat_mul_lem (suc a) (suc b) ha hb = ground (
  arith,
  ⊘_pos max_int64 (suc b),
  ⊗_pos (suc a) (suc b),
  mul-le_of_le-div (suc a) (suc b) max_int64,
  lt-mul_of_div-lt (suc a) (suc b) max_int64,
)
