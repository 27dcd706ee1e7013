-- ===== src/Sim/Rolls.antt =====
-- The range of the random rolls of internal/sim/state.go.
use ssh_idlefarmer.Sim.State.{State, next_rand, roll_range}
use ssh_idlefarmer.Prelude.{
  negsuc, pos, ◌⊕◌, ◌⊖◌, ℤ, InRange, ◌≤ℤ◌, pos_part, ◌+◌, neg_part, ◌<◌, max_int64, ◌%◌, to_bits, ℕ,
  ◌≡◌, ◌≤◌, ◌-◌, arith, of_bits,
}

-- How far `hi` lies above `lo`.
abbrev pub span : ℤ → ℤ → ℕ
span lo hi = pos_part hi + neg_part lo - (pos_part lo + neg_part hi)

width :
    (lo hi : ℤ)
    → InRange lo
    → InRange hi
    → lo ≤ℤ hi
    → span lo hi < max_int64
    → to_bits (hi ⊖ lo ⊕ pos 1) ≡ span lo hi + 1
unfolding ◌⊕◌ ◌⊖◌
width (pos a) (pos b) hl hh le fits = ground arith
width (pos a) (negsuc b) hl hh le fits = absurd (omega arith)
width (negsuc a) (pos b) hl hh le fits = ground arith
width (negsuc a) (negsuc b) hl hh le fits = ground arith

-- A step up from `lo` that stays within `hi`.
place :
    (lo hi : ℤ) (m : ℕ)
    → InRange lo
    → InRange hi
    → lo ≤ℤ hi
    → span lo hi < max_int64
    → m ≤ span lo hi
    → (lo ≤ℤ lo ⊕ of_bits m) × (lo ⊕ of_bits m ≤ℤ hi)
unfolding ◌⊕◌
place (pos a) (pos b) m hl hh le fits small = ground arith
place (pos a) (negsuc b) m hl hh le fits small = absurd (omega arith)
place (negsuc a) (pos b) m hl hh le fits small = ground arith
place (negsuc a) (negsuc b) m hl hh le fits small = ground arith

-- A roll between two int64 values, the lower first, whose difference is below the greatest int64
-- lies between them, ends included.
roll_range_bounds :
    (s : State) (lo hi : ℤ)
    → InRange lo
    → InRange hi
    → lo ≤ℤ hi
    → span lo hi < max_int64
    → (lo ≤ℤ (roll_range s lo hi).0) × ((roll_range s lo hi).0 ≤ℤ hi)
unfolding roll_range
roll_range_bounds s lo hi hl hh le fits =
    let z = (next_rand s).0 in
    let small : z % (span lo hi + 1) ≤ span lo hi = omega arith in
    ground
      (arith, width lo hi hl hh le fits, place lo hi (z % (span lo hi + 1)) hl hh le fits small)
