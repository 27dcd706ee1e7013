-- ===== src/Sim/Roots.antt =====
-- The integer square root of internal/sim/derive.go.
use ssh_idlefarmer.Prelude.Division.{mul-le_of_le-div, lt-mul_of_div-lt}
use ssh_idlefarmer.Sim.Prices.{sqrt_down, sqrt_up, isqrt, prestige_gain}
use ssh_idlefarmer.Prelude.{
  negsuc, inr, refl, inr, inl, pos, suc, zero, ℕ, ◌≤◌, ◌*◌, max_int64, arith, ◌<◌, ◌≡◌, ◌+◌,
  Bool-cases, leb, ◌/◌, leb→le, ℤ, InRange, ◌⊘◌, ⊘-InRange,
}
use ssh_idlefarmer.Sim.State.{State}
use ssh_idlefarmer.Content.{Content}

sqrt_down_le : (n r : ℕ) → sqrt_down n r * sqrt_down n r ≤ n
unfolding sqrt_down
sqrt_down_le n zero = omega arith
sqrt_down_le n (suc r) = ground (arith, sqrt_down_le n r, mul-le_of_le-div (suc r) (suc r) n)

root_le : (r n : ℕ) {m : ℕ} → r * r ≤ n → n ≤ m → r ≤ m
root_le zero n h k = omega arith
root_le (suc r) n h k = omega (arith, h, k)

lt-square : (a n : ℕ) → n < (a + n + 1) * (a + n + 1)
lt-square a n = omega arith

sqrt_up_bounds :
    (fuel n r : ℕ)
    → r * r ≤ n
    → n < (r + fuel + 1) * (r + fuel + 1)
    → (sqrt_up fuel n r * sqrt_up fuel n r ≤ n)
      × (n < (sqrt_up fuel n r + 1) * (sqrt_up fuel n r + 1))
unfolding sqrt_up
sqrt_up_bounds zero n r h k = (h, omega (arith, k))
sqrt_up_bounds (suc fuel) n r h k = elim (Bool-cases (leb (suc r) (n / suc r))) [
  | inl more ↦ rw more (
      sqrt_up_bounds fuel n (suc r)
        (mul-le_of_le-div (suc r) (suc r) n (omega arith) (leb→le (suc r) (n / suc r) more))
        (omega (arith, k)))
  | inr done ↦
      rw done
        (h, omega (arith, lt-mul_of_div-lt (suc r) (suc r) n (omega arith) (ground (arith, done))))
]

-- Whatever estimate the floating-point root gives, isqrt of an int64 from 0 on is the greatest
-- number whose square is at most the argument.
pub isqrt_floor :
    (float_sqrt : ℕ → ℕ) (n : ℕ)
    → n ≤ max_int64
    → (r : ℕ) × (isqrt float_sqrt (pos n) ≡ pos r) × (r * r ≤ n) × (n < (r + 1) * (r + 1))
unfolding isqrt
isqrt_floor float_sqrt zero h = (0, refl, omega arith, omega arith)
isqrt_floor float_sqrt (suc n) h =
    let start = sqrt_down (suc n) (float_sqrt (suc n)) in
    let bounds =
      sqrt_up_bounds (suc n) (suc n) start (sqrt_down_le (suc n) (float_sqrt (suc n)))
        (lt-square start (suc n)) in
    (sqrt_up (suc n) (suc n) start, ground arith, bounds.0, bounds.1)

isqrt-InRange : (float_sqrt : ℕ → ℕ) (x : ℤ) → InRange x → InRange (isqrt float_sqrt x)
isqrt-InRange float_sqrt (pos n) h =
    let (r, e, le, gt) = isqrt_floor float_sqrt n h.0 in rw e (root_le r n le h.0, omega arith)
isqrt-InRange float_sqrt (negsuc n) h = unfold isqrt in ground arith

-- The Starseeds of a rebirth are an int64, from any state.
pub prestige_gain-InRange :
    (float_sqrt : ℕ → ℕ) (s : State) (c : Content) → InRange (prestige_gain float_sqrt s c)
unfolding prestige_gain
prestige_gain-InRange float_sqrt s c =
    isqrt-InRange float_sqrt (s.run_earnings ⊘ c.prestige.divisor)
      (⊘-InRange s.run_earnings c.prestige.divisor)
