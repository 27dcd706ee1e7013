-- ===== src/Prelude/Division.antt =====
-- Quotients of the native numbers against products, with explicit values.
use Prim.Native.Nat.{ℕ, ◌*◌, ◌/◌, ◌≤◌, ◌<◌}
use native.Mathlib.Omega.{arith}
use native.Mathlib.Nat.{le-div_iff_mul-le, div-lt_iff_lt-mul, div-mul-le_self, mul-le-mul, le_trans}

pub mul-le_of_le-div : (a b m : ℕ) → 0 < b → a ≤ m / b → a * b ≤ m
mul-le_of_le-div a b m p h = (le-div_iff_mul-le p).0 h

pub lt-mul_of_div-lt : (a b m : ℕ) → 0 < b → m / b < a → m < a * b
lt-mul_of_div-lt a b m p h = (div-lt_iff_lt-mul p).0 h

pub le-div_of_mul-le : (a b m : ℕ) → 0 < b → a * b ≤ m → a ≤ m / b
le-div_of_mul-le a b m p h = (le-div_iff_mul-le p).1 h

pub mul_mono : (a b c d : ℕ) → a ≤ c → b ≤ d → a * b ≤ c * d
mul_mono a b c d h k = mul-le-mul h k

-- A share of at least k parts in k of a number is at least the number.
pub le-share : (a b k : ℕ) → 0 < k → k ≤ b → a ≤ a * b / k
le-share a b k p h = le-div_of_mul-le a k (a * b) p (mul_mono a k a b (omega arith) h)

pub div_mono : (a b k : ℕ) → 0 < k → a ≤ b → a / k ≤ b / k
div_mono a b k p h = le-div_of_mul-le (a / k) k b p (le_trans (div-mul-le_self a k) h)

pub div-lt_of_lt-mul : (a b m : ℕ) → 0 < b → m < a * b → m / b < a
div-lt_of_lt-mul a b m p h = (div-lt_iff_lt-mul p).1 h
