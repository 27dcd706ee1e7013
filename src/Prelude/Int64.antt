-- ===== src/Prelude/Int64.antt =====
-- Go's int64, and `int`, which has 64 bits on the platforms that the server is built for: an
-- integer in the range of the type. Each operation wraps around as the machine does.
use Prim.Native.Nat.{ℕ, suc, ◌+◌, ◌-◌, ◌*◌, ◌/◌, ◌%◌, ◌^◌, ◌≤◌, ◌<◌}
use mathlib.Core.Path.{◌≡◌}
use mathlib.Core.Bool.{Bool, false}
use native.Mathlib.Omega.{arith}
use ssh_idlefarmer.Prelude.Tests.{ltb, leb, if◌then◌else◌}

-- `negsuc n` is -(n + 1).
pub data ℤ : Type 0 where
  pos : ℕ → ℤ
  negsuc : ℕ → ℤ

abbrev pub pos_part : ℤ → ℕ
pos_part (pos n) = n
pos_part (negsuc n) = 0

abbrev pub neg_part : ℤ → ℕ
neg_part (pos n) = 0
neg_part (negsuc n) = suc n

-- a - b, as an integer.
abbrev pub sub_ℕ : ℕ → ℕ → ℤ
sub_ℕ a b = if leb b a then pos (a - b) else negsuc (b - a - 1)

-- math.MaxInt64
abbrev pub max_int64 : ℕ
max_int64 = 9223372036854775807

-- The 64 bits of an integer, and the int64 that 64 bits stand for.
abbrev pub to_bits : ℤ → ℕ
to_bits (pos n) = n % 2 ^ 64
to_bits (negsuc n) = 2 ^ 64 - 1 - n % 2 ^ 64

abbrev pub of_bits : ℕ → ℤ
of_bits m = if leb m max_int64 then pos m else negsuc (2 ^ 64 - 1 - m)

abbrev pub wrap : ℤ → ℤ
wrap x = of_bits (to_bits x)

infixl 65 ◌⊕◌ ◌⊖◌
infixl 70 ◌⊗◌ ◌⊘◌
infix 50 ◌≤ℤ◌ ◌<ℤ◌
-- `a + b`, `a - b`, `a * b`, and `a / b`, which truncates towards zero. Go panics where `b` is 0, and here
-- the quotient is 0: a divisor of the program is a positive constant, guarded, or a value that the
-- content's validation keeps positive, but for the one of a sale, which `apply_bonus` tests itself.
unfoldable pub ◌⊕◌ : ℤ → ℤ → ℤ
a ⊕ b = wrap (sub_ℕ (pos_part a + pos_part b) (neg_part a + neg_part b))

unfoldable pub ◌⊖◌ : ℤ → ℤ → ℤ
a ⊖ b = wrap (sub_ℕ (pos_part a + neg_part b) (neg_part a + pos_part b))

unfoldable pub ◌⊗◌ : ℤ → ℤ → ℤ
a ⊗ b = wrap (
    sub_ℕ (pos_part a * pos_part b + neg_part a * neg_part b)
      (pos_part a * neg_part b + neg_part a * pos_part b))

unfoldable pub ◌⊘◌ : ℤ → ℤ → ℤ
pos a ⊘ pos b = wrap (pos (a / b))
pos a ⊘ negsuc b = wrap (sub_ℕ 0 (a / suc b))
negsuc a ⊘ pos b = wrap (sub_ℕ 0 (suc a / b))
negsuc a ⊘ negsuc b = wrap (pos (suc a / suc b))

-- `a % b`, with the sign of `a`.
unfoldable pub rem : ℤ → ℤ → ℤ
rem (pos a) b = pos (a % (pos_part b + neg_part b))
rem (negsuc a) b = sub_ℕ 0 (suc a % (pos_part b + neg_part b))

abbrev pub ◌≤ℤ◌ : ℤ → ℤ → Type 0
a ≤ℤ b = pos_part a + neg_part b ≤ pos_part b + neg_part a

abbrev pub ◌<ℤ◌ : ℤ → ℤ → Type 0
a <ℤ b = pos_part a + neg_part b < pos_part b + neg_part a

abbrev pub ltb_ℤ : ℤ → ℤ → Bool
ltb_ℤ a b = ltb (pos_part a + neg_part b) (pos_part b + neg_part a)

abbrev pub leb_ℤ : ℤ → ℤ → Bool
leb_ℤ a b = leb (pos_part a + neg_part b) (pos_part b + neg_part a)

abbrev pub eqb_ℤ : ℤ → ℤ → Bool
eqb_ℤ (pos a) (pos b) = if leb a b then leb b a else false
eqb_ℤ (negsuc a) (negsuc b) = if leb a b then leb b a else false
eqb_ℤ _ _ = false

-- The values that an int64 can hold.
abbrev pub InRange : ℤ → Type 0
InRange x = (pos_part x ≤ max_int64) × (neg_part x ≤ max_int64 + 1)

-- A value from 0 to math.MaxInt64.
abbrev pub NonNeg : ℤ → Type 0
NonNeg x = (neg_part x ≡ 0) × (pos_part x ≤ max_int64)

pub wrap-InRange : (x : ℤ) → InRange (wrap x)
wrap-InRange (pos n) = ground arith
wrap-InRange (negsuc n) = ground arith

pub wrap_pos : (n : ℕ) → n ≤ max_int64 → wrap (pos n) ≡ pos n
wrap_pos n h = ground arith

div_le : (a b : ℕ) {m : ℕ} → a ≤ m → a / b ≤ m
div_le a b h = ground arith

-- With these laws the operations can stay shut: where the exact result fits, it is the result.
pub ⊕_nonneg :
    (a b : ℤ)
    → NonNeg a
    → NonNeg b
    → pos_part a + pos_part b ≤ max_int64
    → (pos_part (a ⊕ b) ≡ pos_part a + pos_part b) × (neg_part (a ⊕ b) ≡ 0)
unfolding ◌⊕◌
⊕_nonneg a b ha hb h = ground arith

pub ⊖_nonneg :
    (a b : ℤ)
    → NonNeg a
    → NonNeg b
    → b ≤ℤ a
    → (pos_part (a ⊖ b) + pos_part b ≡ pos_part a) × (neg_part (a ⊖ b) ≡ 0)
unfolding ◌⊖◌
⊖_nonneg a b ha hb h = ground arith

pub ⊗_pos : (a b : ℕ) → a * b ≤ max_int64 → pos a ⊗ pos b ≡ pos (a * b)
unfolding ◌⊗◌
⊗_pos a b h = ground arith

pub ⊘_pos : (a b : ℕ) → a ≤ max_int64 → 0 < b → pos a ⊘ pos b ≡ pos (a / b)
unfolding ◌⊘◌
⊘_pos a b h p = wrap_pos (a / b) (div_le a b h)

-- Scaling by a percentage that does not pass 100 cannot overflow where the product fits.
pub scale_pos : (a b c : ℕ) → a * b ≤ max_int64 → 0 < c → pos a ⊗ pos b ⊘ pos c ≡ pos (a * b / c)
scale_pos a b c h p = rw (⊗_pos a b h) (⊘_pos (a * b) c h p)

pub ⊕-InRange : (a b : ℤ) → InRange (a ⊕ b)
unfolding ◌⊕◌
⊕-InRange a b = wrap-InRange (sub_ℕ (pos_part a + pos_part b) (neg_part a + neg_part b))

pub ⊖-InRange : (a b : ℤ) → InRange (a ⊖ b)
unfolding ◌⊖◌
⊖-InRange a b = wrap-InRange (sub_ℕ (pos_part a + neg_part b) (neg_part a + pos_part b))

pub ⊗-InRange : (a b : ℤ) → InRange (a ⊗ b)
unfolding ◌⊗◌
⊗-InRange a b = wrap-InRange (
    sub_ℕ (pos_part a * pos_part b + neg_part a * neg_part b)
      (pos_part a * neg_part b + neg_part a * pos_part b))

pub ⊘-InRange : (a b : ℤ) → InRange (a ⊘ b)
unfolding ◌⊘◌
⊘-InRange (pos a) (pos b) = wrap-InRange (pos (a / b))
⊘-InRange (pos a) (negsuc b) = wrap-InRange (sub_ℕ 0 (a / suc b))
⊘-InRange (negsuc a) (pos b) = wrap-InRange (sub_ℕ 0 (suc a / b))
⊘-InRange (negsuc a) (negsuc b) = wrap-InRange (pos (suc a / suc b))
