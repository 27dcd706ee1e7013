-- ===== src/Prelude/Word64.antt =====
-- Go's uint64: a native number below 2 ^ 64, with the wrap-around written out.
use Prim.Native.Nat.{ℕ, ◌+◌, ◌*◌, ◌/◌, ◌%◌, ◌^◌, bit_xor}

abbrev pub word : ℕ → ℕ
word n = n % 2 ^ 64

infixl 65 ◌+ᵤ◌
infixl 70 ◌*ᵤ◌
abbrev pub ◌+ᵤ◌ : ℕ → ℕ → ℕ
a +ᵤ b = word (a + b)

abbrev pub ◌*ᵤ◌ : ℕ → ℕ → ℕ
a *ᵤ b = word (a * b)

-- `x ^ (x >> k)`
abbrev pub xor_shift : ℕ → ℕ → ℕ
xor_shift x k = bit_xor x (x / 2 ^ k)
