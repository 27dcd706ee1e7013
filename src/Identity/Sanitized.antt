-- ===== src/Identity/Sanitized.antt =====
-- What a sanitised slot of internal/identity/identity.go is, and that sanitising it again changes
-- nothing.
use mathlib.Core.List.{reverse-cons, reverse-reverse}
use ssh_idlefarmer.Prelude.{
  false, false, inr, inl, refl, true, suc, ◌∷◌, [], List, ℕ, ◌<◌, All, arith, map, ◌+◌, ◌≡◌, length,
  Bool-cases, ◌≤◌, leb, ◌++◌,
}
use ssh_idlefarmer.Identity.Slots.{
  sanitize_slot, keep_runes, resolve_slot, max_slot_len, is_slot_rune,
}
use ssh_idlefarmer.Prelude.Runes.{trim_space, trim_left, is_space}
use mathlib.Core.List.{reverse}

abbrev pub IsSlot : List ℕ → Type 0
IsSlot rs = All (λ r. is_slot_rune r ≡ true) rs × (length rs ≤ max_slot_len)

keep_runes-All : (n : ℕ) (rs : List ℕ) → All (λ r. is_slot_rune r ≡ true) (keep_runes n rs)
unfolding keep_runes
keep_runes-All n [] = tt
keep_runes-All n (r ∷ rs) = elim (Bool-cases (is_slot_rune r)) [
  | inr skipped ↦ rw (keep_runes, skipped) (keep_runes-All n rs)
  | inl kept ↦ elim (Bool-cases (leb max_slot_len (suc n))) [
    | inl full ↦ rw (keep_runes, kept, full) (kept, tt)
    | inr more ↦ rw (keep_runes, kept, more) (kept, keep_runes-All (suc n) rs)
  ]
]

length-keep_runes :
    (n : ℕ) (rs : List ℕ) → n < max_slot_len → n + length (keep_runes n rs) ≤ max_slot_len
unfolding keep_runes
length-keep_runes n [] h = omega (arith, h)
length-keep_runes n (r ∷ rs) h =
    ground (arith, h, length-keep_runes n rs, length-keep_runes (suc n) rs)

keep_runes_slot :
    (n : ℕ) (rs : List ℕ)
    → All (λ r. is_slot_rune r ≡ true) rs
    → n + length rs ≤ max_slot_len
    → keep_runes n rs ≡ rs
unfolding keep_runes
keep_runes_slot n [] h k = refl
keep_runes_slot n (r ∷ []) h k = ground (arith, h.0)
keep_runes_slot n (r ∷ q ∷ rs) h k =
    ground (arith, h.0, keep_runes_slot (suc n) (q ∷ rs) h.1 (omega (arith, k)), k)

pub sanitize_slot-IsSlot : (to_lower : ℕ → ℕ) (raw : List ℕ) → IsSlot (sanitize_slot to_lower raw)
unfolding sanitize_slot
sanitize_slot-IsSlot to_lower raw =
    let rs = map to_lower (trim_space raw) in
    (keep_runes-All 0 rs, omega (arith, length-keep_runes 0 rs (omega arith)))

-- The slot of any user name and default, whatever lower-casing does, consists of the letters a to
-- z, digits, dashes and underscores, and has at most 32 of them.
pub resolve_slot-IsSlot :
    (to_lower : ℕ → ℕ) (username default_slot : List ℕ)
    → IsSlot (resolve_slot to_lower username default_slot)
unfolding resolve_slot
resolve_slot-IsSlot to_lower username default_slot =
    ground
      (arith, sanitize_slot-IsSlot to_lower username, sanitize_slot-IsSlot to_lower default_slot)

not_space : (r : ℕ) → is_slot_rune r ≡ true → is_space r ≡ false
unfolding is_slot_rune is_space
not_space r h = ground arith

All-append : (P : ℕ → Type 0) (xs ys : List ℕ) → All P xs → All P ys → All P (xs ++ ys)
All-append P [] ys h k = k
All-append P (x ∷ xs) ys h k = (h.0, All-append P xs ys h.1 k)

All-reverse : (P : ℕ → Type 0) (xs : List ℕ) → All P xs → All P (reverse xs)
All-reverse P [] h = tt
All-reverse P (x ∷ xs) h =
    rw (reverse-cons x xs) (All-append P (reverse xs) (x ∷ []) (All-reverse P xs h.1) (h.0, tt))

trim_left_slot : (rs : List ℕ) → All (λ r. is_slot_rune r ≡ true) rs → trim_left rs ≡ rs
unfolding trim_left
trim_left_slot [] h = refl
trim_left_slot (r ∷ rs) h = ground (arith, not_space r h.0)

trim_space_slot : (rs : List ℕ) → All (λ r. is_slot_rune r ≡ true) rs → trim_space rs ≡ rs
unfolding trim_space
trim_space_slot rs h =
    rw
      (
        trim_left_slot rs h,
        trim_left_slot (reverse rs) (All-reverse (λ r. is_slot_rune r ≡ true) rs h),
      )
      (reverse-reverse rs)

lower_slot :
    (to_lower : ℕ → ℕ)
    → ((r : ℕ) → is_slot_rune r ≡ true → to_lower r ≡ r)
    → (rs : List ℕ) → All (λ r. is_slot_rune r ≡ true) rs
    → map to_lower rs ≡ rs
lower_slot to_lower fixed [] h = refl
lower_slot to_lower fixed (r ∷ rs) h = rw (fixed r h.0, lower_slot to_lower fixed rs h.1) refl

slot_fixed :
    (to_lower : ℕ → ℕ)
    → ((r : ℕ) → is_slot_rune r ≡ true → to_lower r ≡ r)
    → (rs : List ℕ) → IsSlot rs
    → sanitize_slot to_lower rs ≡ rs
unfolding sanitize_slot
slot_fixed to_lower fixed rs (fine, short) =
    rw (trim_space_slot rs fine, lower_slot to_lower fixed rs fine)
      (keep_runes_slot 0 rs fine (omega (arith, short)))

-- Where lower-casing leaves the letters a to z, the digits, the dash and the underscore as they
-- are, sanitising a slot that is sanitised changes nothing.
pub sanitize_slot_twice :
    (to_lower : ℕ → ℕ)
    → ((r : ℕ) → is_slot_rune r ≡ true → to_lower r ≡ r)
    → (raw : List ℕ)
    → sanitize_slot to_lower (sanitize_slot to_lower raw) ≡ sanitize_slot to_lower raw
sanitize_slot_twice to_lower fixed raw =
    slot_fixed to_lower fixed (sanitize_slot to_lower raw) (sanitize_slot-IsSlot to_lower raw)
