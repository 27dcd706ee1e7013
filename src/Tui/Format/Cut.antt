-- ===== src/Tui/Format/Cut.antt =====
-- The texts of internal/tui/format.go that are cut, cleaned or drawn to a width.
use ssh_idlefarmer.Prelude.Division.{mul_mono}
use ssh_idlefarmer.Prelude.{
  scale_pos, negsuc, pos, if◌then◌else◌, Bool-cases, inl, inr, ◌+◌, ◌-◌, ◌∷◌, leb, length-append,
  ◌++◌, refl, true, suc, zero, ◌∷◌, [], ℕ, ℤ, List, all_runes, length, ◌≤◌, pos_part, ◌<◌, not, ◌≡◌,
  ◌^◌, arith, ◌↔◌, ltb, ap, count_if, ◌==◌, ◌*◌, ◌/◌, ◌⊗◌, replicate, Bool, ◌⊘◌, ◌∙◌, ◌⊖◌, ltb_ℤ,
  length-replicate,
}
use ssh_idlefarmer.Tui.Format.{sanitize_text, truncate, progress_bar, take, is_control}

length-take : {A : Type 0} (n : ℕ) (xs : List A) → n ≤ length xs → length (take n xs) ≡ n
length-take zero xs h = refl
length-take (suc n) [] h = absurd (omega (arith, h))
length-take (suc n) (x ∷ xs) h = ground (arith, length-take n xs)

same_length : (xs ys : List ℕ) → xs ≡ ys → length xs ≡ length ys
same_length xs ys e = ap length e

-- What `truncate` returns is at most as long as it may be, and it is the text itself exactly where the
-- text is at most that long.
truncate-fits :
    (s : List ℕ) (max : ℤ)
    → (length (truncate s max) ≤ pos_part max) × ((truncate s max ≡ s) ↔ (length s ≤ pos_part max))
unfolding truncate
truncate-fits s (negsuc n) = ground arith
truncate-fits s (pos n) =
    let cut = take (n - 1) s in
    elim (Bool-cases (leb (length s) n)) [
      | inl e ↦ ground (arith, e)
      | inr e ↦ ground (
        arith,
        e,
        length-take (n - 1) s,
        length-append cut (0x2026 ∷ []),
        same_length (cut ++ 0x2026 ∷ []) s,
      )
    ]

escape_control : (r : ℕ) → (r == 27) ≡ true → is_control r ≡ true
unfolding is_control
escape_control r h = ground (arith, h)

sanitize_text-length : (s : List ℕ) → length (sanitize_text s) ≤ length s
unfolding sanitize_text
sanitize_text-length [] = omega arith
sanitize_text-length (r ∷ rs) = ground (arith, sanitize_text-length rs)

-- `sanitizeText` returns a text without control characters and escapes, and changes no other text.
sanitize_text-clean :
    (s : List ℕ)
    → (all_runes (λ r. not (is_control r)) (sanitize_text s) ≡ true)
      × ((sanitize_text s ≡ s) ↔ (all_runes (λ r. not (is_control r)) s ≡ true))
unfolding sanitize_text
sanitize_text-clean [] = (refl, (λ e. refl, λ e. refl))
sanitize_text-clean (r ∷ rs) =
    let h = sanitize_text-clean rs in
    ground
      (arith, h, escape_control r, sanitize_text-length rs, same_length (sanitize_text rs) (r ∷ rs))

count-append :
    (p : ℕ → Bool) (xs ys : List ℕ) → count_if p (xs ++ ys) ≡ count_if p xs + count_if p ys
count-append p [] ys = omega arith
count-append p (x ∷ xs) ys = ground (arith, count-append p xs ys)

count-filled : (n : ℕ) → count_if (λ r. r == 0x25B0) (replicate n 0x25B0) ≡ n
count-filled zero = refl
count-filled (suc n) = ap suc (count-filled n)

count-empty : (n : ℕ) → count_if (λ r. r == 0x25B0) (replicate n 0x25B1) ≡ 0
count-empty zero = refl
count-empty (suc n) = count-empty n

-- `pct` and `width` after the tests of `progressBar`.
abbrev percent : ℤ → ℕ
percent pct = if ltb 100 (pos_part pct) then 100 else pos_part pct

abbrev bar_width : ℤ → ℕ
bar_width width = if ltb 0 (pos_part width) then pos_part width else 1

clamped_width : (width : ℤ) → (if ltb_ℤ width (pos 1) then pos 1 else width) ≡ pos (bar_width width)
clamped_width (pos n) = ground arith
clamped_width (negsuc n) = ground arith

clamped_percent :
    (pct : ℤ)
    → (let low = if ltb_ℤ pct (pos 0) then pos 0 else pct in
        if ltb_ℤ (pos 100) low then pos 100 else low)
      ≡ pos (percent pct)
clamped_percent (pos n) = ground arith
clamped_percent (negsuc n) = ground arith

minus_pos : (m n : ℕ) → m < 2 ^ 63 → n ≤ m → pos m ⊖ pos n ≡ pos (m - n)
unfolding ◌⊖◌
minus_pos m n h l = ground (arith, h, l)

-- The part of a width that a percentage fills.
abbrev filled_of : ℕ → ℕ → ℕ
filled_of p w = p * w / 100

filled_fits : (p w : ℕ) → p ≤ 100 → p * w ≤ 100 * w
filled_fits p w h = mul_mono p w 100 w h (omega arith)

percent_le : (pct : ℤ) → percent pct ≤ 100
percent_le pct = ground arith

width_lt : (width : ℤ) → pos_part width < 2 ^ 50 → bar_width width < 2 ^ 51
width_lt width h = ground (arith, h)

-- The bar as two runs.
bar :
    (pct width : ℤ)
    → pos_part width < 2 ^ 50
    → progress_bar pct width
      ≡ replicate (filled_of (percent pct) (bar_width width)) 0x25B0
        ++ replicate (bar_width width - filled_of (percent pct) (bar_width width)) 0x25B1
unfolding progress_bar
bar pct width h =
    let p = percent pct in
    let w = bar_width width in
    let small = filled_fits p w (percent_le pct) in
    let wide = width_lt width h in
    let quotient : pos p ⊗ pos w ⊘ pos 100 ≡ pos (filled_of p w) =
      scale_pos p w 100 (omega (arith, small, wide)) (omega arith) in
    let left : pos w ⊖ pos (filled_of p w) ≡ pos (w - filled_of p w) =
      minus_pos w (filled_of p w) (omega (arith, wide)) (omega (arith, small)) in
    rw (clamped_percent pct, clamped_width width, quotient, left) refl

-- A bar of a width below 2 ^ 50 has that width, which counts as 1 where it is less; of it, the percentage,
-- between 0 and 100, is filled, rounded down.
progress_bar-width :
    (pct width : ℤ)
    → pos_part width < 2 ^ 50
    → (length (progress_bar pct width) ≡ bar_width width)
      × (count_if (λ r. r == 0x25B0) (progress_bar pct width) ≡ percent pct * bar_width width / 100)
progress_bar-width pct width h =
    let n = filled_of (percent pct) (bar_width width) in
    let m = bar_width width - n in
    let fits = filled_fits (percent pct) (bar_width width) (percent_le pct) in
    let full : List ℕ = replicate n 0x25B0 in
    let rest : List ℕ = replicate m 0x25B1 in
    (
      ap length (bar pct width h)
          ∙ length-append full rest
          ∙ omega
              (arith, length-replicate {A = ℕ} n 0x25B0, length-replicate {A = ℕ} m 0x25B1, fits),
      ap (count_if (λ r. r == 0x25B0)) (bar pct width h)
          ∙ count-append (λ r. r == 0x25B0) full rest
          ∙ omega (arith, count-filled n, count-empty m),
    )
