-- ===== src/Tui/Format/Amounts.antt =====
-- The amounts that `money` of internal/tui/format.go writes, read back.
use ssh_idlefarmer.Prelude.{
  ◌∙◌, if◌then◌else◌, ◌==◌, ◌+◌, ◌-◌, ◌/◌, inr, inl, refl, pos, suc, zero, ◌∷◌, [], ℕ, List, ◌++◌,
  ◌*◌, ◌<◌, ◌≡◌, length, Bool-cases, ap, ◌%◌, ◌^◌, ltb, arith,
}
use ssh_idlefarmer.Tui.Format.{add_groups, money, grouped, digits_from, take, decimal, digits}
use ssh_idlefarmer.Tui.Model.{drop}
use ssh_idlefarmer.Tui.Tidy.{length-drop}

-- The number that digits stand for, after digits that stand for `n`. A comma is skipped.
abbrev pub value : List ℕ → ℕ → ℕ
value [] n = n
value (r ∷ rs) n = value rs (if r == 44 then n else n * 10 + (r - 48))

value-append : (xs ys : List ℕ) (n : ℕ) → value (xs ++ ys) n ≡ value ys (value xs n)
value-append [] ys n = refl
value-append (x ∷ xs) ys n = value-append xs ys (if x == 44 then n else n * 10 + (x - 48))

-- Ten to a power.
abbrev limit : ℕ → ℕ
limit zero = 1
limit (suc k) = 10 * limit k

digit-value : (d : ℕ) (out : List ℕ) (n : ℕ) → value ((48 + d) ∷ out) n ≡ value out (n * 10 + d)
digit-value d out n = ap (value out) (ground arith)

digits_from-value :
    (k n : ℕ) (out : List ℕ) → n < limit k → value (digits_from k n out) 0 ≡ value out n
unfolding digits_from
digits_from-value zero n out h = ap (value out) (omega (arith, h))
digits_from-value (suc k) n out h = elim (Bool-cases (ltb n 10)) [
  | inl e ↦ ground (arith, e, digit-value n out 0)
  | inr e ↦ ground (
    arith,
    e,
    h,
    digits_from-value k (n / 10) ((48 + n % 10) ∷ out),
    digit-value (n % 10) out (n / 10),
  )
]

add_groups-value :
    (out s : List ℕ) (n : ℕ) → length s % 3 ≡ 0 → value (add_groups out s) n ≡ value s (value out n)
unfolding add_groups
add_groups-value out [] n h = refl
add_groups-value out (a ∷ []) n h = absurd (omega (arith, h))
add_groups-value out (a ∷ b ∷ []) n h = absurd (omega (arith, h))
add_groups-value out (a ∷ b ∷ d ∷ rest) n h =
    let begun = if ltb 0 (length out) then out ++ 44 ∷ [] else out in
    let same : value begun n ≡ value out n = ground (arith, value-append out (44 ∷ []) n) in
    add_groups-value (begun ++ a ∷ b ∷ d ∷ []) rest n (omega (arith, h))
    ∙ ap (value rest) (value-append begun (a ∷ b ∷ d ∷ []) n ∙ ap (value (a ∷ b ∷ d ∷ [])) same)

take-drop : {A : Type 0} (n : ℕ) (xs : List A) → take n xs ++ drop n xs ≡ xs
take-drop zero xs = refl
take-drop (suc n) [] = refl
take-drop (suc n) (x ∷ xs) = ap {B = List _} (λ r. x ∷ r) (take-drop n xs)

grouped-value : (s : List ℕ) (n : ℕ) → value (grouped s) n ≡ value s n
unfolding grouped
grouped-value s n = elim (Bool-cases (ltb 3 (length s))) [
  | inr e ↦ ground (arith, e)
  | inl e ↦
      let lead = length s % 3 in
      ground (
        arith,
        e,
        add_groups-value (take lead s) (drop lead s) n (omega (arith, length-drop lead s)),
        value-append (take lead s) (drop lead s) n,
        take-drop lead s,
      )
]

decimal-pos : (n : ℕ) → decimal (pos n) ≡ digits_from 20 n []
unfolding decimal digits
decimal-pos n = refl

money-pos : (n : ℕ) → money (pos n) ≡ grouped (decimal (pos n))
unfolding money
money-pos n = ground arith

-- An amount of int64 that is not negative can be read back from its text: without the commas, the
-- digits of money stand for the amount.
pub money-value : (n : ℕ) → n < 2 ^ 63 → value (money (pos n)) 0 ≡ n
money-value n h =
    ap (λ (t : List ℕ). value t 0) (money-pos n ∙ ap grouped (decimal-pos n))
    ∙ grouped-value (digits_from 20 n []) 0
    ∙ digits_from-value 20 n [] (omega (arith, h))
