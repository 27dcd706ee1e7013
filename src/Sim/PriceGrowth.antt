-- ===== src/Sim/PriceGrowth.antt =====
-- The growth of the level prices of internal/sim/derive.go.
use ssh_idlefarmer.Prelude.Division.{mul-le_of_le-div, le-share, div_mono}
use ssh_idlefarmer.Sim.Prices.{grown_cost, level_cost}
use ssh_idlefarmer.Prelude.{
  inr, inl, refl, pos, zero, pos, suc, ℕ, ◌≤◌, max_int64, ◌≡◌, ◌/◌, ◌<◌, ◌*◌, arith, ⊘_pos,
  scale_pos, Bool-cases, ◌≤ℤ◌, ltb, ltb→lt, ◌∙◌,
}

-- math.MaxInt64 / 100
abbrev pub price_cap : ℕ
price_cap = 92233720368547758

-- One step of the loop, over numbers.
grown_step :
    (n g a : ℕ)
    → 100 ≤ g
    → g ≤ max_int64
    → a ≤ max_int64 / g
    → grown_cost (suc n) (pos g) (pos a) ≡ grown_cost n (pos g) (pos (a * g / 100))
unfolding grown_cost
grown_step n g a hg hm ha =
    let fits = mul-le_of_le-div a g max_int64 (omega arith) ha in
    ground (arith, ⊘_pos max_int64 g, scale_pos a g 100 fits)

grown_stop :
    (n g a : ℕ)
    → 100 ≤ g
    → g ≤ max_int64
    → max_int64 / g < a
    → grown_cost (suc n) (pos g) (pos a) ≡ pos price_cap
unfolding grown_cost
grown_stop n g a hg hm ha = ground (arith, ⊘_pos max_int64 g, ⊘_pos max_int64 100)

grown_bounds :
    (n g a : ℕ)
    → 100 ≤ g
    → g ≤ max_int64
    → a ≤ price_cap
    → (r : ℕ) × (grown_cost n (pos g) (pos a) ≡ pos r) × (a ≤ r) × (r ≤ price_cap)
grown_bounds zero g a hg hm ha = (a, unfold grown_cost in refl, omega arith, ha)
grown_bounds (suc n) g a hg hm ha = elim (Bool-cases (ltb (max_int64 / g) a)) [
  | inl over ↦ (price_cap, grown_stop n g a hg hm (ltb→lt (max_int64 / g) a over), ha, omega arith)
  | inr fits ↦
      let le : a ≤ max_int64 / g = ground (arith, fits) in
      let total = mul-le_of_le-div a g max_int64 (omega arith) le in
      let (r, e, lower, upper) =
        grown_bounds n g (a * g / 100) hg hm (div_mono (a * g) max_int64 100 (omega arith) total) in
      (
        r,
        grown_step n g a hg hm le ∙ e,
        omega (arith, le-share a g 100 (omega arith) hg, lower),
        upper,
      )
]

-- With a growth of at least 100 percent and a first price of at most a hundredth of the greatest
-- int64, each level costs at least as much as the one before, and no product overflows.
grown_mono :
    (n g a : ℕ)
    → 100 ≤ g
    → g ≤ max_int64
    → a ≤ price_cap
    → grown_cost n (pos g) (pos a) ≤ℤ grown_cost (suc n) (pos g) (pos a)
grown_mono zero g a hg hm ha =
    let (r, e, lower, upper) = grown_bounds 1 g a hg hm ha in
    rw e (unfold grown_cost in omega (arith, lower))
grown_mono (suc n) g a hg hm ha = elim (Bool-cases (ltb (max_int64 / g) a)) [
  | inl over ↦
      let lt = ltb→lt (max_int64 / g) a over in
      rw (grown_stop n g a hg hm lt, grown_stop (suc n) g a hg hm lt) (omega arith)
  | inr fits ↦
      let le : a ≤ max_int64 / g = ground (arith, fits) in
      let total = mul-le_of_le-div a g max_int64 (omega arith) le in
      rw (grown_step n g a hg hm le, grown_step (suc n) g a hg hm le)
        (grown_mono n g (a * g / 100) hg hm (div_mono (a * g) max_int64 100 (omega arith) total))
]

-- For a level whose next one is below the maximum, with a growth of at least 100 percent (an
-- int64) and a first price of at most a hundredth of the greatest int64, the price of the level is
-- at least the first price, the next level costs at least as much, and that price is at most a
-- hundredth of the greatest int64.
level_cost_mono :
    (level max_level g a : ℕ)
    → 100 ≤ g
    → g ≤ max_int64
    → a ≤ price_cap
    → suc level < max_level
    → let price = λ (n : ℕ). level_cost (pos n) (pos max_level) (pos g) (pos a) in
      (pos a ≤ℤ price level)
      × (price level ≤ℤ price (suc level))
      × (price (suc level) ≤ℤ pos price_cap)
unfolding level_cost
level_cost_mono level max_level g a hg hm ha h =
    let (r, e, lower, upper) = grown_bounds level g a hg hm ha in
    let (r', e', lower', upper') = grown_bounds (suc level) g a hg hm ha in
    ground (arith, grown_mono level g a hg hm ha, e, e', lower, upper')
