-- ===== src/Sim/Enough.antt =====
-- The loop over the harvest cycles of a plot, in internal/sim/advance.go, ends by itself: the fuel that
-- `advance_crop` gives it is enough.
use ssh_idlefarmer.Prelude.{
  ◌*◌, leb, inr, inl, refl, negsuc, pos, false, true, suc, zero, ℕ, ◌≡◌, ℤ, ◌≤◌, leb_ℤ, ◌⊕◌, ◌+◌,
  max_int64, arith, NonNeg, ◌⊖◌, ◌⊘◌, Bool-cases, ◌∙◌, ◌⊗◌, ◌-◌, sym, ◌/◌, ◌<◌, ⊘_pos, ⊗_pos,
}
use ssh_idlefarmer.Sim.Advance.{
  Cycle, single_round, Round, again, cycle_loop, proceed, stop, capped_round, batch, auto_cycle_cap,
  cycle_round,
}
use ssh_idlefarmer.Content.{Content, Crop}
use ssh_idlefarmer.Prelude.Division.{mul-le_of_le-div, lt-mul_of_div-lt}

proceed_same :
    (f g : Cycle → Cycle) (r : Round)
    → ((w : Cycle) → r ≡ again w → f w ≡ g w)
    → proceed f r ≡ proceed g r
proceed_same f g (again w) h = h w refl
proceed_same f g (stop w) h = refl

loop_done :
    (c : Content) (crop : Crop) (grow to : ℤ) (fuel : ℕ) (v : Cycle)
    → leb_ℤ v.mature_at to ≡ false
    → cycle_loop c crop grow to fuel v ≡ v
unfolding cycle_loop
loop_done c crop grow to zero v h = refl
loop_done c crop grow to (suc fuel) v h = rw (cycle_loop, h) refl

-- A harvest that is followed by another counts one cycle and lasts one growing time.
single_round-again :
    (c : Content) (crop : Crop) (grow : ℤ) (v w : Cycle)
    → single_round c crop grow v ≡ again w
    → (w.cycles ≡ suc v.cycles) × (w.mature_at ≡ v.mature_at ⊕ grow)
unfolding single_round
single_round-again c crop grow v w h = ground arith

module _ (c : Content) (crop : Crop) (g t : ℕ) (hg : 1 ≤ g) (ht : t + g ≤ max_int64) where
  next_time : (x : ℤ) → NonNeg x → leb_ℤ x (pos t) ≡ true → NonNeg (x ⊕ pos g)
  unfolding ◌⊕◌
  next_time (pos m) hx h = ground arith
  next_time (negsuc m) hx h = absurd (omega arith)

  -- The last of the times m, m + g, ... that is at most t, and the one after it.
  after_batch :
      (x : ℤ)
      → NonNeg x
      → leb_ℤ x (pos t) ≡ true
      → leb_ℤ (x ⊕ (pos t ⊖ x) ⊘ pos g ⊗ pos g ⊕ pos g) (pos t) ≡ false
  after_batch (negsuc m) hx h = absurd (omega arith)
  after_batch (pos m) hx h =
      let q : ℕ = (t - m) / g in
      let lower : q * g ≤ t - m = mul-le_of_le-div q g (t - m) hg (omega arith) in
      let upper : t - m < (q + 1) * g = lt-mul_of_div-lt (q + 1) g (t - m) hg (omega arith) in
      let e₁ : pos t ⊖ pos m ≡ pos (t - m) = unfold ◌⊖◌ in ground arith in
      let e₂ : pos m ⊕ pos (q * g) ≡ pos (m + q * g) = unfold ◌⊕◌ in ground (arith, lower, h) in
      let e₃ : pos (m + q * g) ⊕ pos g ≡ pos (m + q * g + g) =
        unfold ◌⊕◌ in ground (arith, lower, h) in
      rw (e₁, ⊘_pos (t - m) g (omega arith) hg, ⊗_pos q g (omega (arith, lower)), e₂, e₃)
        (ground (arith, upper, h))

  capped_round-again :
      (v w : Cycle)
      → NonNeg v.mature_at
      → leb_ℤ v.mature_at (pos t) ≡ true
      → capped_round c crop (pos g) (pos t) v ≡ again w
      → leb_ℤ w.mature_at (pos t) ≡ false
  unfolding capped_round batch
  capped_round-again v w hv more h = ground (arith, after_batch v.mature_at hv more)

  -- Where the growing time is at least 1 and the end time plus it does not overflow, the loop over
  -- the harvest cycles of a plot ends by itself: from a time of maturity that is not negative and
  -- at most autoCycleCap cycles counted, fuel for the cycles that are left and two more rounds
  -- gives the same result as any greater fuel.
  pub cycle_loop_enough :
      (fuel n : ℕ) (v : Cycle)
      → NonNeg v.mature_at
      → v.cycles ≤ auto_cycle_cap
      → auto_cycle_cap + 2 ≤ fuel + v.cycles
      → fuel ≤ n
      → cycle_loop c crop (pos g) (pos t) n v ≡ cycle_loop c crop (pos g) (pos t) fuel v
  unfolding cycle_loop cycle_round
  cycle_loop_enough zero n v hv hc hf hn = absurd (omega arith)
  cycle_loop_enough (suc fuel) zero v hv hc hf hn = absurd (omega arith)
  cycle_loop_enough (suc fuel) (suc n) v hv hc hf hn =
      elim (Bool-cases (leb_ℤ v.mature_at (pos t))) [
        | inr done ↦
            loop_done c crop (pos g) (pos t) (suc n) v done
            ∙ sym (loop_done c crop (pos g) (pos t) (suc fuel) v done)
        | inl more ↦
            rw (cycle_loop, more)
              (proceed_same (cycle_loop c crop (pos g) (pos t) n)
                (cycle_loop c crop (pos g) (pos t) fuel) (cycle_round c crop (pos g) (pos t) v)
                (λ w e. elim (Bool-cases (leb auto_cycle_cap v.cycles)) [
                  | inl capped ↦
                      let after = capped_round-again v w hv more (rw (cycle_round, capped) at e) in
                      loop_done c crop (pos g) (pos t) n w after
                      ∙ sym (loop_done c crop (pos g) (pos t) fuel w after)
                  | inr fewer ↦
                      let (count, time) =
                        single_round-again c crop (pos g) v w (rw (cycle_round, fewer) at e) in
                      cycle_loop_enough fuel n w (rw time (next_time v.mature_at hv more))
                        (ground (arith, count, fewer)) (ground (arith, count, fewer)) (omega arith)
                ]))
      ]
