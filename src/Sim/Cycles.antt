-- ===== src/Sim/Cycles.antt =====
-- The loop over the harvest cycles of a plot: the rule for invariants of its rounds.
use ssh_idlefarmer.Content.{Content, Crop}
use ssh_idlefarmer.Sim.Advance.{Cycle, Round, again, stop, cycle_round, cycle_loop, proceed}
use ssh_idlefarmer.Prelude.{inr, inl, true, suc, zero, ℤ, leb_ℤ, ◌≡◌, ℕ, Bool-cases}

-- The variables after a round, however it ends.
abbrev pub round_cycle : Round → Cycle
round_cycle (again v) = v
round_cycle (stop v) = v

proceed_keeps :
    (P : Cycle → Type 0) (next : Cycle → Cycle) (r : Round)
    → P (round_cycle r)
    → ((v : Cycle) → P v → P (next v))
    → P (proceed next r)
proceed_keeps P next (again v) h keep = keep v h
proceed_keeps P next (stop v) h keep = h

-- What every round that runs keeps, the loop keeps.
pub cycle_loop_inv :
    (P : Cycle → Type 0) (c : Content) (crop : Crop) (grow to : ℤ)
    → ((v : Cycle)
        → leb_ℤ v.mature_at to ≡ true
        → P v
        → P (round_cycle (cycle_round c crop grow to v)))
    → (fuel : ℕ) (v : Cycle) → P v
    → P (cycle_loop c crop grow to fuel v)
unfolding cycle_loop
cycle_loop_inv P c crop grow to keep zero v h = h
cycle_loop_inv P c crop grow to keep (suc fuel) v h = elim (Bool-cases (leb_ℤ v.mature_at to)) [
  | inl more ↦
      rw (more, cycle_loop)
        (proceed_keeps P (cycle_loop c crop grow to fuel) (cycle_round c crop grow to v)
          (keep v more h) (cycle_loop_inv P c crop grow to keep fuel))
  | inr done ↦ rw (done, cycle_loop) h
]
