-- ===== src/Sim/Moon.antt =====
-- The moon of internal/sim/derive.go: the phase counts 28 days, and the bonus asks for the middle of
-- the configured cycle.
use ssh_idlefarmer.Content.{Content}
use ssh_idlefarmer.Sim.State.{State}
use ssh_idlefarmer.Sim.Bonus.{is_full_moon}
use ssh_idlefarmer.Prelude.{
  negsuc, pos, false, rem, ◌⊘◌, String, ℤ, InRange, pos_part, ◌<◌, ◌≤ℤ◌, ◌≡◌, arith, ◌⊖◌,
}

phase_bound : (x : ℤ) → pos_part (rem x (pos 28)) < 28
unfolding rem
phase_bound (pos a) = omega arith
phase_bound (negsuc a) = ground arith

-- With a configured moon cycle (an int64) of 56 days or more, the moon is never full, for any crop
-- in any state.
pub long_cycle_never_full :
    (s : State) (c : Content) (crop_id : String)
    → InRange c.moon.cycle_days
    → pos 56 ≤ℤ c.moon.cycle_days
    → is_full_moon s c crop_id ≡ false
unfolding is_full_moon ◌⊘◌
long_cycle_never_full s c crop_id r h =
    ground (arith, phase_bound (s.updated_at ⊘ pos 86400 ⊖ s.moon_epoch))
