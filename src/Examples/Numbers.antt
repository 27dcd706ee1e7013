-- ===== src/Examples/Numbers.antt =====
-- The theorems on numbers, at small ones.

use ssh_idlefarmer.Prelude.{pos, true, pos, ℕ, ◌≡◌, ◌*◌, ◌≤◌, arith, ◌<◌, ◌+◌}
use ssh_idlefarmer.Sim.State.{empty_plot}
use ssh_idlefarmer.Sim.Prices.{isqrt}
use ssh_idlefarmer.Examples.Farm.{new_farm, farm, wheat}
use ssh_idlefarmer.Sim.Roots.{isqrt_floor}
use ssh_idlefarmer.Sim.Advance.{cycle_loop, Cycle, auto_cycle_cap}
use ssh_idlefarmer.Sim.Events.{no_events}
use ssh_idlefarmer.Sim.Enough.{cycle_loop_enough}

isqrt_floor_example :
    (r : ℕ) × (isqrt (λ n. n) (pos 10) ≡ pos r) × (r * r ≤ 10) × (10 < (r + 1) * (r + 1))
isqrt_floor_example = isqrt_floor (λ n. n) 10 (omega arith)

-- A plot that is planted with wheat and harvests and sows by itself, a hundred seconds after the start.
abbrev first_cycle : Cycle
first_cycle = record {
  state = new_farm;
  events = no_events;
  plot = record empty_plot {
    crop = "wheat";
    planted_at = pos 100;
    auto_harvest = true;
    auto_sow = true;
  };
  mature_at = pos 160;
  cycles = 0;
}

cycle_loop_enough_example :
    cycle_loop farm wheat (pos 60) (pos 9000000) 80000 first_cycle
    ≡ cycle_loop farm wheat (pos 60) (pos 9000000) (auto_cycle_cap + 2) first_cycle
cycle_loop_enough_example =
    cycle_loop_enough farm wheat 60 9000000 (omega arith) (omega arith) (auto_cycle_cap + 2) 80000
      first_cycle (omega arith) (omega arith) (omega arith) (omega arith)
