-- ===== src/Sim/Outcome.antt =====
-- internal/sim/actions.go: what an intent of the player returns. An action gives its result and the
-- new state; the state comes back after a refusal too, as the code mutates it in place.
use ssh_idlefarmer.Prelude.{set, ℤ, pos_part}
use ssh_idlefarmer.Sim.State.{State, Plot}

pub data Error : Type 0 where
  unknown_plot plot_occupied plot_empty not_mature unknown_crop unknown_item locked : Error
  cant_afford cant_afford_pp maxed already_owned rebirth_too_soon no_gift no_critter : Error
  name_too_long name_empty : Error

pub data Result (A : Type 0) : Type 0 where
  ok : A → Result A
  err : Error → Result A

abbrev pub Outcome : Type 0 → Type 0
Outcome A = Result A × State

-- `s.Plots[i] = p`
abbrev pub put_plot : State → ℤ → Plot → State
put_plot s i p = record s { plots = set s.plots (pos_part i) p }
