-- ===== src/Sim/Reborn.antt =====
-- Rebirth in internal/sim/actions.go: the run starts over.
use ssh_idlefarmer.Prelude.{pos, false, true, none, ℕ, ℤ, ◌≡◌, arith, ltb_ℤ}
use ssh_idlefarmer.Sim.Outcome.{err, err, rebirth_too_soon}
use ssh_idlefarmer.Sim.Gifts.{rebirth}
use ssh_idlefarmer.Sim.State.{State}
use ssh_idlefarmer.Content.{Content}
use ssh_idlefarmer.Content.Validate.{validate}
use ssh_idlefarmer.Sim.Harvests.{is_ok}
use ssh_idlefarmer.Content.Validated.{validate-min_earnings}
use ssh_idlefarmer.Sim.Prices.{can_rebirth}

module _ (float_sqrt : ℕ → ℕ) (s : State) (c : Content) (now : ℤ) where
  run_over :
      is_ok (rebirth float_sqrt s c now).0 ≡ true
      → (rebirth float_sqrt s c now).1.run_earnings ≡ pos 0
  unfolding rebirth
  run_over h = ground (arith, h)

too_soon :
    (float_sqrt : ℕ → ℕ) (t : State) (c : Content) (later : ℤ)
    → t.run_earnings ≡ pos 0
    → ltb_ℤ c.prestige.min_earnings (pos 1) ≡ false
    → rebirth float_sqrt t c later ≡ (err rebirth_too_soon, t)
unfolding rebirth can_rebirth
too_soon float_sqrt t c later zero_run h = ground (arith, zero_run, h)

-- Over content that validate accepts, right after a rebirth that succeeded a second one is refused
-- at any time and changes nothing.
pub rebirth_twice :
    (float_sqrt : ℕ → ℕ) (s : State) (c : Content) (now later : ℤ)
    → validate c ≡ none
    → is_ok (rebirth float_sqrt s c now).0 ≡ true
    → let t = (rebirth float_sqrt s c now).1 in
      rebirth float_sqrt t c later ≡ (err rebirth_too_soon, t)
rebirth_twice float_sqrt s c now later valid h =
    too_soon float_sqrt (rebirth float_sqrt s c now).1 c later (run_over float_sqrt s c now h)
      (validate-min_earnings c valid)
