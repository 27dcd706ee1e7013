-- ===== src/Sim/Clock.antt =====
-- What `Advance` does to the clock of a save, and the elapsed time that it reports.
use ssh_idlefarmer.Content.{Content, Crop, Achievement, crop_by_id, Event}
use ssh_idlefarmer.Sim.State.{State, Plot, roll_bp, roll_range}
use ssh_idlefarmer.Sim.Events.{no_events}
use ssh_idlefarmer.Sim.Arrivals.{
  World, start_event, earn_from, roll_gift_arrival, check_achievements, maybe_critter_visit,
  roll_online_event, welcome_critter, earn, event_interval,
}
use ssh_idlefarmer.Sim.Advance.{
  Cycle, batch, capped_round, single_round, cycle_round, advance_crop, advance_plot, advance_plots,
  simulate, advance, expire_event, advance_known, auto_harvest_once, record_harvest,
  online_tick_threshold, auto_cycle_cap,
}
use ssh_idlefarmer.Prelude.{
  inr, inr, inl, refl, pos, ◌∷◌, [], some, none, ◌≡◌, ℤ, Bool, Option-cases, if◌then◌else◌, leb_ℤ,
  Option, arith, List, ◌≤ℤ◌, ◌⊖◌, ◌⊕◌, ◌∙◌, length, ◌+◌, get_elem?, pos_part,
}
use ssh_idlefarmer.Sim.Bonus.{grow_seconds}
use ssh_idlefarmer.Sim.Cycles.{round_cycle, cycle_loop_inv}

-- The steps of a simulation keep the elapsed time that it began with.
abbrev KeepsElapsed : World → World → Type 0
KeepsElapsed w w' = (w'.1).elapsed ≡ (w.1).elapsed

gift-KeepsElapsed :
    (c : Content) (elapsed : ℤ) (online : Bool) (to : ℤ) (w : World)
    → KeepsElapsed w (roll_gift_arrival c elapsed online to w)
unfolding roll_gift_arrival
gift-KeepsElapsed c elapsed online to (s, ev) = ground arith

start_event-KeepsElapsed :
    (c : Content) (to : ℤ) (def : Option Event) (w : World)
    → KeepsElapsed w (start_event c to def w)
unfolding start_event
start_event-KeepsElapsed c to none w = refl
start_event-KeepsElapsed c to (some def) (s, ev) = ground arith

event-KeepsElapsed :
    (c : Content) (elapsed to : ℤ) (w : World) → KeepsElapsed w (roll_online_event c elapsed to w)
unfolding roll_online_event
event-KeepsElapsed c elapsed to (s, ev) =
    let s₂ = (roll_bp (event_interval s c).1).1 in
    let drawn = roll_range s₂ (pos 0) (pos (length c.events) ⊖ pos 1) in
    ground
      (arith, start_event-KeepsElapsed c to (get_elem? c.events (pos_part drawn.0)) (drawn.1, ev))

critter-KeepsElapsed :
    (c : Content) (plot : Plot) (w : World) → KeepsElapsed w (maybe_critter_visit c plot w).1
unfolding maybe_critter_visit welcome_critter
critter-KeepsElapsed c plot (s, ev) = ground arith

round-KeepsElapsed :
    (c : Content) (crop : Crop) (grow to : ℤ) (v : Cycle)
    → (round_cycle (cycle_round c crop grow to v)).events.elapsed ≡ v.events.elapsed
unfolding cycle_round capped_round batch single_round auto_harvest_once record_harvest
round-KeepsElapsed c crop grow to v = ground arith

crop-KeepsElapsed :
    (c : Content) (from to : ℤ) (plot : Plot) (crop : Crop) (w : World)
    → KeepsElapsed w (advance_crop c from to plot crop w).1
unfolding advance_crop
crop-KeepsElapsed c from to plot crop (s, ev) =
    let grow = grow_seconds s c crop in
    let v : Cycle = record {
      state = s;
      events = ev;
      plot = plot;
      mature_at = plot.planted_at ⊕ grow;
      cycles = 0;
    } in
    let settled =
      cycle_loop_inv (λ v. v.events.elapsed ≡ ev.elapsed) c crop grow to
        (λ v more h. round-KeepsElapsed c crop grow to v ∙ h) (auto_cycle_cap + 2) v refl in
    ground (arith, settled)

plot-KeepsElapsed :
    (c : Content) (online : Bool) (from to : ℤ) (plot : Plot) (w : World)
    → KeepsElapsed w (advance_plot c online from to plot w).1
unfolding advance_plot advance_known
plot-KeepsElapsed c online from to plot w = elim (Option-cases (crop_by_id c plot.crop)) [
  | inl e ↦ ground (arith, critter-KeepsElapsed c plot w)
  | inr (crop, e) ↦
      ground (arith, critter-KeepsElapsed c plot w, crop-KeepsElapsed c from to plot crop w)
]

plots-KeepsElapsed :
    (c : Content) (online : Bool) (from to : ℤ) (ps : List Plot) (w : World)
    → KeepsElapsed w (advance_plots c online from to ps w).1
unfolding advance_plots
plots-KeepsElapsed c online from to [] w = refl
plots-KeepsElapsed c online from to (p ∷ ps) w =
    plots-KeepsElapsed c online from to ps (advance_plot c online from to p w).1
    ∙ plot-KeepsElapsed c online from to p w

expire-KeepsElapsed : (to : ℤ) (w : World) → KeepsElapsed w (expire_event to w)
unfolding expire_event
expire-KeepsElapsed to (s, ev) = ground arith

simulate-elapsed :
    (c : Content) (elapsed to : ℤ) (w : World) → KeepsElapsed w (simulate c elapsed to w)
unfolding simulate
simulate-elapsed c elapsed to w =
    let online = leb_ℤ elapsed online_tick_threshold in
    let w₁ = expire_event to w in
    let w₂ = if online then roll_online_event c elapsed to w₁ else w₁ in
    let h₂ : KeepsElapsed w₁ w₂ = ground (arith, event-KeepsElapsed c elapsed to w₁) in
    let w₃ = roll_gift_arrival c elapsed online to w₂ in
    plots-KeepsElapsed c online (w.0).updated_at to (w₃.0).plots w₃
    ∙ gift-KeepsElapsed c elapsed online to w₂
    ∙ h₂
    ∙ expire-KeepsElapsed to w

earn_from-updated_at :
    (now : ℤ) (goals : List Achievement) (s : State)
    → (earn_from now goals s).1.updated_at ≡ s.updated_at
unfolding earn_from earn
earn_from-updated_at now [] s = refl
earn_from-updated_at now (a ∷ rest) s = earn_from-updated_at now rest (earn now a s) ∙ ground arith

simulate-updated_at :
    (c : Content) (elapsed to : ℤ) (w : World) → (simulate c elapsed to w).0.updated_at ≡ to
unfolding simulate check_achievements
simulate-updated_at c elapsed to w = earn_from-updated_at to c.achievements _

-- After Advance the save's timestamp is the later of its own and the one given.
pub advance-updated_at :
    (s : State) (c : Content) (to : ℤ)
    → (advance s c to).0.updated_at ≡ (if leb_ℤ to s.updated_at then s.updated_at else to)
unfolding advance
advance-updated_at s c to = ground (
  arith,
  simulate-updated_at c (to ⊖ s.updated_at) to
      (s, record no_events { elapsed = to ⊖ s.updated_at }),
)

-- At the time of the save, or before it, nothing happens.
pub advance_idle :
    (s : State) (c : Content) (to : ℤ) → to ≤ℤ s.updated_at → advance s c to ≡ (s, no_events)
unfolding advance
advance_idle s c to h = ground arith

-- Advancing a save to a time and then to the same or an earlier time changes nothing in the second
-- step and reports no events.
pub advance_replay :
    (s : State) (c : Content) (to again_to : ℤ)
    → again_to ≤ℤ to
    → advance (advance s c to).0 c again_to ≡ ((advance s c to).0, no_events)
advance_replay s c to again_to h =
    let t = (advance s c to).0 in
    advance_idle t c again_to (ground (arith, advance-updated_at s c to))

-- The elapsed time that Advance reports is the difference from the save's timestamp, or 0 where
-- the time given is not later.
pub advance-elapsed :
    (s : State) (c : Content) (to : ℤ)
    → (advance s c to).1.elapsed ≡ (if leb_ℤ to s.updated_at then pos 0 else to ⊖ s.updated_at)
unfolding advance
advance-elapsed s c to = ground (
  arith,
  simulate-elapsed c (to ⊖ s.updated_at) to (s, record no_events { elapsed = to ⊖ s.updated_at }),
)
