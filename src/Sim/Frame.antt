-- ===== src/Sim/Frame.antt =====
-- What the game never touches in a save while it simulates: the version, and until its end the time.
pub mod Actions
use ssh_idlefarmer.Prelude.{
  inr, inl, ◌∷◌, some, none, refl, pos, [], ℤ, ◌∙◌, ◌≡◌, arith, Option, Bool, length, ◌⊖◌,
  get_elem?, ◌⊕◌, List, leb_ℤ, pos_part, ◌⊘◌, Option-cases, ◌⊗◌, if◌then◌else◌, ◌+◌,
}
use ssh_idlefarmer.Sim.State.{
  roll_bp, roll100, State, roll_range, credit, next_rand, Plot, upgrade_level, sat_mul,
}
use ssh_idlefarmer.Sim.Arrivals.{
  start_event, roll_online_event, maybe_critter_visit, roll_gift_arrival, welcome_critter, World,
  event_interval, check_achievements, event_bounds, earn_from, earn, lengthened,
}
use ssh_idlefarmer.Sim.Payout.{
  roll_base, harvest_payout, roll_discovery, roll_golden, bank_harvest, Payout, expected_payout,
}
use ssh_idlefarmer.Content.{Content, Crop, Event, Achievement, crop_by_id}
use ssh_idlefarmer.Sim.Bonus.{sell_multiplied, upgrade_effect_sum, grow_seconds, seed_cost}
use ssh_idlefarmer.Sim.Advance.{
  advance_plots, cycle_round, advance_crop, expire_event, simulate, advance, batch, advance_plot,
  Cycle, advance_known, capped_round, online_tick_threshold, single_round, auto_harvest_once,
  auto_cycle_cap,
}
use ssh_idlefarmer.Sim.Events.{no_events}
use ssh_idlefarmer.Sim.Cycles.{cycle_loop_inv, round_cycle}

-- The version and the time of a save stay.
abbrev pub Framed : State → State → Type 0
Framed s t = (t.version ≡ s.version) × (t.updated_at ≡ s.updated_at)

pub roll100-Framed : (s : State) → Framed s (roll100 s).1
unfolding roll100 next_rand
roll100-Framed s = ground arith

roll_bp-Framed : (s : State) → Framed s (roll_bp s).1
unfolding roll_bp next_rand
roll_bp-Framed s = ground arith

pub roll_range-Framed : (s : State) (lo hi : ℤ) → Framed s (roll_range s lo hi).1
unfolding roll_range next_rand
roll_range-Framed s lo hi = ground arith

roll_base-Framed : (s : State) (crop : Crop) → Framed s (roll_base s crop).1
unfolding roll_base
roll_base-Framed s crop = ground (arith, roll100-Framed s)

roll_golden-Framed : (s : State) (c : Content) (x : ℤ) → Framed s (roll_golden s c x).1
unfolding roll_golden
roll_golden-Framed s c x = ground (arith, roll100-Framed s)

roll_discovery-Framed : (s : State) (c : Content) → Framed s (roll_discovery s c).1
unfolding roll_discovery
roll_discovery-Framed s c = ground (
  arith,
  roll100-Framed s,
  roll_range-Framed (roll100 s).1 c.flavor.discovery_min c.flavor.discovery_max,
)

pub Framed-trans : (s t u : State) → Framed s t → Framed t u → Framed s u
Framed-trans s t u (a, b) (d, e) = (d ∙ a, e ∙ b)

pub harvest_payout-Framed :
    (s : State) (c : Content) (crop : Crop) → Framed s (harvest_payout s c crop).1
unfolding harvest_payout
harvest_payout-Framed s c crop =
    let s₁ = (roll_base s crop).1 in
    let sold = sell_multiplied s₁ c (roll_base s crop).0.0 crop.id in
    ground (
      arith,
      roll_base-Framed s crop,
      roll_golden-Framed s₁ c sold,
      roll_discovery-Framed (roll_golden s₁ c sold).1 c,
    )

pub credit-Framed : (s : State) (x : ℤ) → Framed s (credit s x)
unfolding credit
credit-Framed s x = ground arith

pub bank_harvest-Framed : (paid : Payout) (s : State) → Framed s (bank_harvest paid s)
unfolding bank_harvest
bank_harvest-Framed paid s =
    let s₁ = credit s paid.payout in
    ground (arith, credit-Framed s paid.payout, credit-Framed s₁ paid.discovery)

gift-Framed :
    (c : Content) (elapsed : ℤ) (online : Bool) (to : ℤ) (w : World)
    → Framed w.0 (roll_gift_arrival c elapsed online to w).0
unfolding roll_gift_arrival
gift-Framed c elapsed online to (s, ev) = ground (arith, roll_bp-Framed s)

start_event-Framed :
    (c : Content) (to : ℤ) (def : Option Event) (w : World) → Framed w.0 (start_event c to def w).0
unfolding start_event
start_event-Framed c to none w = (refl, refl)
start_event-Framed c to (some def) (s, ev) =
    let bonus =
      upgrade_effect_sum s c "event_duration_pct" ⊕ upgrade_level s "stargazer" ⊗ pos 10 in
    let span =
      lengthened bonus c.events_config.max_duration_sec
      ⊖ lengthened bonus c.events_config.min_duration_sec in
    ground (arith, roll_range-Framed s (pos 0) span)

event_interval-Framed : (c : Content) (s : State) → Framed s (event_interval s c).1
unfolding event_interval
event_interval-Framed c s =
    let (lo, hi) = event_bounds s c in ground (arith, roll_range-Framed s (pos 0) (hi ⊖ lo))

event-Framed :
    (c : Content) (elapsed to : ℤ) (w : World) → Framed w.0 (roll_online_event c elapsed to w).0
unfolding roll_online_event
event-Framed c elapsed to (s, ev) =
    let s₁ = (event_interval s c).1 in
    let s₂ = (roll_bp s₁).1 in
    let last = pos (length c.events) ⊖ pos 1 in
    let drawn = roll_range s₂ (pos 0) last in
    ground (
      arith,
      event_interval-Framed c s,
      roll_bp-Framed s₁,
      roll_range-Framed s₂ (pos 0) last,
      start_event-Framed c to (get_elem? c.events (pos_part drawn.0)) (drawn.1, ev),
    )

critter-Framed :
    (c : Content) (plot : Plot) (w : World) → Framed w.0 (maybe_critter_visit c plot w).1.0
unfolding maybe_critter_visit welcome_critter
critter-Framed c plot (s, ev) =
    let s₁ = (roll100 s).1 in
    let last = pos (length c.critters.kinds) ⊖ pos 1 in
    ground (arith, roll100-Framed s, roll_range-Framed s₁ (pos 0) last)

batch-Framed :
    (crop : Crop) (gross seed grow to : ℤ) (v : Cycle)
    → Framed v.state (batch crop gross seed grow to v).state
unfolding batch
batch-Framed crop gross seed grow to v =
    let n = (to ⊖ v.mature_at) ⊘ grow ⊕ pos 1 in
    ground (arith, credit-Framed v.state (sat_mul gross n))

round-Framed :
    (c : Content) (crop : Crop) (grow to : ℤ) (v : Cycle)
    → Framed v.state (round_cycle (cycle_round c crop grow to v)).state
unfolding cycle_round capped_round single_round auto_harvest_once
round-Framed c crop grow to v =
    let (paid, s₁) = harvest_payout v.state c crop in
    ground (
      arith,
      batch-Framed crop (expected_payout v.state c crop) (seed_cost v.state c crop) grow to v,
      harvest_payout-Framed v.state c crop,
      bank_harvest-Framed paid s₁,
    )

crop-Framed :
    (c : Content) (from to : ℤ) (plot : Plot) (crop : Crop) (w : World)
    → Framed w.0 (advance_crop c from to plot crop w).1.0
unfolding advance_crop
crop-Framed c from to plot crop (s, ev) =
    let grow = grow_seconds s c crop in
    let v : Cycle = record {
      state = s;
      events = ev;
      plot = plot;
      mature_at = plot.planted_at ⊕ grow;
      cycles = 0;
    } in
    let settled =
      cycle_loop_inv (λ v. Framed s v.state) c crop grow to
        (λ v more h.
          Framed-trans s v.state (round_cycle (cycle_round c crop grow to v)).state h
            (round-Framed c crop grow to v))
        (auto_cycle_cap + 2) v (refl, refl) in
    ground (arith, settled)

plot-Framed :
    (c : Content) (online : Bool) (from to : ℤ) (plot : Plot) (w : World)
    → Framed w.0 (advance_plot c online from to plot w).1.0
unfolding advance_plot advance_known
plot-Framed c online from to plot w = elim (Option-cases (crop_by_id c plot.crop)) [
  | inl e ↦ ground (arith, critter-Framed c plot w)
  | inr (crop, e) ↦ ground (arith, critter-Framed c plot w, crop-Framed c from to plot crop w)
]

plots-Framed :
    (c : Content) (online : Bool) (from to : ℤ) (ps : List Plot) (w : World)
    → Framed w.0 (advance_plots c online from to ps w).1.0
unfolding advance_plots
plots-Framed c online from to [] w = (refl, refl)
plots-Framed c online from to (p ∷ ps) w =
    let w₁ = (advance_plot c online from to p w).1 in
    Framed-trans w.0 w₁.0 (advance_plots c online from to ps w₁).1.0
      (plot-Framed c online from to p w) (plots-Framed c online from to ps w₁)

expire-Framed : (to : ℤ) (w : World) → Framed w.0 (expire_event to w).0
unfolding expire_event
expire-Framed to (s, ev) = ground arith

earn_from-Framed :
    (now : ℤ) (goals : List Achievement) (s : State) → Framed s (earn_from now goals s).1
unfolding earn_from earn
earn_from-Framed now [] s = (refl, refl)
earn_from-Framed now (a ∷ rest) s = ground (arith, earn_from-Framed now rest (earn now a s))

pub check_achievements-Framed :
    (s : State) (c : Content) (now : ℤ) → Framed s (check_achievements s c now).1
unfolding check_achievements
check_achievements-Framed s c now = earn_from-Framed now c.achievements s

simulate-version :
    (c : Content) (elapsed to : ℤ) (w : World) → (simulate c elapsed to w).0.version ≡ w.0.version
unfolding simulate
simulate-version c elapsed to w =
    let online = leb_ℤ elapsed online_tick_threshold in
    let w₁ = expire_event to w in
    let w₂ = if online then roll_online_event c elapsed to w₁ else w₁ in
    let h₂ : w₂.0.version ≡ w₁.0.version = ground (arith, event-Framed c elapsed to w₁) in
    let w₃ = roll_gift_arrival c elapsed online to w₂ in
    (check_achievements-Framed _ c to).0
    ∙ (plots-Framed c online (w.0).updated_at to (w₃.0).plots w₃).0
    ∙ (gift-Framed c elapsed online to w₂).0
    ∙ h₂
    ∙ (expire-Framed to w).0

pub advance-version : (s : State) (c : Content) (to : ℤ) → (advance s c to).0.version ≡ s.version
unfolding advance
advance-version s c to = ground (
  arith,
  simulate-version c (to ⊖ s.updated_at) to (s, record no_events { elapsed = to ⊖ s.updated_at }),
)
