-- ===== src/Sim/Solvent/Time.antt =====
-- The passage of time keeps the balances at zero or more: the loop over the harvest cycles, the loop
-- over the plots, the arrivals, and `Advance` as a whole.
use ssh_idlefarmer.Content.{Content, Crop, Event, crop_by_id, Achievement}
use ssh_idlefarmer.Content.Bounds.{IsPriced, crop_by_id-fits}
use ssh_idlefarmer.Sim.State.{
  State, Plot, roll_bp, roll100, roll_range, upgrade_level, credit, sat_mul,
}
use ssh_idlefarmer.Sim.Events.{no_events}
use ssh_idlefarmer.Sim.Solvent.Balances.{
  Solvent, roll100-Solvent, roll_bp-Solvent, roll_range-Solvent, spend-NonNeg, credit-Solvent,
  sat_mul-InRange, sat_mul-NonNeg, sat_add-NonNeg,
}
use ssh_idlefarmer.Sim.Advance.{
  Cycle, batch, capped_round, single_round, cycle_round, advance_crop, advance_plot, advance_plots,
  simulate, advance, auto_harvest_once, advance_known, auto_cycle_cap, expire_event,
  online_tick_threshold,
}
use ssh_idlefarmer.Prelude.{
  inr, inr, inl, pos, ◌∷◌, [], pos, some, none, ℤ, Option, Bool, InRange, NonNeg, arith, ◌⊖◌, ◌⊘◌,
  ◌⊕◌, length, ⊕-InRange, get_elem?, ◌⊗◌, pos_part, List, Option-cases, ◌+◌, leb_ℤ, if◌then◌else◌,
}
use ssh_idlefarmer.Sim.Arrivals.{
  event_interval, roll_online_event, start_event, roll_gift_arrival, maybe_critter_visit,
  welcome_critter, World, lengthened, event_bounds, earn_from, check_achievements, earn,
}
use ssh_idlefarmer.Sim.Bonus.{seed_cost, upgrade_effect_sum, grow_seconds}
use ssh_idlefarmer.Sim.Payout.{harvest_payout, expected_payout, bank_harvest}
use ssh_idlefarmer.Sim.Solvent.Payouts.{
  harvest_payout-InRange, bank_harvest-Solvent, harvest_payout-Solvent,
}
use ssh_idlefarmer.Sim.Solvent.Prices.{seed_cost-NonNeg}
use ssh_idlefarmer.Sim.Cycles.{round_cycle, cycle_loop_inv}

roll_gift_arrival-Solvent :
    (c : Content) (elapsed : ℤ) (online : Bool) (to : ℤ) (w : World)
    → Solvent w.0
    → Solvent (roll_gift_arrival c elapsed online to w).0
unfolding roll_gift_arrival
roll_gift_arrival-Solvent c elapsed online to (s, ev) h = ground (arith, roll_bp-Solvent s h)

start_event-Solvent :
    (c : Content) (to : ℤ) (def : Option Event) (w : World)
    → Solvent w.0
    → Solvent (start_event c to def w).0
unfolding start_event
start_event-Solvent c to none w h = h
start_event-Solvent c to (some def) (s, ev) h =
    let bonus =
      upgrade_effect_sum s c "event_duration_pct" ⊕ upgrade_level s "stargazer" ⊗ pos 10 in
    let span =
      lengthened bonus c.events_config.max_duration_sec
      ⊖ lengthened bonus c.events_config.min_duration_sec in
    ground (arith, roll_range-Solvent s (pos 0) span h)

event_interval-Solvent : (c : Content) (s : State) → Solvent s → Solvent (event_interval s c).1
unfolding event_interval
event_interval-Solvent c s h =
    let (lo, hi) = event_bounds s c in ground (arith, roll_range-Solvent s (pos 0) (hi ⊖ lo) h)

roll_online_event-Solvent :
    (c : Content) (elapsed to : ℤ) (w : World)
    → Solvent w.0
    → Solvent (roll_online_event c elapsed to w).0
unfolding roll_online_event
roll_online_event-Solvent c elapsed to (s, ev) h =
    let s₁ = (event_interval s c).1 in
    let h₁ = event_interval-Solvent c s h in
    let s₂ = (roll_bp s₁).1 in
    let h₂ = roll_bp-Solvent s₁ h₁ in
    let last = pos (length c.events) ⊖ pos 1 in
    let drawn = roll_range s₂ (pos 0) last in
    ground (
      arith,
      h₂,
      start_event-Solvent c to (get_elem? c.events (pos_part drawn.0)) (drawn.1, ev)
          (roll_range-Solvent s₂ (pos 0) last h₂),
    )

maybe_critter_visit-Solvent :
    (c : Content) (plot : Plot) (w : World)
    → Solvent w.0
    → Solvent (maybe_critter_visit c plot w).1.0
unfolding maybe_critter_visit welcome_critter
maybe_critter_visit-Solvent c plot (s, ev) h =
    let s₁ = (roll100 s).1 in
    let h₁ = roll100-Solvent s h in
    let last = pos (length c.critters.kinds) ⊖ pos 1 in
    ground (arith, h₁, roll_range-Solvent s₁ (pos 0) last h₁)

batch-Solvent :
    (crop : Crop) (gross seed grow to : ℤ) (v : Cycle)
    → NonNeg seed
    → Solvent v.state
    → Solvent (batch crop gross seed grow to v).state
unfolding batch
batch-Solvent crop gross seed grow to v hs h =
    let n = (to ⊖ v.mature_at) ⊘ grow ⊕ pos 1 in
    let nr = ⊕-InRange ((to ⊖ v.mature_at) ⊘ grow) (pos 1) in
    let paid = credit v.state (sat_mul gross n) in
    let hp = credit-Solvent v.state (sat_mul gross n) (sat_mul-InRange gross n) h in
    ground (
      arith,
      hp,
      sat_mul-NonNeg seed n hs nr,
      spend-NonNeg paid.coins (sat_mul seed n) hp.coins_ok,
      spend-NonNeg paid.coins paid.coins hp.coins_ok,
      sat_add-NonNeg paid.lifetime_harvests n hp.harvests_ok nr,
    )

expire_event-Solvent : (to : ℤ) (w : World) → Solvent w.0 → Solvent (expire_event to w).0
unfolding expire_event
expire_event-Solvent to (s, ev) h = ground arith

earn-Solvent : (now : ℤ) (a : Achievement) (s : State) → Solvent s → Solvent (earn now a s)
unfolding earn
earn-Solvent now a s h = ground arith

earn_from-Solvent :
    (now : ℤ) (goals : List Achievement) (s : State) → Solvent s → Solvent (earn_from now goals s).1
unfolding earn_from
earn_from-Solvent now [] s h = h
earn_from-Solvent now (a ∷ rest) s h =
    earn_from-Solvent now rest (earn now a s) (earn-Solvent now a s h)

module _ (c : Content) (k : IsPriced c) where
  capped_round-Solvent :
      (crop : Crop) (grow to : ℤ) (v : Cycle)
      → InRange crop.seed_cost
      → Solvent v.state
      → Solvent (round_cycle (capped_round c crop grow to v)).state
  unfolding capped_round
  capped_round-Solvent crop grow to v r h =
      let seed = seed_cost v.state c crop in
      let gross = expected_payout v.state c crop in
      ground (arith, batch-Solvent crop gross seed grow to v (seed_cost-NonNeg v.state c crop r) h)

  single_round-Solvent :
      (crop : Crop) (grow : ℤ) (v : Cycle)
      → InRange crop.seed_cost
      → InRange crop.sell_value
      → Solvent v.state
      → Solvent (round_cycle (single_round c crop grow v)).state
  unfolding single_round auto_harvest_once
  single_round-Solvent crop grow v r r' h =
      let (paid, s₁) = harvest_payout v.state c crop in
      let (hp, hd) = harvest_payout-InRange v.state c crop r' k.finds_fit in
      let s = bank_harvest paid s₁ in
      let hs = bank_harvest-Solvent paid s₁ hp hd (harvest_payout-Solvent v.state c crop h) in
      ground (
        arith,
        hs,
        spend-NonNeg s.coins (seed_cost s c crop) hs.coins_ok (seed_cost-NonNeg s c crop r),
      )

  cycle_round-Solvent :
      (crop : Crop) (grow to : ℤ) (v : Cycle)
      → InRange crop.seed_cost
      → InRange crop.sell_value
      → Solvent v.state
      → Solvent (round_cycle (cycle_round c crop grow to v)).state
  unfolding cycle_round
  cycle_round-Solvent crop grow to v r r' h =
      ground
        (arith, capped_round-Solvent crop grow to v r h, single_round-Solvent crop grow v r r' h)

  advance_crop-Solvent :
      (from to : ℤ) (plot : Plot) (crop : Crop) (w : World)
      → InRange crop.seed_cost
      → InRange crop.sell_value
      → Solvent w.0
      → Solvent (advance_crop c from to plot crop w).1.0
  unfolding advance_crop
  advance_crop-Solvent from to plot crop (s, ev) r r' h =
      let grow = grow_seconds s c crop in
      let v : Cycle = record {
        state = s;
        events = ev;
        plot = plot;
        mature_at = plot.planted_at ⊕ grow;
        cycles = 0;
      } in
      let settled =
        cycle_loop_inv (λ v. Solvent v.state) c crop grow to
          (λ v more. cycle_round-Solvent crop grow to v r r') (auto_cycle_cap + 2) v h in
      ground (arith, settled)

  advance_plot-Solvent :
      (online : Bool) (from to : ℤ) (plot : Plot) (w : World)
      → Solvent w.0
      → Solvent (advance_plot c online from to plot w).1.0
  unfolding advance_plot advance_known
  advance_plot-Solvent online from to plot w h = elim (Option-cases (crop_by_id c plot.crop)) [
    | inl e ↦ ground (arith, maybe_critter_visit-Solvent c plot w h)
    | inr (crop, e) ↦
        let (r, r') = crop_by_id-fits c k plot.crop crop e in
        ground (
          arith,
          maybe_critter_visit-Solvent c plot w h,
          advance_crop-Solvent from to plot crop w r r' h,
        )
  ]

  advance_plots-Solvent :
      (online : Bool) (from to : ℤ) (ps : List Plot) (w : World)
      → Solvent w.0
      → Solvent (advance_plots c online from to ps w).1.0
  unfolding advance_plots
  advance_plots-Solvent online from to [] w h = h
  advance_plots-Solvent online from to (p ∷ ps) w h =
      advance_plots-Solvent online from to ps (advance_plot c online from to p w).1
        (advance_plot-Solvent online from to p w h)

  pub simulate-Solvent :
      (elapsed to : ℤ) (w : World) → Solvent w.0 → Solvent (simulate c elapsed to w).0
  unfolding simulate check_achievements
  simulate-Solvent elapsed to w h =
      let online = leb_ℤ elapsed online_tick_threshold in
      let w₁ = expire_event to w in
      let h₁ = expire_event-Solvent to w h in
      let w₂ = if online then roll_online_event c elapsed to w₁ else w₁ in
      let h₂ : Solvent w₂.0 = ground (arith, h₁, roll_online_event-Solvent c elapsed to w₁ h₁) in
      let w₃ = roll_gift_arrival c elapsed online to w₂ in
      let h₃ = roll_gift_arrival-Solvent c elapsed online to w₂ h₂ in
      let farm = advance_plots c online (w.0).updated_at to (w₃.0).plots w₃ in
      let h₄ = advance_plots-Solvent online (w.0).updated_at to (w₃.0).plots w₃ h₃ in
      earn_from-Solvent to c.achievements (record (farm.1.0) { plots = farm.0; updated_at = to })
        (ground (arith, h₄))

  pub advance-Solvent : (s : State) (to : ℤ) → Solvent s → Solvent (advance s c to).0
  unfolding advance
  advance-Solvent s to h = ground (
    arith,
    simulate-Solvent (to ⊖ s.updated_at) to (s, record no_events { elapsed = to ⊖ s.updated_at }) h,
  )

pub check_achievements-Solvent :
    (c : Content) (now : ℤ) (s : State) → Solvent s → Solvent (check_achievements s c now).1
unfolding check_achievements
check_achievements-Solvent c now s h = earn_from-Solvent now c.achievements s h
