-- ===== src/Sim/Advance.antt =====
-- internal/sim/advance.go: `Advance`, which simulates a save from its last timestamp to a later one.
use ssh_idlefarmer.Prelude.{
  ℕ, zero, suc, none, some, [], ◌∷◌, true, false, pos, List, Bool, Option, ℤ, if◌then◌else◌, leb_ℤ,
  ◌⊖◌, leb, ◌⊘◌, not, ◌&&◌, ◌⊕◌, str_eq, ltb_ℤ, ◌+◌, ◌⊗◌,
}
use ssh_idlefarmer.Sim.Arrivals.{
  World, maybe_critter_visit, roll_online_event, roll_gift_arrival, check_achievements,
}
use ssh_idlefarmer.Sim.State.{State, Plot, sat_add, credit, sat_mul}
use ssh_idlefarmer.Content.{Crop, Content, crop_by_id}
use ssh_idlefarmer.Sim.Events.{Events, no_events, add_count, away_vignettes}
use ssh_idlefarmer.Sim.Payout.{harvest_payout, Payout, expected_payout, bank_harvest}
use ssh_idlefarmer.Sim.Unlocks.{unlocked}
use ssh_idlefarmer.Sim.Bonus.{seed_cost, grow_seconds}

-- autoCycleCap
abbrev pub auto_cycle_cap : ℕ
auto_cycle_cap = 50000

-- onlineTickThreshold
abbrev pub online_tick_threshold : ℤ
online_tick_threshold = pos 2

-- The variables of the loop over the harvest cycles of one plot.
pub record Cycle : Type 0 where
  pub state : State
  pub events : Events
  pub plot : Plot
  pub mature_at : ℤ
  pub cycles : ℕ

-- How a round of the loop ends: `continue`, or `break`.
pub data Round : Type 0 where
  again : Cycle → Round
  stop : Cycle → Round

-- All cycles up to `to` at once, at the expected payout `gross`.
unfoldable pub batch : Crop → ℤ → ℤ → ℤ → ℤ → Cycle → Cycle
batch crop gross seed grow to v =
    let remaining = (to ⊖ v.mature_at) ⊘ grow in
    let n = remaining ⊕ pos 1 in
    let total_gross = sat_mul gross n in
    let paid = credit v.state total_gross in
    let all_seeds = sat_mul seed n in
    let total_seeds = if ltb_ℤ paid.coins all_seeds then paid.coins else all_seeds in
    let planted = v.mature_at ⊕ remaining ⊗ grow in
    record v {
      state = record paid {
        coins = paid.coins ⊖ total_seeds;
        lifetime_harvests = sat_add paid.lifetime_harvests n;
      };
      events = record (v.events) {
        auto_coins = sat_add v.events.auto_coins (total_gross ⊖ total_seeds);
        auto_harvested = add_count crop.id n v.events.auto_harvested;
      };
      plot = record (v.plot) { planted_at = planted };
      mature_at = planted ⊕ grow;
    }

-- The branch of the loop past the cap: a batch, or a stop.
unfoldable pub capped_round : Content → Crop → ℤ → ℤ → Cycle → Round
capped_round c crop grow to v =
    let seed = seed_cost v.state c crop in
    let gross = expected_payout v.state c crop in
    if v.plot.auto_sow && leb_ℤ seed v.state.coins && ltb_ℤ seed gross
    then again (batch crop gross seed grow to v)
    else stop v

-- The events of one automatic harvest.
unfoldable pub record_harvest : Crop → Payout → Events → Events
record_harvest crop paid ev = record ev {
  auto_coins = sat_add ev.auto_coins paid.payout;
  failed_harvests =
      if paid.failed then add_count crop.id (pos 1) ev.failed_harvests else ev.failed_harvests;
  golden_harvests = if paid.golden then ev.golden_harvests ⊕ pos 1 else ev.golden_harvests;
  discoveries = if ltb_ℤ (pos 0) paid.discovery then ev.discoveries ⊕ pos 1 else ev.discoveries;
  discovery_coins =
      if ltb_ℤ (pos 0) paid.discovery
      then ev.discovery_coins ⊕ paid.discovery
      else ev.discovery_coins;
  auto_harvested = add_count crop.id (pos 1) ev.auto_harvested;
}

-- One automatic harvest: the payout, the lucky find and the count.
unfoldable pub auto_harvest_once : Content → Crop → World → World
unfolding record_harvest
auto_harvest_once c crop (s, ev) =
    let (paid, s₁) = harvest_payout s c crop in (bank_harvest paid s₁, record_harvest crop paid ev)

-- A round below the cap: a harvest, then the next seed, or an empty plot.
unfoldable pub single_round : Content → Crop → ℤ → Cycle → Round
single_round c crop grow v =
    let (s, ev) = auto_harvest_once c crop (v.state, v.events) in
    let seed = seed_cost s c crop in
    if v.plot.auto_sow && leb_ℤ seed s.coins && unlocked s crop.unlock
    then again (record v {
      state = record s { coins = s.coins ⊖ seed };
      events = record ev { auto_coins = ev.auto_coins ⊖ seed };
      plot = record (v.plot) { planted_at = v.mature_at };
      mature_at = v.mature_at ⊕ grow;
      cycles = suc v.cycles;
    })
    else stop (record v {
      state = s;
      events = ev;
      plot = record (v.plot) { crop = ""; planted_at = pos 0 };
    })

unfoldable pub cycle_round : Content → Crop → ℤ → ℤ → Cycle → Round
cycle_round c crop grow to v =
    if leb auto_cycle_cap v.cycles
    then capped_round c crop grow to v
    else single_round c crop grow v

abbrev pub proceed : (Cycle → Cycle) → Round → Cycle
proceed next (again v) = next v
proceed next (stop v) = v

-- `for matureAt <= to`, with fuel. Each round counts a cycle, or is the last but one.
unfoldable pub cycle_loop : Content → Crop → ℤ → ℤ → ℕ → Cycle → Cycle
cycle_loop c crop grow to zero v = v
cycle_loop c crop grow to (suc fuel) v = elim (leb_ℤ v.mature_at to) [
  | true ↦ proceed (cycle_loop c crop grow to fuel) (cycle_round c crop grow to v)
  | false ↦ v
]

-- The body of the loop over the plots, for a plot with a known crop.
unfoldable pub advance_crop : Content → ℤ → ℤ → Plot → Crop → World → Plot × World
advance_crop c from to plot crop (s, ev) =
    let grow = grow_seconds s c crop in
    let mature_at = plot.planted_at ⊕ grow in
    let ripe = record ev { matured = add_count crop.id (pos 1) ev.matured } in
    let v =
      cycle_loop c crop grow to (auto_cycle_cap + 2)
        (record { state = s; events = ev; plot = plot; mature_at = mature_at; cycles = 0 }) in
    if not plot.auto_harvest
    then (plot, (s, (if ltb_ℤ from mature_at && leb_ℤ mature_at to then ripe else ev)))
    else (v.plot, (v.state, v.events))

-- `crop == nil` leaves the plot alone.
unfoldable pub advance_known : Content → ℤ → ℤ → Plot → Option Crop → World → Plot × World
advance_known c from to plot none w = (plot, w)
advance_known c from to plot (some crop) w = advance_crop c from to plot crop w

unfoldable pub advance_plot : Content → Bool → ℤ → ℤ → Plot → World → Plot × World
advance_plot c online from to plot w =
    let visited = maybe_critter_visit c plot w in
    if str_eq plot.crop ""
    then if online then visited else (plot, w)
    else advance_known c from to plot (crop_by_id c plot.crop) w

-- `for i := range s.Plots`. The steps on a plot read no other plot, so the list of the plots is
-- put back at the end.
unfoldable pub advance_plots : Content → Bool → ℤ → ℤ → List Plot → World → List Plot × World
advance_plots c online from to [] w = ([], w)
advance_plots c online from to (p ∷ ps) w =
    let (p', w₁) = advance_plot c online from to p w in
    let (ps', w₂) = advance_plots c online from to ps w₁ in (p' ∷ ps', w₂)

-- The end of an event whose time is over.
unfoldable pub expire_event : ℤ → World → World
expire_event to (s, ev) =
    if not (str_eq s.event_id "") && leb_ℤ s.event_ends_at to
    then (record s { event_id = ""; event_ends_at = pos 0 }, record ev { event_ended = s.event_id })
    else (s, ev)

-- `Advance` from the expiry of the event on, up to the achievements.
unfoldable pub simulate : Content → ℤ → ℤ → World → World
simulate c elapsed to w =
    let from = (w.0).updated_at in
    let online = leb_ℤ elapsed online_tick_threshold in
    let w₁ = expire_event to w in
    let w₂ = if online then roll_online_event c elapsed to w₁ else w₁ in
    let w₃ = roll_gift_arrival c elapsed online to w₂ in
    let (plots', w₄) = advance_plots c online from to (w₃.0).plots w₃ in
    let (s, ev) = w₄ in
    let (newly, s') = check_achievements (record s { plots = plots'; updated_at = to }) c to in
    (s', record ev { achievements = newly })

unfoldable pub advance : State → Content → ℤ → State × Events
advance s c to =
    let elapsed = to ⊖ s.updated_at in
    let (s', ev) = simulate c elapsed to (s, record no_events { elapsed = elapsed }) in
    if leb_ℤ to s.updated_at
    then (s, no_events)
    else if ltb_ℤ online_tick_threshold elapsed && ltb_ℤ (pos 60) elapsed
    then (s', record ev { away_vignettes = away_vignettes to c ev })
    else (s', ev)
