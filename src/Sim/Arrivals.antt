-- ===== src/Sim/Arrivals.antt =====
-- internal/sim/advance.go: the random arrivals of a tick: events, parcels and critters; and the
-- achievements.
use ssh_idlefarmer.Sim.Events.{Events}
use ssh_idlefarmer.Sim.State.{Plot, State, roll100, roll_range, roll_bp, upgrade_level}
use ssh_idlefarmer.Prelude.{
  ℤ, none, Option, Bool, ◌⊗◌, String, List, false, pos, ◌∷◌, ◌⊘◌, length, not, ◌⊖◌, lookup, ◌&&◌,
  if◌then◌else◌, some, str_eq, true, ◌++◌, ◌⊕◌, ◌==◌, insert, ltb_ℤ, ◌||◌, leb_ℤ, [], get_elem?,
  pos_part,
}
use ssh_idlefarmer.Content.{Content, Condition, Event, Achievement}
use ssh_idlefarmer.Sim.Bonus.{upgrade_effect_sum, is_event_active}
use ssh_idlefarmer.Sim.Prices.{at_least_1}

-- The state and the events so far, which `Advance` threads through its steps.
abbrev pub World : Type 0
World = State × Events

-- `x * 100 / (100 + bonus)`, if there is a bonus
unfoldable pub shortened : ℤ → ℤ → ℤ
shortened bonus x = if ltb_ℤ (pos 0) bonus then x ⊗ pos 100 ⊘ (pos 100 ⊕ bonus) else x

-- `x * (100 + bonus) / 100`, if there is a bonus
unfoldable pub lengthened : ℤ → ℤ → ℤ
lengthened bonus x = if ltb_ℤ (pos 0) bonus then x ⊗ (pos 100 ⊕ bonus) ⊘ pos 100 else x

unfoldable pub gift_interval : State → Content → Bool → ℤ
gift_interval s c online =
    if online
    then shortened (upgrade_effect_sum s c "gift_rate_pct") c.gifts.online_interval_sec
    else c.gifts.offline_interval_sec

-- The chance of a parcel in basis points, at most 10000.
unfoldable pub gift_chance : ℤ → ℤ → ℤ
gift_chance elapsed interval =
    let chance = elapsed ⊗ pos 10000 ⊘ interval in
    if ltb_ℤ (pos 10000) chance then pos 10000 else chance

unfoldable pub roll_gift_arrival : Content → ℤ → Bool → ℤ → World → World
unfolding gift_interval gift_chance
roll_gift_arrival c elapsed online to (s, ev) =
    let interval = gift_interval s c online in
    let chance = gift_chance elapsed interval in
    let (r, s') = roll_bp s in
    if s.gift_pending
    then (s, ev)
    else if ltb_ℤ interval (pos 1)
    then (s, ev)
    else if not (ltb_ℤ (pos 0) chance)
    then (s, ev)
    else if ltb_ℤ r chance
    then (
      record s' { gift_pending = true; gift_arrived_at = to },
      record ev { gift_arrived = true },
    )
    else (s', ev)

-- The start of the event that was drawn. The index is in range, so `none` does not occur.
unfoldable pub start_event : Content → ℤ → Option Event → World → World
start_event c to none w = w
start_event c to (some def) (s, ev) =
    let bonus =
      upgrade_effect_sum s c "event_duration_pct" ⊕ upgrade_level s "stargazer" ⊗ pos 10 in
    let dur_min = lengthened bonus c.events_config.min_duration_sec in
    let dur_max = lengthened bonus c.events_config.max_duration_sec in
    let (extra, s') = roll_range s (pos 0) (dur_max ⊖ dur_min) in
    let ev' = record ev { event_started = def.id } in
    if ltb_ℤ dur_min dur_max
    then (record s' { event_id = def.id; event_ends_at = to ⊕ (dur_min ⊕ extra) }, ev')
    else (record s { event_id = def.id; event_ends_at = to ⊕ dur_min }, ev')

-- The shortest and the longest interval between events, in seconds, after the upgrades.
unfoldable pub event_bounds : State → Content → ℤ × ℤ
event_bounds s c =
    let bonus = upgrade_effect_sum s c "event_rate_pct" in
    let min' = at_least_1 (shortened bonus c.events_config.min_interval_sec) in
    let longest = shortened bonus c.events_config.max_interval_sec in
    (min', (if ltb_ℤ longest min' then min' else longest))

-- The interval that is drawn.
unfoldable pub event_interval : State → Content → ℤ × State
event_interval s c =
    let (min', max') = event_bounds s c in
    let (extra, s') = roll_range s (pos 0) (max' ⊖ min') in
    if ltb_ℤ (pos 0) (max' ⊖ min') then (min' ⊕ extra, s') else (min', s)

unfoldable pub roll_online_event : Content → ℤ → ℤ → World → World
unfolding event_interval start_event
roll_online_event c elapsed to (s, ev) =
    let (interval, s₁) = event_interval s c in
    let chance = at_least_1 (elapsed ⊗ pos 10000 ⊘ interval) in
    let (r, s₂) = roll_bp s₁ in
    let (idx, s₃) = roll_range s₂ (pos 0) (pos (length c.events) ⊖ pos 1) in
    if length c.events == 0
    then (s, ev)
    else if is_event_active s to
    then (s, ev)
    else if leb_ℤ chance r
    then (s₂, ev)
    else start_event c to (get_elem? c.events (pos_part idx)) (s₃, ev)

-- The visit of the critter that was drawn. The index is in range, so `none` does not occur.
unfoldable pub welcome_critter : Plot → Option String → World → Plot × World
welcome_critter plot none w = (plot, w)
welcome_critter plot (some kind) (s, ev) = (
  record plot { critter = kind },
  (s, record ev { critter_visits = ev.critter_visits ++ kind ∷ [] }),
)

unfoldable pub maybe_critter_visit : Content → Plot → World → Plot × World
unfolding welcome_critter
maybe_critter_visit c plot (s, ev) =
    let (r, s₁) = roll100 s in
    let (idx, s₂) = roll_range s₁ (pos 0) (pos (length c.critters.kinds) ⊖ pos 1) in
    if not (str_eq plot.critter "") || length c.critters.kinds == 0
    then (plot, (s, ev))
    else if leb_ℤ c.critters.visit_chance_pct (pos 0)
    then (plot, (s, ev))
    else if leb_ℤ c.critters.visit_chance_pct r
    then (plot, (s₁, ev))
    else welcome_critter plot (get_elem? c.critters.kinds (pos_part idx)) (s₂, ev)

-- The `switch` of `CheckAchievements`.
unfoldable pub is_met : State → Condition → Bool
is_met s cond =
    if str_eq cond.kind "harvests"
    then leb_ℤ cond.value s.lifetime_harvests
    else if str_eq cond.kind "earnings"
    then leb_ℤ cond.value s.lifetime_earnings
    else if str_eq cond.kind "plots"
    then leb_ℤ cond.value (pos (length s.plots))
    else if str_eq cond.kind "rebirths"
    then leb_ℤ cond.value s.rebirths
    else if str_eq cond.kind "balance"
    then leb_ℤ cond.value s.coins
    else false

abbrev pub is_some : {A : Type 0} → Option A → Bool
is_some none = false
is_some (some a) = true

-- An achievement that is met and was not earned before.
unfoldable pub is_fresh : State → Achievement → Bool
is_fresh s a = not (is_some (lookup a.id s.achievements)) && is_met s a.condition

unfoldable pub earn : ℤ → Achievement → State → State
earn now a s =
    if is_fresh s a then record s { achievements = insert a.id now s.achievements } else s

-- The loop of `CheckAchievements`, with the ids that are newly earned.
unfoldable pub earn_from : ℤ → List Achievement → State → List String × State
earn_from now [] s = ([], s)
earn_from now (a ∷ rest) s =
    let (newly, s') = earn_from now rest (earn now a s) in
    (if is_fresh s a then a.id ∷ newly else newly, s')

unfoldable pub check_achievements : State → Content → ℤ → List String × State
check_achievements s c now = earn_from now c.achievements s
