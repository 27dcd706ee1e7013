-- ===== src/Sim/Payout.antt =====
-- internal/sim/advance.go: the payout of one harvest, rolled and expected.
use ssh_idlefarmer.Prelude.{
  Bool, true, false, ◌&&◌, if◌then◌else◌, str_eq, ℤ, pos, ◌⊕◌, ◌⊖◌, ◌⊗◌, ◌⊘◌, ltb_ℤ,
}
use ssh_idlefarmer.Content.{Content, Crop}
use ssh_idlefarmer.Sim.State.{State, roll100, roll_range, credit, sat_add}
use ssh_idlefarmer.Sim.Bonus.{sell_multiplied, salvage_base}

-- The results of `harvestPayout`.
pub record Payout : Type 0 where
  pub payout : ℤ
  pub discovery : ℤ
  pub failed : Bool
  pub golden : Bool

-- The base value, and whether a risky crop failed.
unfoldable pub roll_base : State → Crop → (ℤ × Bool) × State
roll_base s crop =
    let (r, s') = roll100 s in
    if str_eq crop.archetype "risky"
    then (
      if ltb_ℤ r crop.fail_chance_pct
          then (salvage_base s' crop, true)
          else (crop.sell_value, false),
      s',
    )
    else ((crop.sell_value, false), s)

-- The golden harvest: the payout times the multiplier, in tenths.
unfoldable pub roll_golden : State → Content → ℤ → (ℤ × Bool) × State
roll_golden s c payout =
    let (r, s') = roll100 s in
    let mult =
      if ltb_ℤ c.golden_harvest.multiplier (pos 10) then pos 10 else c.golden_harvest.multiplier in
    if ltb_ℤ (pos 0) c.golden_harvest.chance_pct
    then (
      if ltb_ℤ r c.golden_harvest.chance_pct
          then (payout ⊗ mult ⊘ pos 10, true)
          else (payout, false),
      s',
    )
    else ((payout, false), s)

-- The lucky find.
unfoldable pub roll_discovery : State → Content → ℤ × State
roll_discovery s c =
    let (r, s') = roll100 s in
    let found = roll_range s' c.flavor.discovery_min c.flavor.discovery_max in
    if c.flavor.enabled && s.flavor_enabled && ltb_ℤ (pos 0) c.flavor.discovery_chance_pct
    then if ltb_ℤ r c.flavor.discovery_chance_pct then found else (pos 0, s')
    else (pos 0, s)

unfoldable pub harvest_payout : State → Content → Crop → Payout × State
harvest_payout s c crop =
    let (based, s₁) = roll_base s crop in
    let sold = sell_multiplied s₁ c based.0 crop.id in
    let (gilded, s₂) = roll_golden s₁ c sold in
    let (discovery, s₃) = roll_discovery s₂ c in
    (record { payout = gilded.0; discovery = discovery; failed = based.1; golden = gilded.1 }, s₃)

unfoldable pub expected_payout : State → Content → Crop → ℤ
expected_payout s c crop =
    let fail_pct = crop.fail_chance_pct in
    let success_pct = pos 100 ⊖ fail_pct in
    let base = (fail_pct ⊗ salvage_base s crop ⊕ success_pct ⊗ crop.sell_value) ⊘ pos 100 in
    if str_eq crop.archetype "risky"
    then sell_multiplied s c base crop.id
    else sell_multiplied s c crop.sell_value crop.id

-- The lines that follow the payout in `Harvest` and in the loop of `Advance`.
unfoldable pub bank_harvest : Payout → State → State
bank_harvest paid s =
    let s₁ = credit s paid.payout in
    let s₂ = if ltb_ℤ (pos 0) paid.discovery then credit s₁ paid.discovery else s₁ in
    record s₂ { lifetime_harvests = sat_add s₂.lifetime_harvests (pos 1) }
