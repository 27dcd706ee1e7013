-- ===== src/Sim/Solvent/Payouts.antt =====
-- Rolling a harvest moves only the random stream, and what it pays is an int64.
use ssh_idlefarmer.Content.{Content, Crop}
use ssh_idlefarmer.Sim.Bonus.{sell_multiplied, apply_bonus, sell_bonus, salvage_base}
use ssh_idlefarmer.Sim.Payout.{
  roll_base, roll_golden, roll_discovery, harvest_payout, bank_harvest, Payout,
}
use ssh_idlefarmer.Sim.State.{
  State, roll_range, roll100, next_rand, salvage_numerator, seed_upgrade_level, credit,
}
use ssh_idlefarmer.Sim.Solvent.Balances.{
  Solvent, roll100-Solvent, roll_range-Solvent, credit-Solvent, sat_add-NonNeg,
}
use ssh_idlefarmer.Prelude.{
  pos, pos, InRange, ℤ, String, arith, ⊕-InRange, ⊘-InRange, ◌⊗◌, of_bits, ◌%◌, ◌⊕◌, to_bits, ◌⊖◌,
}

pub roll_range-InRange : (s : State) (lo hi : ℤ) → InRange lo → InRange (roll_range s lo hi).0
unfolding roll_range
roll_range-InRange s lo hi h =
    ground (arith, ⊕-InRange lo (of_bits ((next_rand s).0 % to_bits (hi ⊖ lo ⊕ pos 1))))

pub sell_multiplied-InRange :
    (s : State) (c : Content) (base : ℤ) (id : String)
    → InRange base
    → InRange (sell_multiplied s c base id)
unfolding sell_multiplied apply_bonus
sell_multiplied-InRange s c base id h =
    ground (arith, ⊘-InRange (base ⊗ (pos 100 ⊕ sell_bonus s c id)) (pos 100))

roll_base-InRange :
    (s : State) (crop : Crop) → InRange crop.sell_value → InRange (roll_base s crop).0.0
unfolding roll_base salvage_base
roll_base-InRange s crop h =
    let n = salvage_numerator (seed_upgrade_level (roll100 s).1 crop.id) in
    ground (arith, ⊘-InRange (crop.sell_value ⊗ n) (pos 8))

roll_golden-InRange :
    (s : State) (c : Content) (x : ℤ) → InRange x → InRange (roll_golden s c x).0.0
unfolding roll_golden
roll_golden-InRange s c x h =
    ground
      (arith, ⊘-InRange (x ⊗ pos 10) (pos 10), ⊘-InRange (x ⊗ c.golden_harvest.multiplier) (pos 10))

roll_discovery-InRange :
    (s : State) (c : Content) → InRange c.flavor.discovery_min → InRange (roll_discovery s c).0
unfolding roll_discovery
roll_discovery-InRange s c h =
    ground (arith, roll_range-InRange (roll100 s).1 c.flavor.discovery_min c.flavor.discovery_max h)

roll_base-Solvent : (s : State) (crop : Crop) → Solvent s → Solvent (roll_base s crop).1
unfolding roll_base
roll_base-Solvent s crop h = ground (arith, roll100-Solvent s h)

roll_golden-Solvent : (s : State) (c : Content) (x : ℤ) → Solvent s → Solvent (roll_golden s c x).1
unfolding roll_golden
roll_golden-Solvent s c x h = ground (arith, roll100-Solvent s h)

roll_discovery-Solvent : (s : State) (c : Content) → Solvent s → Solvent (roll_discovery s c).1
unfolding roll_discovery
roll_discovery-Solvent s c h = ground (
  arith,
  roll100-Solvent s h,
  roll_range-Solvent (roll100 s).1 c.flavor.discovery_min c.flavor.discovery_max,
)

pub harvest_payout-Solvent :
    (s : State) (c : Content) (crop : Crop) → Solvent s → Solvent (harvest_payout s c crop).1
unfolding harvest_payout
harvest_payout-Solvent s c crop h =
    let s₁ = (roll_base s crop).1 in
    let sold = sell_multiplied s₁ c (roll_base s crop).0.0 crop.id in
    roll_discovery-Solvent (roll_golden s₁ c sold).1 c
      (roll_golden-Solvent s₁ c sold (roll_base-Solvent s crop h))

pub harvest_payout-InRange :
    (s : State) (c : Content) (crop : Crop)
    → InRange crop.sell_value
    → InRange c.flavor.discovery_min
    → InRange (harvest_payout s c crop).0.payout × InRange (harvest_payout s c crop).0.discovery
unfolding harvest_payout
harvest_payout-InRange s c crop h k =
    let s₁ = (roll_base s crop).1 in
    let base = (roll_base s crop).0.0 in
    let sold = sell_multiplied s₁ c base crop.id in
    (
      roll_golden-InRange s₁ c sold
          (sell_multiplied-InRange s₁ c base crop.id (roll_base-InRange s crop h)),
      roll_discovery-InRange (roll_golden s₁ c sold).1 c k,
    )

pub bank_harvest-Solvent :
    (paid : Payout) (s : State)
    → InRange paid.payout
    → InRange paid.discovery
    → Solvent s
    → Solvent (bank_harvest paid s)
unfolding bank_harvest
bank_harvest-Solvent paid s hp hd h =
    let h₁ = credit-Solvent s paid.payout hp h in
    let s₁ = credit s paid.payout in
    let h₂ = credit-Solvent s₁ paid.discovery hd h₁ in
    let s₂ = credit s₁ paid.discovery in
    ground (
      arith,
      h₁,
      h₂,
      sat_add-NonNeg s₁.lifetime_harvests (pos 1) h₁.harvests_ok,
      sat_add-NonNeg s₂.lifetime_harvests (pos 1) h₂.harvests_ok,
    )
