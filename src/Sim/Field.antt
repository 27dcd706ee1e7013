-- ===== src/Sim/Field.antt =====
-- internal/sim/actions.go: planting and harvesting.
use ssh_idlefarmer.Prelude.{
  false, true, String, Bool, not, ◌&&◌, Option, none, some, if◌then◌else◌, str_eq, ℤ, ◌⊕◌, ◌⊖◌,
  ltb_ℤ,
}
use ssh_idlefarmer.Content.{Content, Crop, crop_by_id}
use ssh_idlefarmer.Sim.State.{State, Plot, empty_plot}
use ssh_idlefarmer.Sim.Unlocks.{unlocked, plot_at}
use ssh_idlefarmer.Sim.Bonus.{
  seed_cost, mercy_plant_eligible, grow_seconds, apply_bonus, sell_bonus,
}
use ssh_idlefarmer.Sim.Payout.{harvest_payout, bank_harvest, roll_base}
use ssh_idlefarmer.Sim.Outcome.{
  Outcome, ok, err, put_plot, unknown_plot, plot_occupied, plot_empty, not_mature, unknown_crop,
  locked, cant_afford,
}

-- `Plant`, from the lookup of the crop on.
unfoldable pub plant_crop :
    State → Content → ℤ → Plot → String → ℤ → Option Crop → Outcome (Unit {0})
plant_crop s c i plot crop_id now none = (err unknown_crop, s)
plant_crop s c i plot crop_id now (some crop) =
    let cost = seed_cost s c crop in
    let mercy = mercy_plant_eligible s c crop_id in
    let s' = if mercy then s else record s { coins = s.coins ⊖ cost } in
    let planted : Plot = record {
      crop = crop_id;
      planted_at = now;
      auto_harvest = plot.auto_harvest;
      auto_sow = plot.auto_sow;
      critter = "";
    } in
    if not (unlocked s crop.unlock)
    then (err locked, s)
    else if not mercy && ltb_ℤ s.coins cost
    then (err cant_afford, s)
    else (ok tt, put_plot s' i planted)

unfoldable pub plant : State → Content → ℤ → String → ℤ → Outcome (Unit {0})
unfolding plant_crop
plant s c i crop_id now = elim (plot_at s i) [
  | none ↦ (err unknown_plot, s)
  | some plot ↦
      if not (str_eq plot.crop "")
      then (err plot_occupied, s)
      else plant_crop s c i plot crop_id now (crop_by_id c crop_id)
]

pub record HarvestResult : Type 0 where
  pub crop_id : String
  pub payout : ℤ
  pub discovery : ℤ
  pub failed : Bool
  pub golden : Bool

-- `Harvest`, from the payout on.
unfoldable pub gather : State → Content → ℤ → Plot → Crop → Outcome HarvestResult
gather s c i plot crop =
    let (paid, s₁) = harvest_payout s c crop in
    (
      ok (record {
        crop_id = crop.id;
        payout = paid.payout;
        discovery = paid.discovery;
        failed = paid.failed;
        golden = paid.golden;
      }),
      put_plot (bank_harvest paid s₁) i
          (record empty_plot { auto_harvest = plot.auto_harvest; auto_sow = plot.auto_sow }),
    )

unfoldable pub harvest_crop : State → Content → ℤ → Plot → ℤ → Option Crop → Outcome HarvestResult
harvest_crop s c i plot now none = (err unknown_crop, s)
harvest_crop s c i plot now (some crop) =
    if ltb_ℤ now (plot.planted_at ⊕ grow_seconds s c crop)
    then (err not_mature, s)
    else gather s c i plot crop

-- `Harvest`, where its payout has a value; `call_harvest` is the whole of it.
unfoldable pub harvest : State → Content → ℤ → ℤ → Outcome HarvestResult
unfolding harvest_crop
harvest s c i now = elim (plot_at s i) [
  | none ↦ (err unknown_plot, s)
  | some plot ↦
      if str_eq plot.crop ""
      then (err plot_empty, s)
      else harvest_crop s c i plot now (crop_by_id c plot.crop)
]

-- Whether the payout of a crop divides by zero.
unfoldable pub payout_panics : State → Content → Option Crop → Bool
payout_panics s c none = false
payout_panics s c (some crop) =
    let (based, s₁) = roll_base s crop in
    elim (apply_bonus based.0 (sell_bonus s₁ c crop.id)) [ none ↦ true | some paid ↦ false ]

-- A call of `Harvest`, which comes to no end where the payout that it gets to divides by zero.
unfoldable pub call_harvest : State → Content → ℤ → ℤ → Option (Outcome HarvestResult)
call_harvest s c i now =
    let (answer, t) = harvest s c i now in
    elim answer [
      | err e ↦ some (err e, t)
      | ok r ↦ elim (plot_at s i) [
        | none ↦ some (ok r, t)
        | some plot ↦ if payout_panics s c (crop_by_id c plot.crop) then none else some (ok r, t)
      ]
    ]
