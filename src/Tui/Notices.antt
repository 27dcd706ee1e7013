-- ===== src/Tui/Notices.antt =====
-- internal/tui/game.go: `applyAction`, the notices of achievements and events, and the actions that
-- several keys share. Where the code iterates over a map, the order of the list is taken.
use ssh_idlefarmer.Prelude.{
  false, pos, suc, none, some, [], ◌∷◌, true, false, Option, ℕ, String, ℤ, List, Bool,
  if◌then◌else◌, ltb_ℤ, ltb, not, eqb_ℤ, Dict, str_eq, ◌⊕◌,
}
use ssh_idlefarmer.Game.Intents.{Intent}
use ssh_idlefarmer.Sim.Field
use ssh_idlefarmer.Sim.Gifts
use ssh_idlefarmer.Sim.Gifts.{GiftResult}
use ssh_idlefarmer.Sim.Outcome.{ok, ok, err, Outcome}
use ssh_idlefarmer.Content.{Content, Event, crop_by_id, Achievement, event_by_id}
use ssh_idlefarmer.Tui.Model.{
  Ui, parcel_coins, ready, Text, add_notice, with_session, event_news, visited, refused_with,
  golden_harvest, auto_gathered, achieved, parcel_starseeds, harvested_plots, harvested,
  golden_count, failed_harvest, nothing_ready, failed_away, gift_waits,
}
use ssh_idlefarmer.Sim.Field.{HarvestResult}
use ssh_idlefarmer.Game.Actor.{Reply, intent, tick}
use ssh_idlefarmer.Sim.Events.{Events}
use ssh_idlefarmer.Sim.State.{State, Plot, seed_upgrade_level}
use ssh_idlefarmer.Sim.Bonus.{plot_ready}

-- The result of an accepted action, which the code hands on beside the error.
abbrev pub result_of : {A : Type 0} → Outcome A → Option A
result_of (ok a, s) = some a
result_of (err e, s) = none

module _ (float_sqrt : ℕ → ℕ) (c : Content) where
  -- The inner loop of `achievementNotices`.
  abbrev pub name_achievement : String → List Achievement → Ui → Ui
  name_achievement id [] u = u
  name_achievement id (a ∷ goals) u =
      name_achievement id goals (if str_eq a.id id then add_notice (achieved a.name) u else u)

  abbrev pub achievement_notices : List String → Ui → Ui
  achievement_notices [] u = u
  achievement_notices (id ∷ ids) u = achievement_notices ids (name_achievement id c.achievements u)

  abbrev pub crop_name : String → String
  crop_name id = elim (crop_by_id c id) [ none ↦ id | some crop ↦ crop.name ]

  -- A loop over a map of counters by crop.
  abbrev pub crop_notices : (String → ℤ → Text) → Dict ℤ → Ui → Ui
  crop_notices text [] u = u
  crop_notices text ((id, n) ∷ counts) u =
      crop_notices text counts (add_notice (text (crop_name id) n) u)

  abbrev pub critter_notices : List String → Ui → Ui
  critter_notices [] u = u
  critter_notices (kind ∷ kinds) u = critter_notices kinds (add_notice (visited kind) u)

  abbrev pub notice_if : Bool → Text → Ui → Ui
  notice_if b t u = if b then add_notice t u else u

  abbrev pub event_notice : Option Event → Ui → Ui
  event_notice none u = u
  event_notice (some e) u = add_notice (event_news e.name e.description) u

  unfoldable pub event_notices : Events → Ui → Ui
  event_notices ev u =
      let u₁ = crop_notices ready ev.matured u in
      let u₂ = notice_if (ltb_ℤ (pos 0) ev.auto_coins) (auto_gathered ev.auto_coins) u₁ in
      let u₃ = notice_if (ltb_ℤ (pos 0) ev.golden_harvests) (golden_count ev.golden_harvests) u₂ in
      let u₄ = crop_notices failed_away ev.failed_harvests u₃ in
      let u₅ = notice_if ev.gift_arrived gift_waits u₄ in
      let news = if str_eq ev.event_started "" then none else event_by_id c ev.event_started in
      let u₆ = event_notice news u₅ in
      achievement_notices ev.achievements (critter_notices ev.critter_visits u₆)

  -- `applyAction`, on the reply of a session that runs; true is no error.
  unfoldable pub apply_action : Reply → Ui → Bool × Ui
  apply_action r u = elim r.error [
    | some e ↦ (false, add_notice (refused_with e) u)
    | none ↦ (true, achievement_notices r.newly u)
  ]

  -- A call of the session with `applyAction`. A session that is closed changes nothing.
  unfoldable pub act : Intent → Ui → Bool × Ui
  unfolding apply_action
  act i u = elim u.session [
    | none ↦ (false, u)
    | some v ↦ let (r, v') = intent float_sqrt c u.now i v in apply_action r (with_session v' u)
  ]

  -- `act`, and a notice if it succeeds.
  unfoldable pub act_then : Intent → (Ui → Text) → Ui → Ui
  unfolding act
  act_then i text u = let (fine, u') = act i u in if fine then add_notice (text u') u' else u'

  -- The state that an intent of the session starts from.
  abbrev pub advanced : Ui → State
  advanced u = elim u.session [ none ↦ u.snap | some v ↦ (tick c u.now v).1.state ]

  abbrev pub parcel_text : Option GiftResult → Text
  parcel_text none = parcel_coins (pos 0)
  parcel_text (some res) =
      if ltb_ℤ (pos 0) res.starseeds then parcel_starseeds res.starseeds else parcel_coins res.coins

  -- `redeemGift`
  unfoldable pub open_parcel : Ui → Ui
  unfolding act_then
  open_parcel u =
      let res = result_of (Gifts.redeem_gift float_sqrt (advanced u) c) in
      act_then Intent.redeem_gift (λ u'. parcel_text res) u

  abbrev pub salvage_fraction_label : ℤ → String
  salvage_fraction_label level =
      if eqb_ℤ level (pos 0)
      then "1/8"
      else if eqb_ℤ level (pos 1)
      then "1/4"
      else if eqb_ℤ level (pos 2)
      then "1/2"
      else "3/4"

  -- The notice of `doHarvest`; `u` is the screen after the harvest.
  unfoldable pub harvest_text : HarvestResult → Ui → Text
  harvest_text res u = elim (crop_by_id c res.crop_id) [
    | none ↦
        if res.golden
        then golden_harvest res.crop_id res.payout
        else harvested res.crop_id res.payout res.discovery
    | some crop ↦
        if res.golden
        then golden_harvest crop.name res.payout
        else if res.failed
        then failed_harvest crop.name res.payout
            (salvage_fraction_label (seed_upgrade_level u.snap crop.id))
        else harvested crop.name res.payout res.discovery
  ]

  abbrev pub no_harvest : HarvestResult
  no_harvest = record {
    crop_id = "";
    payout = pos 0;
    discovery = pos 0;
    failed = false;
    golden = false;
  }

  abbrev pub or_no_harvest : Option HarvestResult → HarvestResult
  or_no_harvest none = no_harvest
  or_no_harvest (some res) = res

  unfoldable pub do_harvest : ℕ → Ui → Ui
  unfolding act_then harvest_text
  do_harvest i u =
      let res = or_no_harvest (result_of (Field.harvest (advanced u) c (pos i) u.now)) in
      act_then (Intent.harvest (pos i)) (harvest_text res) u

  -- One round of `harvestAllReady`, which asks the snapshot of before the loop what is ready. A round
  -- that is refused leaves the snapshot and gives no notice.
  unfoldable pub harvest_if_ready : State → ℕ → (ℤ × ℕ) × Ui → (ℤ × ℕ) × Ui
  harvest_if_ready st i ((total, count), u) =
      let res = or_no_harvest (result_of (Field.harvest (advanced u) c (pos i) u.now)) in
      if not (plot_ready st c (pos i) u.now) then ((total, count), u) else elim u.session [
        | none ↦ ((total, count), u)
        | some v ↦
            let (r, v') = intent float_sqrt c u.now (Intent.harvest (pos i)) v in
            elim r.error [
              | some e ↦ ((total, count), record u { session = some v' })
              | none ↦ (
                (total ⊕ (res.payout ⊕ res.discovery), suc count),
                achievement_notices r.newly (with_session v' u),
              )
            ]
      ]

  -- The rounds from plot `i` on.
  unfoldable pub harvest_from : State → List Plot → ℕ → (ℤ × ℕ) × Ui → (ℤ × ℕ) × Ui
  unfolding harvest_if_ready
  harvest_from st [] i w = w
  harvest_from st (p ∷ ps) i w = harvest_from st ps (suc i) (harvest_if_ready st i w)

  unfoldable pub harvest_all_ready : Ui → Ui
  unfolding harvest_from
  harvest_all_ready u =
      let ((total, count), u') = harvest_from u.snap u.snap.plots 0 ((pos 0, 0), u) in
      add_notice (if ltb 0 count then harvested_plots count total else nothing_ready) u'
