-- ===== src/Tui/Runs.antt =====
-- Every key of internal/tui/game.go but a runs at most one intent of the session.
use ssh_idlefarmer.Sim.Field
use ssh_idlefarmer.Sim.Gifts
use ssh_idlefarmer.Game.Intents.{Intent}
use ssh_idlefarmer.Prelude.{
  inl, pos, inl, inr, some, none, ℕ, ℤ, Option, ◌≡◌, Option-cases, get_elem?, arith, ◌⊎◌, String,
  ◌⊕◌, ◌⊖◌, if◌then◌else◌,
}
use ssh_idlefarmer.Content.{Content, crop_by_id}
use ssh_idlefarmer.Tui.Model.{
  Ui, Text, with_session, refused_with, shooed, tilled, still_growing, no_overlay, planted_free,
  planted,
}
use ssh_idlefarmer.Tui.Notices.{
  act, apply_action, act_then, open_parcel, do_harvest, result_of, or_no_harvest, advanced,
  parcel_text, harvest_text,
}
use ssh_idlefarmer.Tui.Keys.{shoo, use_plot, handle_land_key, shoo_reward, plot_price, plant_chosen}
use ssh_idlefarmer.Game.Actor.{Save, Reply, intent}
use ssh_idlefarmer.Tui.Quiet.{achievement_notices-IsQuiet, add_notice-IsQuiet}
use ssh_idlefarmer.Sim.Bonus.{grow_seconds, mercy_plant_eligible}
use ssh_idlefarmer.Sim.Unlocks.{visible_crops}

module _ (float_sqrt : ℕ → ℕ) (c : Content) where
  -- The session after an intent.
  abbrev pub served : Intent → ℤ → Option Save → Option Save
  served i now none = none
  served i now (some v) = some (intent float_sqrt c now i v).1

  apply_action-session :
      (r : Reply) (u : Ui) → (apply_action float_sqrt c r u).1.session ≡ u.session
  unfolding apply_action
  apply_action-session r u = elim (Option-cases r.error) [
    | inl e ↦ ground (arith, e, achievement_notices-IsQuiet float_sqrt c r.newly u)
    | inr (x, e) ↦ ground (arith, e, add_notice-IsQuiet (refused_with x) u)
  ]

  pub act-session :
      (i : Intent) (u : Ui) → (act float_sqrt c i u).1.session ≡ served i u.now u.session
  unfolding act
  act-session i u = elim (Option-cases u.session) [
    | inl e ↦ ground (arith, e)
    | inr (v, e) ↦
        let (r, v') = intent float_sqrt c u.now i v in
        ground (arith, e, apply_action-session r (with_session v' u))
  ]

  pub act_then-session :
      (i : Intent) (text : Ui → Text) (u : Ui)
      → (act_then float_sqrt c i text u).session ≡ served i u.now u.session
  unfolding act_then
  act_then-session i text u =
      let u' = (act float_sqrt c i u).1 in
      ground (arith, act-session i u, add_notice-IsQuiet (text u') u')

  -- A step that keeps the session, or runs one intent.
  abbrev pub RunsAtMost : Intent → Ui → Ui → Type 0
  RunsAtMost i u t = (t.session ≡ u.session) ⊎ (t.session ≡ served i u.now u.session)

  pub shoo-Runs : (u : Ui) → RunsAtMost (Intent.shoo_critter (pos u.cursor)) u (shoo float_sqrt c u)
  unfolding shoo
  shoo-Runs u = elim (Option-cases (get_elem? u.snap.plots u.cursor)) [
    | inl e ↦ ground (arith, e)
    | inr (plot, e) ↦
        let text : Ui → Text = λ u'. shooed plot.critter (shoo_reward float_sqrt c u) in
        ground (arith, e, act_then-session (Intent.shoo_critter (pos u.cursor)) text u)
  ]

  pub do_harvest-session :
      (i : ℕ) (u : Ui)
      → (do_harvest float_sqrt c i u).session ≡ served (Intent.harvest (pos i)) u.now u.session
  unfolding do_harvest
  do_harvest-session i u =
      let res =
        or_no_harvest float_sqrt c
          (result_of (Field.harvest (advanced float_sqrt c u) c (pos i) u.now)) in
      act_then-session (Intent.harvest (pos i)) (harvest_text float_sqrt c res) u

  pub use_plot-Runs :
      (u : Ui) → RunsAtMost (Intent.harvest (pos u.cursor)) u (use_plot float_sqrt c u)
  unfolding use_plot
  use_plot-Runs u = elim (Option-cases (get_elem? u.snap.plots u.cursor)) [
    | inl e ↦ ground (arith, e)
    | inr (plot, e) ↦ elim (Option-cases (crop_by_id c plot.crop)) [
      | inl e' ↦ ground (arith, e, e', do_harvest-session u.cursor u)
      | inr (crop, e') ↦
          let left = plot.planted_at ⊕ grow_seconds u.snap c crop ⊖ u.now in
          ground
            (arith, e, e', do_harvest-session u.cursor u, add_notice-IsQuiet (still_growing left) u)
    ]
  ]

  pub open_parcel-session :
      (u : Ui) → (open_parcel float_sqrt c u).session ≡ served Intent.redeem_gift u.now u.session
  unfolding open_parcel
  open_parcel-session u =
      let res = result_of (Gifts.redeem_gift float_sqrt (advanced float_sqrt c u) c) in
      act_then-session Intent.redeem_gift (λ u'. parcel_text float_sqrt c res) u

  pub handle_land_key-Runs :
      (key : String) (u : Ui) → RunsAtMost Intent.buy_plot u (handle_land_key float_sqrt c key u)
  unfolding handle_land_key
  handle_land_key-Runs key u =
      let text : Ui → Text = λ u'. tilled (plot_price float_sqrt c u) in
      ground (arith, act_then-session Intent.buy_plot text u)

  abbrev pub chosen_crop : Ui → String
  chosen_crop u = elim (get_elem? (visible_crops u.snap c.crops) u.picker_idx) [
    | none ↦ ""
    | some crop ↦ crop.id
  ]

  pub plant_chosen-Runs :
      (u : Ui)
      → RunsAtMost (Intent.plant (pos u.cursor) (chosen_crop u)) u (plant_chosen float_sqrt c u)
  unfolding plant_chosen
  plant_chosen-Runs u =
      elim (Option-cases (get_elem? (visible_crops u.snap c.crops) u.picker_idx)) [
        | inl e ↦ inl (ground (arith, e))
        | inr (crop, e) ↦
            let u' = (act float_sqrt c (Intent.plant (pos u.cursor) crop.id) u).1 in
            let closed = record u' { overlay = no_overlay } in
            let text =
              if mercy_plant_eligible u.snap c crop.id
              then planted_free crop.name
              else planted crop.name in
            let session = act-session (Intent.plant (pos u.cursor) crop.id) u in
            inr (ground (arith, e, session, add_notice-IsQuiet text closed))
      ]
