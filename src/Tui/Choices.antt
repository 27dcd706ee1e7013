-- ===== src/Tui/Choices.antt =====
-- The menus of internal/tui/game.go: each key runs at most one intent of the session.
use ssh_idlefarmer.Game.Intents.{Intent}
use ssh_idlefarmer.Tui.Model.{called}
use ssh_idlefarmer.Tui.Runs.{RunsAtMost, served, act-session, act_then-session}
use ssh_idlefarmer.Prelude.{
  inl, pos, inl, inr, some, none, suc, ℕ, Bool, String, get_elem?, Option-cases, ◌≡◌, not, ◌⊎◌,
  arith, if◌then◌else◌,
}
use ssh_idlefarmer.Content.{Content}
use ssh_idlefarmer.Tui.Keys.{
  handle_rebirth_confirm_key, handle_rebirth_key, handle_upgrade_key, handle_market_key,
  handle_progress_key, market_items, purchase, rebirth_gain,
}
use ssh_idlefarmer.Tui.Model.{
  Ui, no_overlay, Text, auto_harvests, now_level, needs_earnings, bought, session_closed, reborn,
  with_session, auto_sows, finds_enabled, finds_disabled, refused_with,
}
use ssh_idlefarmer.Tui.Screens.{
  handle_stats_key, handle_name_key, rename_farm, toggle_finds, type_rune, Key,
}
use ssh_idlefarmer.Tui.Notices.{act}
use ssh_idlefarmer.Game.Actor.{intent}
use ssh_idlefarmer.Tui.Quiet.{add_notice-IsQuiet}
use ssh_idlefarmer.Sim.State.{upgrade_level}

module _ (float_sqrt : ℕ → ℕ) (c : Content) where
  pub handle_upgrade_key-session :
      (key : String) (u : Ui)
      → let t = handle_upgrade_key float_sqrt c key u in
        (t.session ≡ u.session)
        ⊎ (t.session
            ≡ served float_sqrt c
                (Intent.upgrade_plot_auto (pos u.upgrade_idx) "harvest")
                u.now
                u.session)
        ⊎ (t.session
            ≡ served float_sqrt c
                (Intent.upgrade_plot_auto (pos u.upgrade_idx) "sow")
                u.now
                u.session)
  unfolding handle_upgrade_key
  handle_upgrade_key-session key u =
      let harvests = Intent.upgrade_plot_auto (pos u.upgrade_idx) "harvest" in
      let sows = Intent.upgrade_plot_auto (pos u.upgrade_idx) "sow" in
      let first : Ui → Text = λ u'. auto_harvests (suc u.upgrade_idx) in
      let then_sow : Ui → Text = λ u'. auto_sows (suc u.upgrade_idx) in
      ground (
        arith,
        act_then-session float_sqrt c harvests first u,
        act_then-session float_sqrt c sows then_sow u,
      )

  abbrev pub chosen_purchase : Ui → Intent
  chosen_purchase u = elim (get_elem? (market_items c) u.market_idx) [
    | none ↦ Intent.buy_plot
    | some it ↦ purchase it
  ]

  -- In every state, a key on the market leaves the session's save as it is, or runs one intent on
  -- it: the purchase of the item under the cursor.
  handle_market_key-Runs :
      (key : String) (u : Ui)
      → RunsAtMost float_sqrt c (chosen_purchase u) u (handle_market_key float_sqrt c key u)
  unfolding handle_market_key
  handle_market_key-Runs key u = elim (Option-cases (get_elem? (market_items c) u.market_idx)) [
    | inl e ↦ inl (ground (arith, e))
    | inr (it, e) ↦
        let text : Ui → Text = λ u'. bought it.name in
        ground (arith, e, act_then-session float_sqrt c (purchase it) text u)
  ]

  pub handle_rebirth_key-session :
      (key : String) (u : Ui) → (handle_rebirth_key float_sqrt c key u).session ≡ u.session
  unfolding handle_rebirth_key
  handle_rebirth_key-session key u =
      ground
        (arith, add_notice-IsQuiet (needs_earnings c.prestige.min_earnings u.snap.run_earnings) u)

  abbrev pub chosen_upgrade : Ui → String
  chosen_upgrade u = elim (get_elem? c.upgrades u.progress_idx) [ none ↦ "" | some up ↦ up.id ]

  pub handle_progress_key-Runs :
      (key : String) (u : Ui)
      → RunsAtMost float_sqrt c
          (Intent.buy_upgrade (chosen_upgrade u))
          u
          (handle_progress_key float_sqrt c key u)
  unfolding handle_progress_key
  handle_progress_key-Runs key u = elim (Option-cases (get_elem? c.upgrades u.progress_idx)) [
    | inl e ↦ inl (ground (arith, e))
    | inr (up, e) ↦
        let text : Ui → Text = λ u'. now_level up.name (upgrade_level u'.snap up.id) in
        ground (arith, e, act_then-session float_sqrt c (Intent.buy_upgrade up.id) text u)
  ]

  pub handle_rebirth_confirm_key-Runs :
      (key : String) (u : Ui)
      → RunsAtMost float_sqrt c Intent.rebirth u (handle_rebirth_confirm_key float_sqrt c key u)
  unfolding handle_rebirth_confirm_key
  handle_rebirth_confirm_key-Runs key u =
      let u' = (act float_sqrt c Intent.rebirth u).1 in
      let closed = record u' { overlay = no_overlay } in
      ground (
        arith,
        act-session float_sqrt c Intent.rebirth u,
        add_notice-IsQuiet (reborn (rebirth_gain float_sqrt c u)) (record closed { cursor = 0 }),
      )

module _ (float_sqrt : ℕ → ℕ) (c : Content) (is_print : ℕ → Bool) (max_scroll : Ui → ℕ) where
  pub toggle_finds-session :
      (u : Ui)
      → (toggle_finds float_sqrt c is_print max_scroll u).session
        ≡ served float_sqrt c (Intent.set_flavor (not u.snap.flavor_enabled)) u.now u.session
  unfolding toggle_finds
  toggle_finds-session u = elim (Option-cases u.session) [
    | inl e ↦ ground (arith, e)
    | inr (v, e) ↦
        let enabled = not u.snap.flavor_enabled in
        let v' = (intent float_sqrt c u.now (Intent.set_flavor enabled) v).1 in
        let text = if enabled then finds_enabled else finds_disabled in
        ground (arith, e, add_notice-IsQuiet text (with_session v' u))
  ]

  pub rename_farm-session :
      (u : Ui)
      → (rename_farm float_sqrt c is_print max_scroll u).session
        ≡ served float_sqrt c (Intent.set_farm_name u.name_input) u.now u.session
  unfolding rename_farm
  rename_farm-session u = elim (Option-cases u.session) [
    | inl e ↦ ground (arith, e, add_notice-IsQuiet session_closed u)
    | inr (v, e) ↦
        let (r, v') = intent float_sqrt c u.now (Intent.set_farm_name u.name_input) v in
        let kept = record u { session = some v' } in
        let named = record (with_session v' u) { overlay = no_overlay } in
        elim (Option-cases r.error) [
          | inl e' ↦ ground (arith, e, e', add_notice-IsQuiet (called u.name_input) named)
          | inr (x, e') ↦ ground (arith, e, e', add_notice-IsQuiet (refused_with x) kept)
        ]
  ]

  pub handle_name_key-Runs :
      (key : Key) (u : Ui)
      → RunsAtMost float_sqrt c
          (Intent.set_farm_name u.name_input)
          u
          (handle_name_key float_sqrt c is_print max_scroll key u)
  unfolding handle_name_key type_rune
  handle_name_key-Runs key u = ground (arith, rename_farm-session u)

  pub handle_stats_key-Runs :
      (key : String) (u : Ui)
      → RunsAtMost float_sqrt c
          (Intent.set_flavor (not u.snap.flavor_enabled))
          u
          (handle_stats_key float_sqrt c is_print max_scroll key u)
  unfolding handle_stats_key
  handle_stats_key-Runs key u = ground (arith, toggle_finds-session u)
