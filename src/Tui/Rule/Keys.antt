-- ===== src/Tui/Rule/Keys.antt =====
-- The rule of Tui/Rule for the keys of each screen and overlay.
use ssh_idlefarmer.Sim.Field
use ssh_idlefarmer.Sim.Gifts
use ssh_idlefarmer.Game.Intents.{Intent}
use ssh_idlefarmer.Tui.Rule.{
  Stable, both_branches, both_cases, act_then-keeps, SameCore, harvest_if_ready-keeps, act-keeps,
}
use ssh_idlefarmer.Prelude.{
  refl, refl, [], ◌∷◌, suc, pos, true, false, ℕ, Bool, ◌≡◌, arith, String, List, ℤ, get_elem?,
  str_eq, leb, ltb, ◌+◌, length, ltb_ℤ, not,
}
use ssh_idlefarmer.Tui.Keys.{
  MarketItem, purchase, shoo, use_plot, handle_farm_key, shoo_reward, farm_columns, is_key,
  confirms, handle_upgrade_key, handle_market_key, handle_rebirth_key, plant_chosen,
  handle_land_key, handle_progress_key, handle_picker_key, ups, buys, downs, market_items,
  plot_price,
}
use ssh_idlefarmer.Content.{Content, crop_by_id}
use ssh_idlefarmer.Tui.Model.{
  Ui, Text, shooed, tilled, needs_earnings, auto_harvests, now_level, no_overlay, auto_sows, bought,
}
use ssh_idlefarmer.Tui.Notices.{
  do_harvest, harvest_all_ready, harvest_from, open_parcel, act_then, harvest_if_ready,
  or_no_harvest, result_of, parcel_text, harvest_text, advanced, act,
}
use ssh_idlefarmer.Sim.State.{State, Plot, upgrade_level}
use ssh_idlefarmer.Sim.Bonus.{plot_ready}
use ssh_idlefarmer.Sim.Unlocks.{visible_crops}
use ssh_idlefarmer.Sim.Prices.{can_rebirth}

-- Every intent but the rebirth.
abbrev pub is_gentle : Intent → Bool
is_gentle (Intent.plant i id) = true
is_gentle (Intent.harvest i) = true
is_gentle Intent.buy_plot = true
is_gentle (Intent.buy_zone id) = true
is_gentle (Intent.buy_multiplier id) = true
is_gentle (Intent.buy_seed_upgrade id) = true
is_gentle (Intent.upgrade_plot_auto i kind) = true
is_gentle (Intent.buy_upgrade id) = true
is_gentle Intent.redeem_gift = true
is_gentle (Intent.shoo_critter i) = true
is_gentle (Intent.set_farm_name name) = true
is_gentle Intent.rebirth = false
is_gentle (Intent.set_flavor enabled) = true

purchase-gentle : (it : MarketItem) → is_gentle (purchase it) ≡ true
purchase-gentle it = ground arith

module _ (float_sqrt : ℕ → ℕ) (c : Content) (A : Intent → Type 0) (P : Ui → Type 0)
    (st : Stable float_sqrt c A P) (gentle : (i : Intent) → is_gentle i ≡ true → A i) where
  pub kept : (u t : Ui) → SameCore u t → P u → P t
  kept u t = st.moved u t

  runs :
      (i : Intent) (text : Ui → Text) (u : Ui)
      → is_gentle i ≡ true
      → P u
      → P (act_then float_sqrt c i text u)
  runs i text u g = act_then-keeps float_sqrt c A P st i text u (gentle i g)

  pub open_parcel-keeps : (u : Ui) → P u → P (open_parcel float_sqrt c u)
  unfolding open_parcel
  open_parcel-keeps u h =
      let res = result_of (Gifts.redeem_gift float_sqrt (advanced float_sqrt c u) c) in
      runs Intent.redeem_gift (λ u'. parcel_text float_sqrt c res) u refl h

  do_harvest-keeps : (i : ℕ) (u : Ui) → P u → P (do_harvest float_sqrt c i u)
  unfolding do_harvest
  do_harvest-keeps i u h =
      let res =
        or_no_harvest float_sqrt c
          (result_of (Field.harvest (advanced float_sqrt c u) c (pos i) u.now)) in
      runs (Intent.harvest (pos i)) (harvest_text float_sqrt c res) u refl h

  harvest_from-keeps :
      (s : State) (ps : List Plot) (i : ℕ) (w : (ℤ × ℕ) × Ui)
      → P w.1
      → P (harvest_from float_sqrt c s ps i w).1
  unfolding harvest_from
  harvest_from-keeps s [] i w h = h
  harvest_from-keeps s (p ∷ ps) i w h =
      harvest_from-keeps s ps (suc i) (harvest_if_ready float_sqrt c s i w)
        (harvest_if_ready-keeps float_sqrt c A P st s i w (gentle (Intent.harvest (pos i)) refl) h)

  harvest_all-keeps : (u : Ui) → P u → P (harvest_all_ready float_sqrt c u)
  unfolding harvest_all_ready
  harvest_all-keeps u h =
      st.noticed _ _ (harvest_from-keeps u.snap u.snap.plots 0 ((pos 0, 0), u) h)

  shoo-keeps : (u : Ui) → P u → P (shoo float_sqrt c u)
  unfolding shoo
  shoo-keeps u h = both_cases P (get_elem? u.snap.plots u.cursor) _ _ h (λ plot e.
      both_branches P (str_eq plot.critter "") _ _ h (
        runs (Intent.shoo_critter (pos u.cursor))
          (λ u'. shooed plot.critter (shoo_reward float_sqrt c u)) u refl h))

  use_plot-keeps : (u : Ui) → P u → P (use_plot float_sqrt c u)
  unfolding use_plot
  use_plot-keeps u h = both_cases P (get_elem? u.snap.plots u.cursor) _ _ h (λ plot e.
      both_branches P (str_eq plot.crop "") _ _ (kept u _ (refl, refl, refl, refl) h) (
        both_branches P (plot_ready u.snap c (pos u.cursor) u.now) _ _
          (do_harvest-keeps u.cursor u h)
          (both_cases P (crop_by_id c plot.crop) _ _ h (λ crop e'. st.noticed _ u h))))

  pub handle_farm_key-keeps : (key : String) (u : Ui) → P u → P (handle_farm_key float_sqrt c key u)
  unfolding handle_farm_key
  handle_farm_key-keeps key u h =
      both_branches P (str_eq key "left") _ _ (kept u _ (refl, refl, refl, refl) h) (
        both_branches P (str_eq key "right") _ _ (kept u _ (refl, refl, refl, refl) h) (
          both_branches P (str_eq key "up") _ _
            (both_branches P (leb (farm_columns u) u.cursor) _ _
              (kept u _ (refl, refl, refl, refl) h) h)
            (both_branches P (str_eq key "down") _ _
              (both_branches P (ltb (u.cursor + farm_columns u) (length u.snap.plots)) _ _
                (kept u _ (refl, refl, refl, refl) h) h)
              (both_branches P (str_eq key "u") _ _ (kept u _ (refl, refl, refl, refl) h) (
                both_branches P (str_eq key "x") _ _ (shoo-keeps u h) (
                  both_branches P (is_key confirms key) _ _ (use_plot-keeps u h)
                    (both_branches P (str_eq key "a") _ _ (harvest_all-keeps u h) h)))))))

  plant_chosen-keeps : (u : Ui) → P u → P (plant_chosen float_sqrt c u)
  unfolding plant_chosen
  plant_chosen-keeps u h =
      both_cases P (get_elem? (visible_crops u.snap c.crops) u.picker_idx) _ _ h (λ crop e.
        let (fine, u') = act float_sqrt c (Intent.plant (pos u.cursor) crop.id) u in
        let h' =
          act-keeps float_sqrt c A P st (Intent.plant (pos u.cursor) crop.id) u
            (gentle (Intent.plant (pos u.cursor) crop.id) refl) h in
        both_branches P fine _ _
          (st.noticed _ _
            (kept u' (record u' { overlay = no_overlay }) (refl, refl, refl, refl) h'))
          h')

  pub handle_picker_key-keeps :
      (key : String) (u : Ui) → P u → P (handle_picker_key float_sqrt c key u)
  unfolding handle_picker_key
  handle_picker_key-keeps key u h =
      both_branches P (is_key ("esc" ∷ "q" ∷ []) key) _ _ (kept u _ (refl, refl, refl, refl) h) (
        both_branches P (is_key ups key) _ _ (kept u _ (refl, refl, refl, refl) h) (
          both_branches P (is_key downs key) _ _ (kept u _ (refl, refl, refl, refl) h)
            (both_branches P (is_key confirms key) _ _ (plant_chosen-keeps u h) h)))

  pub handle_upgrade_key-keeps :
      (key : String) (u : Ui) → P u → P (handle_upgrade_key float_sqrt c key u)
  unfolding handle_upgrade_key
  handle_upgrade_key-keeps key u h =
      let i = u.upgrade_idx in
      both_branches P (is_key ("esc" ∷ "q" ∷ []) key) _ _ (kept u _ (refl, refl, refl, refl) h) (
        both_branches P (is_key ups key) _ _ (kept u _ (refl, refl, refl, refl) h) (
          both_branches P (is_key downs key) _ _ (kept u _ (refl, refl, refl, refl) h) (
            both_branches P (str_eq key "1") _ _
              (runs (Intent.upgrade_plot_auto (pos i) "harvest") (λ u'. auto_harvests (suc i)) u
                refl h)
              (both_branches P (str_eq key "2") _ _
                (runs (Intent.upgrade_plot_auto (pos i) "sow") (λ u'. auto_sows (suc i)) u refl h)
                h))))

  pub handle_market_key-keeps :
      (key : String) (u : Ui) → P u → P (handle_market_key float_sqrt c key u)
  unfolding handle_market_key
  handle_market_key-keeps key u h =
      both_branches P (is_key ups key) _ _ (kept u _ (refl, refl, refl, refl) h) (
        both_branches P (is_key downs key) _ _ (kept u _ (refl, refl, refl, refl) h) (
          both_branches P (is_key buys key) _ _
            (both_cases P (get_elem? (market_items c) u.market_idx) _ _ h
              (λ it e. runs (purchase it) (λ u'. bought it.name) u (purchase-gentle it) h))
            h))

  pub handle_land_key-keeps : (key : String) (u : Ui) → P u → P (handle_land_key float_sqrt c key u)
  unfolding handle_land_key
  handle_land_key-keeps key u h =
      both_branches P (is_key buys key) _ _
        (runs Intent.buy_plot (λ u'. tilled (plot_price float_sqrt c u)) u refl h) h

  pub handle_rebirth_key-keeps :
      (key : String) (u : Ui) → P u → P (handle_rebirth_key float_sqrt c key u)
  unfolding handle_rebirth_key
  handle_rebirth_key-keeps key u h = both_branches P (not (str_eq key "R")) _ _ h (
      both_branches P (can_rebirth float_sqrt u.snap c) _ _ (kept u _ (refl, refl, refl, refl) h)
        (st.noticed (needs_earnings c.prestige.min_earnings u.snap.run_earnings) u h))

  pub handle_progress_key-keeps :
      (key : String) (u : Ui) → P u → P (handle_progress_key float_sqrt c key u)
  unfolding handle_progress_key
  handle_progress_key-keeps key u h = both_branches P (ltb_ℤ u.snap.rebirths (pos 1)) _ _ h (
      both_branches P (is_key ups key) _ _ (kept u _ (refl, refl, refl, refl) h) (
        both_branches P (is_key downs key) _ _ (kept u _ (refl, refl, refl, refl) h) (
          both_branches P (is_key buys key) _ _
            (both_cases P (get_elem? c.upgrades u.progress_idx) _ _ h (λ up e.
              runs (Intent.buy_upgrade up.id)
                (λ u'. now_level up.name (upgrade_level u'.snap up.id)) u refl h))
            h)))
