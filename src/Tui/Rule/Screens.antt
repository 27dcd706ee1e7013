-- ===== src/Tui/Rule/Screens.antt =====
-- The rule of Tui/Rule for the overlays, the statistics, the farm's name, the help and the keys that all
-- screens share.
use ssh_idlefarmer.Prelude.{
  ◌&&◌, ◌==◌, length, if◌then◌else◌, false, refl, true, suc, ◌∷◌, [], ℕ, Bool, ◌≡◌, ◌≤◌, String,
  arith, not, str_eq, ltb, ◌-◌,
}
use ssh_idlefarmer.Content.{Content}
use ssh_idlefarmer.Tui.Model.{
  Ui, Screen, called, stats, session_closed, farm, Cmd, with_session, no_overlay, refused_with,
  market, land, rebirth_hall, progress, help,
}
use ssh_idlefarmer.Game.Intents.{Intent}
use ssh_idlefarmer.Tui.Rule.{Stable, both_cases, both_shapes, both_branches, both_tests, act-keeps}
use ssh_idlefarmer.Tui.Rule.Keys.{
  is_gentle, open_parcel-keeps, handle_farm_key-keeps, handle_market_key-keeps,
  handle_land_key-keeps, handle_rebirth_key-keeps, handle_progress_key-keeps,
}
use ssh_idlefarmer.Tui.Keys.{
  handle_rebirth_confirm_key, is_key, handle_farm_key, handle_market_key, ups, handle_land_key,
  handle_rebirth_key, downs, handle_progress_key,
}
use ssh_idlefarmer.Tui.Screens.{
  rename_farm, handle_stats_key, type_rune, toggle_finds, handle_help_key, help_top,
  handle_name_key, Key, shows, handle_global_key, handle_screen_key, cycle_screen, is_help,
  screen_after, screen_before,
}
use ssh_idlefarmer.Tui.Notices.{act}
use ssh_idlefarmer.Game.Actor.{intent}

module _ (float_sqrt : ℕ → ℕ) (c : Content) (is_print : ℕ → Bool) (max_scroll : Ui → ℕ)
    (A : Intent → Type 0) (P : Ui → Type 0) (st : Stable float_sqrt c A P)
    (gentle : (i : Intent) → is_gentle i ≡ true → A i) where
  help_top-keeps : (u : Ui) → P u → P (help_top float_sqrt c is_print max_scroll u)
  help_top-keeps u h =
      st.moved (record u { help_page = 0 }) _ (refl, refl, refl, refl)
        (st.paged u 0 (λ b. omega arith) h)

  shows-keeps : (s : Screen) (u : Ui) → P u → P (shows float_sqrt c is_print max_scroll s u)
  shows-keeps s u = st.moved u _ (refl, refl, refl, refl)

  turned-keeps :
      (u : Ui) (page : ℕ)
      → (u.help_page ≤ 1 → page ≤ 1)
      → P u
      → P (record u { help_page = page; help_scroll = 0 })
  turned-keeps u page b h =
      st.moved (record u { help_page = page }) _ (refl, refl, refl, refl) (st.paged u page b h)

  pub confirm_key-keeps :
      (key : String) (u : Ui)
      → (is_key ("y" ∷ "Y" ∷ []) key ≡ true → A Intent.rebirth)
      → P u
      → P (handle_rebirth_confirm_key float_sqrt c key u)
  unfolding handle_rebirth_confirm_key
  confirm_key-keeps key u a h =
      let (fine, u') = act float_sqrt c Intent.rebirth u in
      both_tests P (is_key ("y" ∷ "Y" ∷ []) key) _ _
        (λ yes.
          let h' = act-keeps float_sqrt c A P st Intent.rebirth u (a yes) h in
          both_branches P fine _ _
            (st.noticed _ _ (
              st.moved u' (record u' { overlay = no_overlay; cursor = 0 }) (refl, refl, refl, refl)
                h'))
            (st.moved u' _ (refl, refl, refl, refl) h'))
        (λ no.
          both_branches P (is_key ("n" ∷ "N" ∷ "esc" ∷ "q" ∷ []) key) _ _
            (st.moved u _ (refl, refl, refl, refl) h) h)

  toggle_finds-keeps : (u : Ui) → P u → P (toggle_finds float_sqrt c is_print max_scroll u)
  unfolding toggle_finds
  toggle_finds-keeps u h = both_cases P u.session _ _ h (λ v e.
      let i = Intent.set_flavor (not u.snap.flavor_enabled) in
      st.noticed _ _ (st.acted u i v (gentle i refl) e h))

  stats_key-keeps :
      (key : String) (u : Ui) → P u → P (handle_stats_key float_sqrt c is_print max_scroll key u)
  unfolding handle_stats_key
  stats_key-keeps key u h =
      both_branches P (str_eq key "t") _ _ (toggle_finds-keeps u h)
        (both_branches P (str_eq key "n") _ _ (st.moved u _ (refl, refl, refl, refl) h) h)

  rename_farm-keeps : (u : Ui) → P u → P (rename_farm float_sqrt c is_print max_scroll u)
  unfolding rename_farm
  rename_farm-keeps u h = both_cases P u.session _ _ (st.noticed session_closed u h) (λ v e.
      let i = Intent.set_farm_name u.name_input in
      let (r, v') = intent float_sqrt c u.now i v in
      both_cases P r.error _ _
        (st.noticed (called u.name_input) _ (
          st.moved (with_session v' u) (record (with_session v' u) { overlay = no_overlay })
            (refl, refl, refl, refl) (st.acted u i v (gentle i refl) e h)))
        (λ x e'. st.noticed (refused_with x) _ (st.refused u i v (gentle i refl) e h)))

  type_rune-keeps :
      (key : Key) (u : Ui) → P u → P (type_rune float_sqrt c is_print max_scroll key u)
  unfolding type_rune
  type_rune-keeps key u h =
      both_shapes P (if str_eq key.name "space" then 32 ∷ [] else key.runes) _ _ h (λ r rest.
        both_branches P (length rest == 0 && is_print r && ltb (length u.name_input) 24) _ _
          (st.moved u _ (refl, refl, refl, refl) h) h)

  pub name_key-keeps :
      (key : Key) (u : Ui) → P u → P (handle_name_key float_sqrt c is_print max_scroll key u)
  unfolding handle_name_key
  name_key-keeps key u h =
      both_branches P (is_key ("esc" ∷ "q" ∷ []) key.name) _ _
        (st.moved u _ (refl, refl, refl, refl) h)
        (both_branches P (str_eq key.name "enter") _ _ (rename_farm-keeps u h) (
          both_branches P (str_eq key.name "backspace") _ _
            (st.moved u _ (refl, refl, refl, refl) h) (type_rune-keeps key u h)))

  help_key-keeps :
      (key : String) (u : Ui) → P u → P (handle_help_key float_sqrt c is_print max_scroll key u)
  unfolding handle_help_key
  help_key-keeps key u h =
      let most = max_scroll (record u { help_scroll = suc u.help_scroll }) in
      both_branches P (str_eq key "esc") _ _ (help_top-keeps _ (shows-keeps farm u h)) (
        both_branches P (is_key ("left" ∷ "h" ∷ []) key) _ _
          (both_branches P (ltb 0 u.help_page) _ _
            (turned-keeps u (u.help_page - 1) (λ b. omega arith) h) h)
          (both_branches P (str_eq key "right") _ _
            (both_tests P (ltb u.help_page 1) _ _
              (λ b. turned-keeps u (suc u.help_page) (λ b'. grind arith) h) (λ b. h))
            (both_branches P (is_key ups key) _ _ (st.moved u _ (refl, refl, refl, refl) h) (
              both_branches P (is_key downs key) _ _
                (both_branches P (ltb most (suc u.help_scroll)) _ _
                  (st.moved u _ (refl, refl, refl, refl) h)
                  (st.moved u _ (refl, refl, refl, refl) h))
                h))))

  cycle_screen-keeps :
      (forward : Bool) (u : Ui) → P u → P (cycle_screen float_sqrt c is_print max_scroll forward u)
  unfolding cycle_screen
  cycle_screen-keeps forward u h =
      let s =
        if forward
        then screen_after float_sqrt c is_print max_scroll u.scr
        else screen_before float_sqrt c is_print max_scroll u.scr in
      both_branches P (is_help float_sqrt c is_print max_scroll s) _ _
        (help_top-keeps _ (shows-keeps s u h)) (shows-keeps s u h)

  screen_key-keeps :
      (key : String) (u : Ui) → P u → P (handle_screen_key float_sqrt c is_print max_scroll key u)
  unfolding handle_screen_key
  screen_key-keeps key u h =
      elim u.scr
        as (λ s. P (elim s as (λ (s' : Screen). Ui) [
          | farm ↦ handle_farm_key float_sqrt c key u
          | market ↦ handle_market_key float_sqrt c key u
          | land ↦ handle_land_key float_sqrt c key u
          | rebirth_hall ↦ handle_rebirth_key float_sqrt c key u
          | progress ↦ handle_progress_key float_sqrt c key u
          | stats ↦ handle_stats_key float_sqrt c is_print max_scroll key u
          | help ↦ handle_help_key float_sqrt c is_print max_scroll key u
        ])) [
          | farm ↦ handle_farm_key-keeps float_sqrt c A P st gentle key u h
          | market ↦ handle_market_key-keeps float_sqrt c A P st gentle key u h
          | land ↦ handle_land_key-keeps float_sqrt c A P st gentle key u h
          | rebirth_hall ↦ handle_rebirth_key-keeps float_sqrt c A P st gentle key u h
          | progress ↦ handle_progress_key-keeps float_sqrt c A P st gentle key u h
          | stats ↦ stats_key-keeps key u h
          | help ↦ help_key-keeps key u h
        ]

  pub global_key-keeps :
      (key : String) (u : Ui) → P u → P (handle_global_key float_sqrt c is_print max_scroll key u).0
  unfolding handle_global_key
  global_key-keeps key u h =
      let Shown : Ui × Cmd → Type 0 = λ w. P w.0 in
      both_branches Shown (str_eq key "q") _ _
        (both_branches Shown (is_help float_sqrt c is_print max_scroll u.scr) _ _
          (help_top-keeps _ (shows-keeps farm u h)) h)
        (both_branches Shown (str_eq key "g") _ _ (open_parcel-keeps float_sqrt c A P st gentle u h)
          (both_branches Shown (str_eq key "1") _ _ (shows-keeps farm u h) (
            both_branches Shown (str_eq key "2") _ _ (shows-keeps market u h) (
              both_branches Shown (str_eq key "3") _ _ (shows-keeps land u h) (
                both_branches Shown (str_eq key "4") _ _ (shows-keeps rebirth_hall u h) (
                  both_branches Shown (str_eq key "5") _ _ (shows-keeps progress u h) (
                    both_branches Shown (str_eq key "6") _ _ (shows-keeps stats u h) (
                      both_branches Shown (str_eq key "?") _ _
                        (help_top-keeps _ (shows-keeps help u h))
                        (both_branches Shown (str_eq key "tab") _ _ (cycle_screen-keeps true u h) (
                          both_branches Shown (str_eq key "shift+tab") _ _
                            (cycle_screen-keeps false u h) (screen_key-keeps key u h)))))))))))
