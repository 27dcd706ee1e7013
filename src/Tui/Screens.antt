-- ===== src/Tui/Screens.antt =====
-- internal/tui/game.go: the statistics, the farm's name, the help and the keys of every screen. How far
-- the help scrolls depends on its rendering, and is a parameter.
use ssh_idlefarmer.Prelude.{
  false, suc, none, some, [], ◌∷◌, true, false, List, ℕ, String, Bool, not, if◌then◌else◌, str_eq,
  length, ltb, ◌==◌, ◌-◌, ◌&&◌, ◌++◌,
}
use ssh_idlefarmer.Game.Intents.{Intent}
use ssh_idlefarmer.Content.{Content}
use ssh_idlefarmer.Tui.Model.{
  called, kicked, onboarding, away_summary, picker, upgrade_menu, rebirth_confirm, Ui, Screen,
  add_notice, session_closed, Cmd, market, help, name_editor, farm, land, finds_enabled,
  refused_with, no_overlay, finds_disabled, rebirth_hall, idle, quit, progress, with_session, stats,
}
use ssh_idlefarmer.Tui.Keys.{
  handle_picker_key, handle_farm_key, handle_market_key, handle_upgrade_key, is_key,
  handle_rebirth_confirm_key, handle_land_key, handle_rebirth_key, handle_progress_key, ups, one_up,
  downs,
}
use ssh_idlefarmer.Tui.Notices.{open_parcel}
use ssh_idlefarmer.Game.Actor.{intent}

-- `tea.KeyPressMsg`: the name of the key, and its code points.
pub record Key : Type 0 where
  pub name : String
  pub runes : List ℕ

abbrev pub but_last : List ℕ → List ℕ
but_last [] = []
but_last (r ∷ []) = []
but_last (r ∷ q ∷ rs) = r ∷ but_last (q ∷ rs)

module _ (float_sqrt : ℕ → ℕ) (c : Content) (is_print : ℕ → Bool) (max_scroll : Ui → ℕ) where
  -- The key t.
  unfoldable pub toggle_finds : Ui → Ui
  toggle_finds u = elim u.session [
    | none ↦ u
    | some v ↦
        let enabled = not u.snap.flavor_enabled in
        let v' = (intent float_sqrt c u.now (Intent.set_flavor enabled) v).1 in
        add_notice (if enabled then finds_enabled else finds_disabled) (with_session v' u)
  ]

  unfoldable pub handle_stats_key : String → Ui → Ui
  unfolding toggle_finds
  handle_stats_key key u =
      if str_eq key "t"
      then toggle_finds u
      else if str_eq key "n"
      then record u { name_input = u.snap.farm_name; overlay = name_editor }
      else u

  -- Enter in the editor of the name. A name that is refused leaves the snapshot.
  unfoldable pub rename_farm : Ui → Ui
  rename_farm u = elim u.session [
    | none ↦ add_notice session_closed u
    | some v ↦
        let (r, v') = intent float_sqrt c u.now (Intent.set_farm_name u.name_input) v in
        elim r.error [
          | some e ↦ add_notice (refused_with e) (record u { session = some v' })
          | none ↦
              add_notice (called u.name_input) (record (with_session v' u) { overlay = no_overlay })
        ]
  ]

  -- A rune that is typed; the space bar has a name of its own.
  unfoldable pub type_rune : Key → Ui → Ui
  type_rune key u =
      let runes = if str_eq key.name "space" then 32 ∷ [] else key.runes in
      elim runes [
        | [] ↦ u
        | ◌∷◌ r rest ↦
            if length rest == 0 && is_print r && ltb (length u.name_input) 24
            then record u { name_input = u.name_input ++ r ∷ [] }
            else u
      ]

  unfoldable pub handle_name_key : Key → Ui → Ui
  unfolding rename_farm type_rune
  handle_name_key key u =
      if is_key ("esc" ∷ "q" ∷ []) key.name
      then record u { overlay = no_overlay }
      else if str_eq key.name "enter"
      then rename_farm u
      else if str_eq key.name "backspace"
      then record u { name_input = but_last u.name_input }
      else type_rune key u

  abbrev pub help_top : Ui → Ui
  help_top u = record u { help_page = 0; help_scroll = 0 }

  abbrev pub shows : Screen → Ui → Ui
  shows s u = record u { scr = s }

  unfoldable pub handle_help_key : String → Ui → Ui
  handle_help_key key u =
      let scrolled = record u { help_scroll = suc u.help_scroll } in
      let most = max_scroll scrolled in
      if str_eq key "esc"
      then help_top (shows farm u)
      else if is_key ("left" ∷ "h" ∷ []) key
      then if ltb 0 u.help_page
        then record u { help_page = u.help_page - 1; help_scroll = 0 }
        else u
      else if str_eq key "right"
      then if ltb u.help_page 1
        then record u { help_page = suc u.help_page; help_scroll = 0 }
        else u
      else if is_key ups key
      then record u { help_scroll = one_up u.help_scroll }
      else if is_key downs key
      then if ltb most (suc u.help_scroll) then record u { help_scroll = most } else scrolled
      else u

  -- `screenOrder`, forward and backward.
  abbrev pub screen_after : Screen → Screen
  screen_after farm = market
  screen_after market = land
  screen_after land = rebirth_hall
  screen_after rebirth_hall = progress
  screen_after progress = stats
  screen_after stats = help
  screen_after help = farm

  abbrev pub screen_before : Screen → Screen
  screen_before farm = help
  screen_before market = farm
  screen_before land = market
  screen_before rebirth_hall = land
  screen_before progress = rebirth_hall
  screen_before stats = progress
  screen_before help = stats

  abbrev pub is_help : Screen → Bool
  is_help farm = false
  is_help market = false
  is_help land = false
  is_help rebirth_hall = false
  is_help progress = false
  is_help stats = false
  is_help help = true

  unfoldable pub cycle_screen : Bool → Ui → Ui
  cycle_screen forward u =
      let s = if forward then screen_after u.scr else screen_before u.scr in
      if is_help s then help_top (shows s u) else shows s u

  -- The keys of one screen.
  unfoldable pub handle_screen_key : String → Ui → Ui
  unfolding handle_farm_key handle_market_key handle_land_key handle_rebirth_key handle_progress_key
      handle_stats_key handle_help_key
  handle_screen_key key u = elim u.scr [
    | farm ↦ handle_farm_key float_sqrt c key u
    | market ↦ handle_market_key float_sqrt c key u
    | land ↦ handle_land_key float_sqrt c key u
    | rebirth_hall ↦ handle_rebirth_key float_sqrt c key u
    | progress ↦ handle_progress_key float_sqrt c key u
    | stats ↦ handle_stats_key key u
    | help ↦ handle_help_key key u
  ]

  -- The keys that all screens share, then those of the screen.
  unfoldable pub handle_global_key : String → Ui → Ui × Cmd
  unfolding handle_screen_key cycle_screen open_parcel
  handle_global_key key u =
      if str_eq key "q"
      then if is_help u.scr then (help_top (shows farm u), idle) else (u, quit)
      else if str_eq key "g"
      then (open_parcel float_sqrt c u, idle)
      else if str_eq key "1"
      then (shows farm u, idle)
      else if str_eq key "2"
      then (shows market u, idle)
      else if str_eq key "3"
      then (shows land u, idle)
      else if str_eq key "4"
      then (shows rebirth_hall u, idle)
      else if str_eq key "5"
      then (shows progress u, idle)
      else if str_eq key "6"
      then (shows stats u, idle)
      else if str_eq key "?"
      then (help_top (shows help u), idle)
      else if str_eq key "tab"
      then (cycle_screen true u, idle)
      else if str_eq key "shift+tab"
      then (cycle_screen false u, idle)
      else (handle_screen_key key u, idle)

  unfoldable pub handle_key : Key → Ui → Ui × Cmd
  unfolding handle_global_key handle_name_key handle_picker_key handle_upgrade_key
      handle_rebirth_confirm_key
  handle_key key u =
      let closed = record u { overlay = no_overlay } in
      if str_eq key.name "ctrl+c" then (u, quit) else elim u.overlay [
        | kicked ↦ (u, quit)
        | onboarding ↦ (closed, idle)
        | away_summary ↦ (closed, idle)
        | picker ↦ (handle_picker_key float_sqrt c key.name u, idle)
        | upgrade_menu ↦ (handle_upgrade_key float_sqrt c key.name u, idle)
        | rebirth_confirm ↦ (handle_rebirth_confirm_key float_sqrt c key.name u, idle)
        | name_editor ↦ (handle_name_key key u, idle)
        | no_overlay ↦ handle_global_key key.name u
      ]
