-- ===== src/Tui/Update.antt =====
-- internal/tui/game.go: `Update`, the handler of every message.
use ssh_idlefarmer.Prelude.{
  ◌⊖◌, pos, none, some, true, false, ℤ, ℕ, String, Bool, if◌then◌else◌, not, str_eq, eqb_ℤ, ◌&&◌,
  leb_ℤ, ltb_ℤ, ◌⊕◌,
}
use ssh_idlefarmer.Content.{Content}
use ssh_idlefarmer.Tui.Screens.{Key, handle_key}
use ssh_idlefarmer.Tui.Model.{
  no_overlay, onboarding, away_summary, picker, upgrade_menu, rebirth_confirm, name_editor, kicked,
  Ui, Overlay, prune_notices, Cmd, idle, quit, told, kicked, drifted_off, tick_again, with_session,
}
use ssh_idlefarmer.Game.Actor.{tick}
use ssh_idlefarmer.Tui.Notices.{event_notices}

pub data Msg : Type 0 where
  resized : ℤ → ℤ → Msg
  kicked_out : String → Msg  -- empty where the session ended without a reason
  ticked : ℤ → Msg
  pressed : Key → Msg

module _ (float_sqrt : ℕ → ℕ) (c : Content) (is_print : ℕ → Bool) (max_scroll : Ui → ℕ) where
  abbrev pub is_kicked : Overlay → Bool
  is_kicked no_overlay = false
  is_kicked onboarding = false
  is_kicked away_summary = false
  is_kicked picker = false
  is_kicked upgrade_menu = false
  is_kicked rebirth_confirm = false
  is_kicked name_editor = false
  is_kicked kicked = true

  -- `case tickMsg`
  unfoldable pub tick_ui : ℤ → Ui → Ui × Cmd
  unfolding prune_notices
  tick_ui now u =
      let u' = record u { now = now } in
      if not (eqb_ℤ u.quit_at (pos 0)) && leb_ℤ u.quit_at now
      then (u', quit)
      else if ltb_ℤ (pos 0) u.idle_timeout
          && not (is_kicked u.overlay)
          && leb_ℤ u.idle_timeout (now ⊖ u.last_input)
      then (
        record u' { kick_reason = drifted_off; overlay = kicked; quit_at = now ⊕ pos 3 },
        tick_again,
      )
      else elim u.session [
        | none ↦ (u', quit)
        | some v ↦
            let (ev, v') = tick c now v in
            (prune_notices (event_notices float_sqrt c ev (with_session v' u')), tick_again)
      ]

  unfoldable pub update : Msg → Ui → Ui × Cmd
  unfolding tick_ui handle_key
  update (resized w h) u = (record u { width = w; height = h }, idle)
  update (kicked_out reason) u =
      if str_eq reason ""
      then (u, quit)
      else (record u { kick_reason = told reason; overlay = kicked; quit_at = u.now ⊕ pos 3 }, idle)
  update (ticked now) u = tick_ui now u
  update (pressed key) u =
      handle_key float_sqrt c is_print max_scroll key (record u { last_input = u.now })
