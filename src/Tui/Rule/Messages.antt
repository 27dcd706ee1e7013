-- ===== src/Tui/Rule/Messages.antt =====
-- The rule of Tui/Rule for every message, and the question of the rebirth.
use ssh_idlefarmer.Prelude.{
  refl, pos, false, true, ◌∷◌, [], ℕ, Bool, ◌≡◌, ◌&&◌, ℤ, ◌⊖◌, not, str_eq, eqb_ℤ, leb_ℤ, ltb_ℤ,
}
use ssh_idlefarmer.Tui.Update.{
  Msg, pressed, update, resized, tick_ui, kicked_out, ticked, is_kicked,
}
use ssh_idlefarmer.Tui.Model.{
  Ui, Cmd, Overlay, no_overlay, onboarding, away_summary, picker, upgrade_menu, rebirth_confirm,
  name_editor, kicked, with_session,
}
use ssh_idlefarmer.Content.{Content}
use ssh_idlefarmer.Game.Intents.{Intent}
use ssh_idlefarmer.Tui.Rule.{Stable, both_branches, both_cases, event_notices-keeps}
use ssh_idlefarmer.Tui.Keys.{is_key}
use ssh_idlefarmer.Game.Actor.{tick}
use ssh_idlefarmer.Tui.Rule.Keys.{is_gentle, handle_picker_key-keeps, handle_upgrade_key-keeps}
use ssh_idlefarmer.Tui.Screens.{handle_key, Key}
use ssh_idlefarmer.Tui.Rule.Screens.{confirm_key-keeps, name_key-keeps, global_key-keeps}

overlay_cases :
    (Q : Ui × Cmd → Type 0) (o : Overlay) (out shut pick menu confirm name rest : Ui × Cmd)
    → Q out
    → Q shut
    → Q pick
    → Q menu
    → (o ≡ rebirth_confirm → Q confirm)
    → Q name
    → Q rest
    → Q (elim o as (λ (o' : Overlay). Ui × Cmd) [
      | kicked ↦ out
      | onboarding ↦ shut
      | away_summary ↦ shut
      | picker ↦ pick
      | upgrade_menu ↦ menu
      | rebirth_confirm ↦ confirm
      | name_editor ↦ name
      | no_overlay ↦ rest
    ])
overlay_cases Q kicked out shut pick menu confirm name rest a b d e f g h = a
overlay_cases Q onboarding out shut pick menu confirm name rest a b d e f g h = b
overlay_cases Q away_summary out shut pick menu confirm name rest a b d e f g h = b
overlay_cases Q picker out shut pick menu confirm name rest a b d e f g h = d
overlay_cases Q upgrade_menu out shut pick menu confirm name rest a b d e f g h = e
overlay_cases Q rebirth_confirm out shut pick menu confirm name rest a b d e f g h = f refl
overlay_cases Q name_editor out shut pick menu confirm name rest a b d e f g h = g
overlay_cases Q no_overlay out shut pick menu confirm name rest a b d e f g h = h

-- The rebirth is asked for: its question is open, and y is pressed.
abbrev pub is_confirm : Overlay → Bool
is_confirm rebirth_confirm = true
is_confirm no_overlay = false
is_confirm onboarding = false
is_confirm away_summary = false
is_confirm picker = false
is_confirm upgrade_menu = false
is_confirm name_editor = false
is_confirm kicked = false

abbrev pub asks_rebirth : Msg → Ui → Bool
asks_rebirth (pressed key) u = is_confirm u.overlay && is_key ("y" ∷ "Y" ∷ []) key.name
asks_rebirth (resized w h) u = false
asks_rebirth (kicked_out reason) u = false
asks_rebirth (ticked now) u = false

confirm_asks :
    (o : Overlay) (b : Bool) → o ≡ rebirth_confirm → b ≡ true → (is_confirm o && b) ≡ true
confirm_asks o b e f = simp (e, f)

module _ (float_sqrt : ℕ → ℕ) (c : Content) (is_print : ℕ → Bool) (max_scroll : Ui → ℕ)
    (A : Intent → Type 0) (P : Ui → Type 0) (st : Stable float_sqrt c A P)
    (gentle : (i : Intent) → is_gentle i ≡ true → A i) where
  -- The screen that a message leaves.
  abbrev Shown : Ui × Cmd → Type 0
  Shown (u, cmd) = P u

  key-keeps :
      (key : Key) (u : Ui)
      → (asks_rebirth (pressed key) u ≡ true → A Intent.rebirth)
      → P u
      → P (handle_key float_sqrt c is_print max_scroll key u).0
  unfolding handle_key
  key-keeps key u a h = both_branches Shown (str_eq key.name "ctrl+c") _ _ h (
      overlay_cases Shown u.overlay _ _ _ _ _ _ _ h (st.moved u _ (refl, refl, refl, refl) h)
        (handle_picker_key-keeps float_sqrt c A P st gentle key.name u h)
        (handle_upgrade_key-keeps float_sqrt c A P st gentle key.name u h)
        (λ e.
          confirm_key-keeps float_sqrt c is_print max_scroll A P st gentle key.name u
            (λ y. a (confirm_asks u.overlay (is_key ("y" ∷ "Y" ∷ []) key.name) e y)) h)
        (name_key-keeps float_sqrt c is_print max_scroll A P st gentle key u h)
        (global_key-keeps float_sqrt c is_print max_scroll A P st gentle key.name u h))

  tick_ui-keeps : (now : ℤ) (u : Ui) → P u → P (tick_ui float_sqrt c is_print max_scroll now u).0
  unfolding tick_ui
  tick_ui-keeps now u h =
      let u' = record u { now = now } in
      let h' = st.moved u u' (refl, refl, refl, refl) h in
      both_branches Shown (not (eqb_ℤ u.quit_at (pos 0)) && leb_ℤ u.quit_at now) _ _ h' (
        both_branches Shown
          (ltb_ℤ (pos 0) u.idle_timeout
            && not (is_kicked float_sqrt c is_print max_scroll u.overlay)
            && leb_ℤ u.idle_timeout (now ⊖ u.last_input))
          _ _ (st.moved u _ (refl, refl, refl, refl) h)
          (both_cases Shown u.session _ _ h' (λ v e.
            let (ev, v') = tick c now v in
            st.pruned _ (
              event_notices-keeps float_sqrt c A P st ev (with_session v' u')
                (st.advanced u' now v e h')))))

  pub update-keeps :
      (m : Msg) (u : Ui)
      → (asks_rebirth m u ≡ true → A Intent.rebirth)
      → P u
      → P (update float_sqrt c is_print max_scroll m u).0
  unfolding update
  update-keeps (resized w h) u a p = st.moved u _ (refl, refl, refl, refl) p
  update-keeps (kicked_out reason) u a p =
      both_branches Shown (str_eq reason "") _ _ p (st.moved u _ (refl, refl, refl, refl) p)
  update-keeps (ticked now) u a p = tick_ui-keeps now u p
  update-keeps (pressed key) u a p =
      key-keeps key (record u { last_input = u.now }) a (st.moved u _ (refl, refl, refl, refl) p)
