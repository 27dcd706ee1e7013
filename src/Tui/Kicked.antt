-- ===== src/Tui/Kicked.antt =====
-- A session that was told to go ends: the notice stays until the program quits.
use ssh_idlefarmer.Tui.Model.{kicked, quit, Ui, Cmd, prune_notices, with_session}
use ssh_idlefarmer.Tui.Update.{resized, kicked_out, ticked, pressed, Msg, tick_ui, update}
use ssh_idlefarmer.Prelude.{
  inl, pos, true, inl, inr, ℕ, Bool, ◌≡◌, ◌⊎◌, ℤ, ltb_ℤ, arith, Option-cases,
}
use ssh_idlefarmer.Content.{Content}
use ssh_idlefarmer.Tui.Screens.{handle_key}
use ssh_idlefarmer.Game.Actor.{tick}
use ssh_idlefarmer.Tui.Quiet.{event_notices-IsQuiet}

-- What a message may do on the farewell: a key quits, a tick from the time to quit on quits, and nothing
-- else takes the farewell away.
abbrev pub Ends : Msg → Ui → Ui × Cmd → Type 0
Ends (resized w h) u (t, cmd) = t.overlay ≡ kicked
Ends (kicked_out reason) u (t, cmd) = (cmd ≡ quit) ⊎ (t.overlay ≡ kicked)
Ends (ticked now) u (t, cmd) =
    (cmd ≡ quit) ⊎ ((t.overlay ≡ kicked) × ((u.quit_at ≡ pos 0) ⊎ (ltb_ℤ now u.quit_at ≡ true)))
Ends (pressed key) u (t, cmd) = cmd ≡ quit

module _ (float_sqrt : ℕ → ℕ) (c : Content) (is_print : ℕ → Bool) (max_scroll : Ui → ℕ) where
  tick_kicked :
      (now : ℤ) (u : Ui)
      → u.overlay ≡ kicked
      → Ends (ticked now) u (tick_ui float_sqrt c is_print max_scroll now u)
  unfolding tick_ui prune_notices
  tick_kicked now u h = elim (Option-cases u.session) [
    | inl e ↦ inl (ground (arith, h, e))
    | inr (v, e) ↦
        let (ev, v') = tick c now v in
        let shown = with_session v' (record u { now = now }) in
        ground (arith, h, e, event_notices-IsQuiet float_sqrt c ev shown)
  ]

  -- On the farewell overlay any key quits; a tick quits, or the farewell stays, and the latter
  -- only where no time to quit is set or it is not reached; a second kick quits, or the farewell
  -- stays; and it stays after a resize.
  pub kicked-Ends :
      (msg : Msg) (u : Ui)
      → u.overlay ≡ kicked
      → Ends msg u (update float_sqrt c is_print max_scroll msg u)
  unfolding update handle_key
  kicked-Ends (resized w h) u e = e
  kicked-Ends (kicked_out reason) u e = ground (arith, e)
  kicked-Ends (ticked now) u e = tick_kicked now u e
  kicked-Ends (pressed key) u e = ground (arith, e)
