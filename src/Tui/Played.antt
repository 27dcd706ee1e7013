-- ===== src/Tui/Played.antt =====
-- The sessions of internal/tui/game.go, and the saves that they show.
use mathlib.Core.Path.{subst}
use ssh_idlefarmer.Prelude.{refl, false, refl, sym, none, some, ℕ, ℤ, Bool, Option, ◌≡◌}
use ssh_idlefarmer.Content.{Content}
use ssh_idlefarmer.Content.Validate.{validate}
use ssh_idlefarmer.Content.Validated.{HasInt64}
use ssh_idlefarmer.Sim.State.{State, new}
use ssh_idlefarmer.Sim.Events.{Events}
use ssh_idlefarmer.Sim.Solvent.Balances.{Solvent}
use ssh_idlefarmer.Game.Actor.{Save, tick, intent, persist}
use ssh_idlefarmer.Game.Saves.{Reachable, created, ticked, acted, persisted, Reachable-Solvent}
use ssh_idlefarmer.Tui.Model.{Ui, new_game, add_notice, prune_notices}
use ssh_idlefarmer.Tui.Update.{Msg, update}
use ssh_idlefarmer.Tui.Views.{view}
use ssh_idlefarmer.Tui.Views.Core.{view-SameCore}
use ssh_idlefarmer.Tui.Rule.{Stable}
use ssh_idlefarmer.Tui.Rule.Messages.{update-keeps}

module _ (float_sqrt : ℕ → ℕ) (c : Content) (is_print : ℕ → Bool) (max_scroll : Ui → ℕ) where
  -- The screens of a session: it opens on a save that the game can reach, then messages come, it
  -- is drawn, and the actor may write its save at any time.
  pub data Playing : Ui → Type 0 where
    joined :
        (v : Save) (made : Bool) (away : Events) (width height now idle_timeout : ℤ)
        → Reachable float_sqrt c v
        → Playing (new_game c v made away width height now idle_timeout)
    sent : {u : Ui} (m : Msg) → Playing u → Playing (update float_sqrt c is_print max_scroll m u).0
    saved :
        {u : Ui} (v : Save) (written : Bool)
        → u.session ≡ some v
        → Playing u
        → Playing (record u { session = some (persist written v).1 })
    viewed : {u : Ui} → Playing u → Playing (view c u)

  -- A session that runs has a save that the game can reach.
  abbrev pub IsReached : Option Save → Type 0
  IsReached none = Unit {0}
  IsReached (some v) = Reachable float_sqrt c v

  -- The state of a save that the game can reach.
  pub data Seen : State → Type 0 where
    seen : (v : Save) → Reachable float_sqrt c v → Seen v.state

  pub record Honest (u : Ui) : Type 0 where
    pub session_ok : IsReached u.session
    pub snap_ok : Seen u.snap

  reached : {u : Ui} (v : Save) → u.session ≡ some v → Honest u → Reachable float_sqrt c v
  reached v e h = subst IsReached e h.session_ok

  unmoved : (u t : Ui) → t.session ≡ u.session → t.snap ≡ u.snap → Honest u → Honest t
  unmoved u t e d h = record {
    session_ok = subst IsReached (sym e) h.session_ok;
    snap_ok = subst Seen (sym d) h.snap_ok;
  }

  Honest-Stable : Stable float_sqrt c (λ i. Unit {0}) Honest
  unfolding add_notice prune_notices
  Honest-Stable = record {
    moved = λ u t (e, d, n, p) h. unmoved u t e d h;
    paged = λ u page b h. unmoved u (record u { help_page = page }) refl refl h;
    noticed = λ t u h. unmoved u (add_notice t u) refl refl h;
    pruned = λ u h. unmoved u (prune_notices u) refl refl h;
    advanced = λ u now v e h. record {
      session_ok = ticked now (reached v e h);
      snap_ok = seen (tick c now v).1 (ticked now (reached v e h));
    };
    acted = λ u i v a e h. record {
      session_ok = acted u.now i (reached v e h);
      snap_ok = seen (intent float_sqrt c u.now i v).1 (acted u.now i (reached v e h));
    };
    refused =
        λ u i v a e h. record { session_ok = acted u.now i (reached v e h); snap_ok = h.snap_ok };
  }

  -- Whatever messages a session gets, in whatever order, and whenever its actor writes: its save is one
  -- that the game can reach, and what it shows is the state of such a save.
  Playing-Honest : {u : Ui} → Playing u → Honest u
  unfolding new_game
  Playing-Honest (joined v made away width height now idle_timeout r) = record {
    session_ok = r;
    snap_ok = seen (record { state = new c 0 now; dirty = false }) (created 0 now);
  }
  Playing-Honest (sent {u} m p) =
      update-keeps float_sqrt c is_print max_scroll (λ i. Unit {0}) Honest Honest-Stable (λ i g. tt)
        m u (λ a. tt) (Playing-Honest p)
  Playing-Honest (saved {u} v written e p) =
      let h = Playing-Honest p in
      record { session_ok = persisted written (reached v e h); snap_ok = h.snap_ok }
  Playing-Honest (viewed {u} p) =
      let (e, d, n, q) = view-SameCore c u in unmoved u (view c u) e d (Playing-Honest p)

  Seen-Solvent : validate c ≡ none → HasInt64 c → {s : State} → Seen s → Solvent s
  Seen-Solvent checked w (seen v r) = Reachable-Solvent float_sqrt c checked w r

  -- With content that validate accepts, and whose numbers are int64, no screen of a session ever
  -- shows a negative balance, whatever messages came: a session opens on a save that the game can
  -- reach, gets messages and is drawn in any order, and its actor may write the save at any time.
  pub Playing-Solvent : validate c ≡ none → HasInt64 c → {u : Ui} → Playing u → Solvent u.snap
  Playing-Solvent checked w p = Seen-Solvent checked w (Playing-Honest p).snap_ok
