-- ===== src/Tui/Unreborn.antt =====
-- The messages of internal/tui/game.go and the rebirth.
use ssh_idlefarmer.Prelude.{arith, false, true, some, none, ℕ, Bool, ◌≡◌, Option, ℤ, sym}
use ssh_idlefarmer.Content.{Content}
use ssh_idlefarmer.Tui.Model.{Ui, add_notice, prune_notices}
use ssh_idlefarmer.Game.Actor.{Save, tick, intent}
use ssh_idlefarmer.Tui.Update.{Msg, update}
use ssh_idlefarmer.Game.Intents.{Intent}
use ssh_idlefarmer.Tui.Rule.Messages.{asks_rebirth, update-keeps}
use ssh_idlefarmer.Tui.Rule.{Stable}
use ssh_idlefarmer.Tui.Rule.Keys.{is_gentle}
use mathlib.Core.Path.{subst}

module _ (float_sqrt : ℕ → ℕ) (c : Content) where
  -- The saves that come from the save `v` by ticks and by intents other than the rebirth.
  pub data Gentle (v : Save) : Save → Type 0 where
    unchanged : Gentle v v
    ticked : {w : Save} (now : ℤ) → Gentle v w → Gentle v (tick c now w).1
    acted :
        {w : Save} (now : ℤ) (i : Intent)
        → is_gentle i ≡ true
        → Gentle v w
        → Gentle v (intent float_sqrt c now i w).1

  -- A session that had ended stays ended; one that runs goes on from its save.
  abbrev pub GoesOn : Option Save → Option Save → Type 0
  GoesOn none none = Unit {0}
  GoesOn none (some w) = ⊥
  GoesOn (some v) none = ⊥
  GoesOn (some v) (some w) = Gentle v w

  GoesOn-refl : (o : Option Save) → GoesOn o o
  GoesOn-refl none = tt
  GoesOn-refl (some v) = unchanged

  GoesOn-ticked :
      (o : Option Save) (w : Save) (now : ℤ) → GoesOn o (some w) → GoesOn o (some (tick c now w).1)
  GoesOn-ticked none w now h = h
  GoesOn-ticked (some v) w now h = ticked now h

  GoesOn-acted :
      (o : Option Save) (w : Save) (now : ℤ) (i : Intent)
      → is_gentle i ≡ true
      → GoesOn o (some w)
      → GoesOn o (some (intent float_sqrt c now i w).1)
  GoesOn-acted none w now i g h = h
  GoesOn-acted (some v) w now i g h = acted now i g h

  GoesOn-Stable :
      (o : Option Save) → Stable float_sqrt c (λ i. is_gentle i ≡ true) (λ u. GoesOn o u.session)
  unfolding add_notice prune_notices
  GoesOn-Stable o = record {
    moved = λ u t (e, d, n, p) h. subst (GoesOn o) (sym e) h;
    paged = λ u page b h. h;
    noticed = λ t u h. h;
    pruned = λ u h. h;
    advanced = λ u now v e h. GoesOn-ticked o v now (subst (GoesOn o) e h);
    acted = λ u i v a e h. GoesOn-acted o v u.now i a (subst (GoesOn o) e h);
    refused = λ u i v a e h. GoesOn-acted o v u.now i a (subst (GoesOn o) e h);
  }

module _ (float_sqrt : ℕ → ℕ) (c : Content) (is_print : ℕ → Bool) (max_scroll : Ui → ℕ) where
  -- Unless y or Y is pressed while the question of the rebirth is open, a message changes the save
  -- of the session only by ticks and by intents other than the rebirth, and the session goes on.
  pub update-GoesOn :
      (m : Msg) (u : Ui)
      → asks_rebirth m u ≡ false
      → GoesOn float_sqrt c u.session (update float_sqrt c is_print max_scroll m u).0.session
  update-GoesOn m u h =
      update-keeps float_sqrt c is_print max_scroll (λ i. is_gentle i ≡ true)
        (λ t. GoesOn float_sqrt c u.session t.session) (GoesOn-Stable float_sqrt c u.session)
        (λ i g. g) m u (λ a. absurd (ground (arith, a, h))) (GoesOn-refl float_sqrt c u.session)
