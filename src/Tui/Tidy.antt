-- ===== src/Tui/Tidy.antt =====
-- The notices on the screen, and the page of the help, over a session of internal/tui/game.go.
use ssh_idlefarmer.Prelude.{
  pos, suc, zero, ◌∷◌, [], ℕ, Bool, ◌≡◌, ◌≤◌, arith, List, ℤ, length, ◌++◌, ◌-◌, sym, ◌⊕◌,
}
use ssh_idlefarmer.Tui.Model.{
  prune_notices, Ui, add_notice, Text, new_game, Notice, drop, unexpired,
}
use ssh_idlefarmer.Content.{Content}
use ssh_idlefarmer.Tui.Views.{view}
use ssh_idlefarmer.Tui.Views.Core.{view-SameCore}
use ssh_idlefarmer.Tui.Rule.{Stable, SameCore}
use mathlib.Core.Path.{subst}
use ssh_idlefarmer.Tui.Played.{Playing, joined, sent, saved, viewed}
use ssh_idlefarmer.Tui.Rule.Messages.{update-keeps}

-- At most four notices, and one of the two pages of the help.
pub record Tidy (u : Ui) : Type 0 where
  pub notices_ok : length u.notices ≤ 4
  pub page_ok : u.help_page ≤ 1

pub length-drop : {A : Type 0} (n : ℕ) (xs : List A) → length (drop n xs) ≡ length xs - n
length-drop zero xs = omega arith
length-drop (suc n) [] = omega arith
length-drop (suc n) (x ∷ xs) = ground (arith, length-drop n xs)

length-unexpired : (now : ℤ) (ns : List Notice) → length (unexpired now ns) ≤ length ns
length-unexpired now [] = omega arith
length-unexpired now (n ∷ ns) = ground (arith, length-unexpired now ns)

add_notice-Tidy : (t : Text) (u : Ui) → Tidy u → Tidy (add_notice t u)
unfolding add_notice
add_notice-Tidy t u h =
    let ns = u.notices ++ record { text = t; expires = u.now ⊕ pos 6 } ∷ [] in
    record { notices_ok = ground (arith, length-drop (length ns - 4) ns); page_ok = h.page_ok }

prune_notices-Tidy : (u : Ui) → Tidy u → Tidy (prune_notices u)
unfolding prune_notices
prune_notices-Tidy u h = record {
  notices_ok = grind (arith, length-unexpired u.now u.notices, h.notices_ok);
  page_ok = h.page_ok;
}

same_core : (u t : Ui) → SameCore u t → Tidy u → Tidy t
same_core u t (a, b, d, e) h = record {
  notices_ok = subst (λ ns. length ns ≤ 4) (sym d) h.notices_ok;
  page_ok = subst (λ page. page ≤ 1) (sym e) h.page_ok;
}

module _ (float_sqrt : ℕ → ℕ) (c : Content) (is_print : ℕ → Bool) (max_scroll : Ui → ℕ) where
  Tidy-Stable : Stable float_sqrt c (λ i. Unit {0}) Tidy
  Tidy-Stable = record {
    moved = same_core;
    paged = λ u page b h. record { notices_ok = h.notices_ok; page_ok = b h.page_ok };
    noticed = add_notice-Tidy;
    pruned = prune_notices-Tidy;
    advanced = λ u now v e h. record { notices_ok = h.notices_ok; page_ok = h.page_ok };
    acted = λ u i v a e h. record { notices_ok = h.notices_ok; page_ok = h.page_ok };
    refused = λ u i v a e h. record { notices_ok = h.notices_ok; page_ok = h.page_ok };
  }

  -- Whatever messages a session gets, and however often it is drawn: its screen never holds more
  -- than four notices, and the help is always on one of its two pages.
  pub Playing-Tidy : {u : Ui} → Playing float_sqrt c is_print max_scroll u → Tidy u
  unfolding new_game
  Playing-Tidy (joined v made away width height now idle_timeout r) = record {
    notices_ok = omega arith;
    page_ok = omega arith;
  }
  Playing-Tidy (sent {u} m p) =
      update-keeps float_sqrt c is_print max_scroll (λ i. Unit {0}) Tidy Tidy-Stable (λ i g. tt) m u
        (λ a. tt) (Playing-Tidy p)
  Playing-Tidy (saved {u} v written e p) =
      let h = Playing-Tidy p in record { notices_ok = h.notices_ok; page_ok = h.page_ok }
  Playing-Tidy (viewed {u} p) = same_core u (view c u) (view-SameCore c u) (Playing-Tidy p)
