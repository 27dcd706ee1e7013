-- ===== src/Tui/Views/Core.antt =====
-- The changes that `View` of internal/tui/views.go makes.
use ssh_idlefarmer.Tui.Rule.{SameCore, both_branches}
use ssh_idlefarmer.Prelude.{refl, pos, leb, ltb_ℤ, length, ◌||◌, ◌&&◌, ltb}
use ssh_idlefarmer.Tui.Views.{view_market, view_farm, screen_body, view, is_open}
use ssh_idlefarmer.Content.{Content}
use ssh_idlefarmer.Tui.Model.{Ui, Screen, farm, market, land, rebirth_hall, progress, stats, help}
use ssh_idlefarmer.Tui.Keys.{market_items}

farm-SameCore : (u : Ui) → SameCore u (view_farm u)
unfolding view_farm
farm-SameCore u =
    both_branches (SameCore u) (leb (length u.snap.plots) u.cursor) _ _ (refl, refl, refl, refl)
      (refl, refl, refl, refl)

market-SameCore : (c : Content) (u : Ui) → SameCore u (view_market c u)
unfolding view_market
market-SameCore c u =
    both_branches (SameCore u)
      (leb (length (market_items c)) u.market_idx && ltb 0 (length (market_items c))) _ _
      (refl, refl, refl, refl) (refl, refl, refl, refl)

body-SameCore : (c : Content) (u : Ui) → SameCore u (screen_body c u)
unfolding screen_body
body-SameCore c u =
    elim u.scr
      as (λ s. SameCore u (elim s as (λ (s' : Screen). Ui) [
        | farm ↦ view_farm u
        | market ↦ view_market c u
        | land ↦ u
        | rebirth_hall ↦ u
        | progress ↦ u
        | stats ↦ u
        | help ↦ u
      ])) [
        | farm ↦ farm-SameCore u
        | market ↦ market-SameCore c u
        | land ↦ (refl, refl, refl, refl)
        | rebirth_hall ↦ (refl, refl, refl, refl)
        | progress ↦ (refl, refl, refl, refl)
        | stats ↦ (refl, refl, refl, refl)
        | help ↦ (refl, refl, refl, refl)
      ]

pub view-SameCore : (c : Content) (u : Ui) → SameCore u (view c u)
unfolding view
view-SameCore c u =
    both_branches (SameCore u) (ltb_ℤ u.width (pos 36) || ltb_ℤ u.height (pos 10)) _ _
      (refl, refl, refl, refl)
      (both_branches (SameCore u) (is_open u.overlay) _ _ (refl, refl, refl, refl)
        (body-SameCore c u))
