-- ===== src/Tui/Quiet.antt =====
-- The notices of internal/tui/game.go change neither the session nor the overlay.
use ssh_idlefarmer.Prelude.{
  pos, false, true, refl, some, none, [], ◌∷◌, ℕ, ◌∙◌, ◌≡◌, Bool, Option, List, String, ℤ, Dict,
  arith, ltb_ℤ, if◌then◌else◌, str_eq,
}
use ssh_idlefarmer.Tui.Model.{
  Ui, add_notice, Text, visited, ready, event_news, achieved, auto_gathered, golden_count,
  failed_away, gift_waits,
}
use ssh_idlefarmer.Content.{Content, Event, Achievement, event_by_id}
use ssh_idlefarmer.Tui.Notices.{
  event_notices, critter_notices, achievement_notices, notice_if, crop_notices, event_notice,
  name_achievement, crop_name,
}
use ssh_idlefarmer.Sim.Events.{Events}

abbrev pub IsQuiet : Ui → Ui → Type 0
IsQuiet u t = (t.session ≡ u.session) × (t.overlay ≡ u.overlay)

pub IsQuiet-trans : (u t w : Ui) → IsQuiet u t → IsQuiet t w → IsQuiet u w
IsQuiet-trans u t w (a, b) (d, e) = (d ∙ a, e ∙ b)

pub add_notice-IsQuiet : (t : Text) (u : Ui) → IsQuiet u (add_notice t u)
unfolding add_notice
add_notice-IsQuiet t u = (refl, refl)

module _ (float_sqrt : ℕ → ℕ) (c : Content) where
  name_achievement-IsQuiet :
      (id : String) (goals : List Achievement) (u : Ui)
      → IsQuiet u (name_achievement float_sqrt c id goals u)
  name_achievement-IsQuiet id [] u = (refl, refl)
  name_achievement-IsQuiet id (a ∷ goals) u = ground (
    arith,
    add_notice-IsQuiet (achieved a.name) u,
    name_achievement-IsQuiet id goals
        (if str_eq a.id id then add_notice (achieved a.name) u else u),
  )

  pub achievement_notices-IsQuiet :
      (ids : List String) (u : Ui) → IsQuiet u (achievement_notices float_sqrt c ids u)
  achievement_notices-IsQuiet [] u = (refl, refl)
  achievement_notices-IsQuiet (id ∷ ids) u =
      let t = name_achievement float_sqrt c id c.achievements u in
      IsQuiet-trans u t (achievement_notices float_sqrt c ids t)
        (name_achievement-IsQuiet id c.achievements u) (achievement_notices-IsQuiet ids t)

  crop_notices-IsQuiet :
      (text : String → ℤ → Text) (counts : Dict ℤ) (u : Ui)
      → IsQuiet u (crop_notices float_sqrt c text counts u)
  crop_notices-IsQuiet text [] u = (refl, refl)
  crop_notices-IsQuiet text ((id, n) ∷ counts) u =
      let t = add_notice (text (crop_name float_sqrt c id) n) u in
      IsQuiet-trans u t (crop_notices float_sqrt c text counts t)
        (add_notice-IsQuiet (text (crop_name float_sqrt c id) n) u)
        (crop_notices-IsQuiet text counts t)

  critter_notices-IsQuiet :
      (kinds : List String) (u : Ui) → IsQuiet u (critter_notices float_sqrt c kinds u)
  critter_notices-IsQuiet [] u = (refl, refl)
  critter_notices-IsQuiet (kind ∷ kinds) u =
      let t = add_notice (visited kind) u in
      IsQuiet-trans u t (critter_notices float_sqrt c kinds t) (add_notice-IsQuiet (visited kind) u)
        (critter_notices-IsQuiet kinds t)

  notice_if-IsQuiet : (b : Bool) (t : Text) (u : Ui) → IsQuiet u (notice_if float_sqrt c b t u)
  notice_if-IsQuiet true t u = add_notice-IsQuiet t u
  notice_if-IsQuiet false t u = (refl, refl)

  event_notice-IsQuiet : (e : Option Event) (u : Ui) → IsQuiet u (event_notice float_sqrt c e u)
  event_notice-IsQuiet none u = (refl, refl)
  event_notice-IsQuiet (some e) u = add_notice-IsQuiet (event_news e.name e.description) u

  pub event_notices-IsQuiet : (ev : Events) (u : Ui) → IsQuiet u (event_notices float_sqrt c ev u)
  unfolding event_notices
  event_notices-IsQuiet ev u =
      let u₁ = crop_notices float_sqrt c ready ev.matured u in
      let h₁ = crop_notices-IsQuiet ready ev.matured u in
      let b₂ = ltb_ℤ (pos 0) ev.auto_coins in
      let u₂ = notice_if float_sqrt c b₂ (auto_gathered ev.auto_coins) u₁ in
      let h₂ = notice_if-IsQuiet b₂ (auto_gathered ev.auto_coins) u₁ in
      let b₃ = ltb_ℤ (pos 0) ev.golden_harvests in
      let u₃ = notice_if float_sqrt c b₃ (golden_count ev.golden_harvests) u₂ in
      let h₃ = notice_if-IsQuiet b₃ (golden_count ev.golden_harvests) u₂ in
      let u₄ = crop_notices float_sqrt c failed_away ev.failed_harvests u₃ in
      let h₄ = crop_notices-IsQuiet failed_away ev.failed_harvests u₃ in
      let u₅ = notice_if float_sqrt c ev.gift_arrived gift_waits u₄ in
      let h₅ = notice_if-IsQuiet ev.gift_arrived gift_waits u₄ in
      let news = if str_eq ev.event_started "" then none else event_by_id c ev.event_started in
      let u₆ = event_notice float_sqrt c news u₅ in
      let h₆ = event_notice-IsQuiet news u₅ in
      let u₇ = critter_notices float_sqrt c ev.critter_visits u₆ in
      let h₇ = critter_notices-IsQuiet ev.critter_visits u₆ in
      let h₈ = achievement_notices-IsQuiet ev.achievements u₇ in
      (
        h₈.0 ∙ h₇.0 ∙ h₆.0 ∙ h₅.0 ∙ h₄.0 ∙ h₃.0 ∙ h₂.0 ∙ h₁.0,
        h₈.1 ∙ h₇.1 ∙ h₆.1 ∙ h₅.1 ∙ h₄.1 ∙ h₃.1 ∙ h₂.1 ∙ h₁.1,
      )
