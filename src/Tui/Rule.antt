-- ===== src/Tui/Rule.antt =====
-- The rule for predicates on the screens of internal/tui/game.go: the few ways to change a screen, and
-- the handlers that use them.
pub mod Keys
pub mod Screens
pub mod Messages
use ssh_idlefarmer.Game.Intents.{Intent}
use ssh_idlefarmer.Sim.Field
use ssh_idlefarmer.Sim.Gifts
use ssh_idlefarmer.Prelude.{
  false, false, true, refl, some, none, [], ◌∷◌, pos, ℕ, ◌≡◌, ◌≤◌, Option, Bool, List, String, ℤ,
  if◌then◌else◌, Dict, str_eq, ltb_ℤ,
}
use ssh_idlefarmer.Tui.Model.{
  Ui, Text, add_notice, gift_waits, failed_away, prune_notices, visited, event_news, achieved,
  ready, refused_with, with_session, auto_gathered, golden_count,
}
use ssh_idlefarmer.Content.{Content, Achievement, Event, event_by_id}
use ssh_idlefarmer.Tui.Notices.{
  apply_action, event_notices, achievement_notices, critter_notices, event_notice, notice_if,
  name_achievement, crop_notices, crop_name, act, act_then, harvest_if_ready,
}
use ssh_idlefarmer.Sim.Events.{Events}
use ssh_idlefarmer.Game.Actor.{Reply, Save, tick, intent}
use ssh_idlefarmer.Sim.State.{State}

-- The parts of a screen that hold the save and what is bounded are the same.
abbrev pub SameCore : Ui → Ui → Type 0
SameCore u t =
    (t.session ≡ u.session)
    × (t.snap ≡ u.snap)
    × (t.notices ≡ u.notices)
    × (t.help_page ≡ u.help_page)

-- The predicate `P` survives each way to change a screen; `A` holds of the intents that may run.
pub record Stable (float_sqrt : ℕ → ℕ) (c : Content) (A : Intent → Type 0) (P : Ui → Type 0)
    : Type 0 where
  pub moved : (u t : Ui) → SameCore u t → P u → P t
  pub paged :
      (u : Ui) (page : ℕ) → (u.help_page ≤ 1 → page ≤ 1) → P u → P (record u { help_page = page })
  pub noticed : (t : Text) (u : Ui) → P u → P (add_notice t u)
  pub pruned : (u : Ui) → P u → P (prune_notices u)
  pub advanced :
      (u : Ui) (now : ℤ) (v : Save) → u.session ≡ some v → P u → P (with_session (tick c now v).1 u)
  pub acted :
      (u : Ui) (i : Intent) (v : Save)
      → A i
      → u.session ≡ some v
      → P u
      → P (with_session (intent float_sqrt c u.now i v).1 u)
  pub refused :
      (u : Ui) (i : Intent) (v : Save)
      → A i
      → u.session ≡ some v
      → P u
      → P (record u { session = some (intent float_sqrt c u.now i v).1 })

-- What both branches of a test keep, and both cases of an option.
pub both_branches :
    {B : Type 0} (Q : B → Type 0) (b : Bool) (t e : B) → Q t → Q e → Q (if b then t else e)
both_branches Q true t e h k = h
both_branches Q false t e h k = k

pub both_tests :
    {B : Type 0} (Q : B → Type 0) (b : Bool) (t e : B)
    → (b ≡ true → Q t)
    → (b ≡ false → Q e)
    → Q (if b then t else e)
both_tests Q true t e h k = h refl
both_tests Q false t e h k = k refl

pub both_cases :
    {X B : Type 0} (Q : B → Type 0) (o : Option X) (n : B) (s : X → B)
    → Q n
    → ((x : X) → o ≡ some x → Q (s x))
    → Q (elim o as (λ (o' : Option X). B) [ none ↦ n | some x ↦ s x ])
both_cases Q none n s h k = h
both_cases Q (some x) n s h k = k x refl

pub both_shapes :
    {X B : Type 0} (Q : B → Type 0) (l : List X) (n : B) (s : X → List X → B)
    → Q n
    → ((x : X) (xs : List X) → Q (s x xs))
    → Q (elim l as (λ (l' : List X). B) [ [] ↦ n | ◌∷◌ x xs ↦ s x xs ])
both_shapes Q [] n s h k = h
both_shapes Q (x ∷ xs) n s h k = k x xs

module _ (float_sqrt : ℕ → ℕ) (c : Content) (A : Intent → Type 0) (P : Ui → Type 0)
    (st : Stable float_sqrt c A P) where
  -- The screen of a pair.
  abbrev Snd : {B : Type 0} → B × Ui → Type 0
  Snd (b, u) = P u

  name_achievement-keeps :
      (id : String) (goals : List Achievement) (u : Ui)
      → P u
      → P (name_achievement float_sqrt c id goals u)
  name_achievement-keeps id [] u h = h
  name_achievement-keeps id (a ∷ goals) u h =
      name_achievement-keeps id goals (if str_eq a.id id then add_notice (achieved a.name) u else u)
        (both_branches P (str_eq a.id id) (add_notice (achieved a.name) u) u
          (st.noticed (achieved a.name) u h) h)

  achievement_notices-keeps :
      (ids : List String) (u : Ui) → P u → P (achievement_notices float_sqrt c ids u)
  achievement_notices-keeps [] u h = h
  achievement_notices-keeps (id ∷ ids) u h =
      achievement_notices-keeps ids (name_achievement float_sqrt c id c.achievements u)
        (name_achievement-keeps id c.achievements u h)

  crop_notices-keeps :
      (text : String → ℤ → Text) (counts : Dict ℤ) (u : Ui)
      → P u
      → P (crop_notices float_sqrt c text counts u)
  crop_notices-keeps text [] u h = h
  crop_notices-keeps text ((id, n) ∷ counts) u h =
      crop_notices-keeps text counts (add_notice (text (crop_name float_sqrt c id) n) u)
        (st.noticed (text (crop_name float_sqrt c id) n) u h)

  critter_notices-keeps :
      (kinds : List String) (u : Ui) → P u → P (critter_notices float_sqrt c kinds u)
  critter_notices-keeps [] u h = h
  critter_notices-keeps (kind ∷ kinds) u h =
      critter_notices-keeps kinds (add_notice (visited kind) u) (st.noticed (visited kind) u h)

  notice_if-keeps : (b : Bool) (t : Text) (u : Ui) → P u → P (notice_if float_sqrt c b t u)
  notice_if-keeps b t u h = both_branches P b (add_notice t u) u (st.noticed t u h) h

  event_notice-keeps : (e : Option Event) (u : Ui) → P u → P (event_notice float_sqrt c e u)
  event_notice-keeps none u h = h
  event_notice-keeps (some e) u h = st.noticed (event_news e.name e.description) u h

  pub event_notices-keeps : (ev : Events) (u : Ui) → P u → P (event_notices float_sqrt c ev u)
  unfolding event_notices
  event_notices-keeps ev u h =
      let u₁ = crop_notices float_sqrt c ready ev.matured u in
      let h₁ = crop_notices-keeps ready ev.matured u h in
      let b₂ = ltb_ℤ (pos 0) ev.auto_coins in
      let u₂ = notice_if float_sqrt c b₂ (auto_gathered ev.auto_coins) u₁ in
      let h₂ = notice_if-keeps b₂ (auto_gathered ev.auto_coins) u₁ h₁ in
      let b₃ = ltb_ℤ (pos 0) ev.golden_harvests in
      let u₃ = notice_if float_sqrt c b₃ (golden_count ev.golden_harvests) u₂ in
      let h₃ = notice_if-keeps b₃ (golden_count ev.golden_harvests) u₂ h₂ in
      let u₄ = crop_notices float_sqrt c failed_away ev.failed_harvests u₃ in
      let h₄ = crop_notices-keeps failed_away ev.failed_harvests u₃ h₃ in
      let u₅ = notice_if float_sqrt c ev.gift_arrived gift_waits u₄ in
      let h₅ = notice_if-keeps ev.gift_arrived gift_waits u₄ h₄ in
      let news = if str_eq ev.event_started "" then none else event_by_id c ev.event_started in
      let u₆ = event_notice float_sqrt c news u₅ in
      let h₆ = event_notice-keeps news u₅ h₅ in
      achievement_notices-keeps ev.achievements (critter_notices float_sqrt c ev.critter_visits u₆)
        (critter_notices-keeps ev.critter_visits u₆ h₆)

  apply_action-keeps : (r : Reply) (u : Ui) → P u → P (apply_action float_sqrt c r u).1
  unfolding apply_action
  apply_action-keeps r u h =
      both_cases Snd r.error _ _ (achievement_notices-keeps r.newly u h)
        (λ x e. st.noticed (refused_with x) u h)

  pub act-keeps : (i : Intent) (u : Ui) → A i → P u → P (act float_sqrt c i u).1
  unfolding act
  act-keeps i u a h = both_cases Snd u.session _ _ h (λ v e.
      let (r, v') = intent float_sqrt c u.now i v in
      apply_action-keeps r (with_session v' u) (st.acted u i v a e h))

  pub act_then-keeps :
      (i : Intent) (text : Ui → Text) (u : Ui) → A i → P u → P (act_then float_sqrt c i text u)
  unfolding act_then
  act_then-keeps i text u a h =
      let (fine, u') = act float_sqrt c i u in
      let h' = act-keeps i u a h in
      both_branches P fine (add_notice (text u') u') u' (st.noticed (text u') u' h') h'

  -- The rounds of the key a.
  pub harvest_if_ready-keeps :
      (s : State) (i : ℕ) (w : (ℤ × ℕ) × Ui)
      → A (Intent.harvest (pos i))
      → P w.1
      → P (harvest_if_ready float_sqrt c s i w).1
  unfolding harvest_if_ready
  harvest_if_ready-keeps s i ((total, count), u) a h = both_branches Snd _ _ _ h (
      both_cases Snd u.session _ _ h (λ v e.
        let (r, v') = intent float_sqrt c u.now (Intent.harvest (pos i)) v in
        both_cases Snd r.error _ _
          (achievement_notices-keeps r.newly (with_session v' u)
            (st.acted u (Intent.harvest (pos i)) v a e h))
          (λ x e'. st.refused u (Intent.harvest (pos i)) v a e h)))
