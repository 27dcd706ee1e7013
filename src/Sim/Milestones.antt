-- ===== src/Sim/Milestones.antt =====
-- Achievements are kept, and each is earned once.
use ssh_idlefarmer.Content.{Content, Achievement, Condition}
use ssh_idlefarmer.Sim.State.{State}
use ssh_idlefarmer.Sim.Arrivals.{is_fresh, is_met, earn, earn_from, check_achievements, is_some}
use ssh_idlefarmer.Prelude.{
  inr, inl, refl, false, true, false, ◌∷◌, [], some, ℤ, ◌≡◌, List, String, lookup, arith,
  lookup-insert, eq_iff, ◌∙◌, insert, Option-cases, All, Bool-cases,
}

-- An achievement that has been recorded stays recorded, at the same time.
earn-lookup :
    (now : ℤ) (a : Achievement) (s : State) (k : String) {t : ℤ}
    → lookup k s.achievements ≡ some t
    → lookup k (earn now a s).achievements ≡ some t
unfolding earn is_fresh
earn-lookup now a s k h = ground (arith, h, lookup-insert a.id k now s.achievements, eq_iff a.id k)

earn_from-lookup :
    (now : ℤ) (goals : List Achievement) (s : State) (k : String) {t : ℤ}
    → lookup k s.achievements ≡ some t
    → lookup k (earn_from now goals s).1.achievements ≡ some t
unfolding earn_from
earn_from-lookup now [] s k h = h
earn_from-lookup now (a ∷ rest) s k h =
    earn_from-lookup now rest (earn now a s) k (earn-lookup now a s k h)

earn_fresh :
    (now : ℤ) (a : Achievement) (s : State)
    → is_fresh s a ≡ true
    → earn now a s ≡ record s { achievements = insert a.id now s.achievements }
unfolding earn
earn_fresh now a s e = rw e

earn_stale : (now : ℤ) (a : Achievement) (s : State) → is_fresh s a ≡ false → earn now a s ≡ s
unfolding earn
earn_stale now a s e = rw e

-- Recording achievements changes nothing that a condition asks about.
earn-is_met :
    (now : ℤ) (a : Achievement) (s : State) (cond : Condition)
    → is_met (earn now a s) cond ≡ is_met s cond
unfolding is_met
earn-is_met now a s cond = elim (Bool-cases (is_fresh s a)) [
  | inl e ↦ rw (earn_fresh now a s e)
  | inr e ↦ rw (earn_stale now a s e)
]

-- What is not fresh stays so while others are recorded.
earn-stale :
    (now : ℤ) (a b : Achievement) (s : State)
    → is_fresh s b ≡ false
    → is_fresh (earn now a s) b ≡ false
unfolding is_fresh
earn-stale now a b s h = elim (Option-cases (lookup b.id s.achievements)) [
  | inl e ↦ ground (arith, earn-is_met now a s b.condition)
  | inr (t, e) ↦ ground (arith, earn-lookup now a s b.id e)
]

earn_self : (now : ℤ) (a : Achievement) (s : State) → is_fresh (earn now a s) a ≡ false
earn_self now a s = elim (Bool-cases (is_fresh s a)) [
  | inl e ↦ rw (earn_fresh now a s e) (
      unfold is_fresh in
      ground (arith, lookup-insert a.id a.id now s.achievements, eq_iff a.id a.id))
  | inr e ↦ rw (earn_stale now a s e) e
]

earn_from-stale :
    (now : ℤ) (goals : List Achievement) (b : Achievement) (s : State)
    → is_fresh s b ≡ false
    → is_fresh (earn_from now goals s).1 b ≡ false
unfolding earn_from
earn_from-stale now [] b s h = h
earn_from-stale now (a ∷ rest) b s h =
    earn_from-stale now rest b (earn now a s) (earn-stale now a b s h)

earn_from-All :
    (now : ℤ) (goals : List Achievement) (s : State)
    → All (λ b. is_fresh (earn_from now goals s).1 b ≡ false) goals
unfolding earn_from
earn_from-All now [] s = tt
earn_from-All now (a ∷ rest) s = (
  earn_from-stale now rest a (earn now a s) (earn_self now a s),
  earn_from-All now rest (earn now a s),
)

earn_from_cons :
    (now : ℤ) (a : Achievement) (rest : List Achievement) (s : State)
    → is_fresh s a ≡ false
    → earn_from now rest s ≡ ([], s)
    → earn_from now (a ∷ rest) s ≡ ([], s)
unfolding earn_from
earn_from_cons now a rest s h same = ground (arith, earn_stale now a s h, same)

earn_from_nothing :
    (now : ℤ) (goals : List Achievement) (s : State)
    → All (λ b. is_fresh s b ≡ false) goals
    → earn_from now goals s ≡ ([], s)
earn_from_nothing now [] s h = unfold earn_from in refl
earn_from_nothing now (a ∷ rest) s h =
    earn_from_cons now a rest s h.0 (earn_from_nothing now rest s h.1)

-- A second check of the achievements, at whatever time, reports nothing new and changes nothing.
check_achievements_once :
    (s : State) (c : Content) (now later : ℤ)
    → let t = (check_achievements s c now).1 in check_achievements t c later ≡ ([], t)
unfolding check_achievements
check_achievements_once s c now later =
    earn_from_nothing later c.achievements (earn_from now c.achievements s).1
      (earn_from-All now c.achievements s)

earn_from-is_met :
    (now : ℤ) (goals : List Achievement) (s : State) (cond : Condition)
    → is_met (earn_from now goals s).1 cond ≡ is_met s cond
unfolding earn_from
earn_from-is_met now [] s cond = refl
earn_from-is_met now (a ∷ rest) s cond =
    earn_from-is_met now rest (earn now a s) cond ∙ earn-is_met now a s cond

recorded_of_met :
    (s : State) (a : Achievement)
    → is_fresh s a ≡ false
    → is_met s a.condition ≡ true
    → is_some (lookup a.id s.achievements) ≡ true
unfolding is_fresh
recorded_of_met s a h m = ground arith

All-recorded :
    (s t : State) (goals : List Achievement)
    → ((cond : Condition) → is_met t cond ≡ is_met s cond)
    → All (λ b. is_fresh t b ≡ false) goals
    → All (λ a. is_met s a.condition ≡ true → is_some (lookup a.id t.achievements) ≡ true) goals
All-recorded s t [] same h = tt
All-recorded s t (a ∷ rest) same h =
    (λ m. recorded_of_met t a h.0 (same a.condition ∙ m), All-recorded s t rest same h.1)

-- After a check every achievement whose condition held in the state before it is recorded, and
-- what was recorded before keeps its time.
pub check_achievements_complete :
    (s : State) (c : Content) (now : ℤ)
    → let t = (check_achievements s c now).1 in
      All
        (λ a. is_met s a.condition ≡ true → is_some (lookup a.id t.achievements) ≡ true)
        c.achievements
      × ((k : String) (earned : ℤ)
          → lookup k s.achievements ≡ some earned
          → lookup k t.achievements ≡ some earned)
unfolding check_achievements
check_achievements_complete s c now = (
  All-recorded s (earn_from now c.achievements s).1 c.achievements
      (earn_from-is_met now c.achievements s) (earn_from-All now c.achievements s),
  λ k earned h. earn_from-lookup now c.achievements s k h,
)
