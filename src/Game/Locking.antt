-- ===== src/Game/Locking.antt =====
-- Each step of the manager of internal/game is a step of the locks.
use ssh_idlefarmer.Store.Rows.{same_save_iff, save_key, SaveKey}
use ssh_idlefarmer.Game.Lifecycle.{
  attaches, advances, acts, autosaves, detaches, begins_shutdown, warns, stops,
}
use ssh_idlefarmer.Prelude.{
  inr, inr, inl, refl, false, true, suc, some, none, ℕ, ℤ, Bool, String, Bool-cases, Option-cases,
  ◌≡◌, List-cases, sym, ◌&&◌, arith, ◌∙◌,
}
use ssh_idlefarmer.Content.{Content}
use ssh_idlefarmer.Game.Registry.{
  Codec, Manager, Actor, AttachLuck, warn_next, stop_next, autosave, Handle, session_advance,
  session_intent, detach, live_actor, attach, join, begin_shutdown, Attempt, is_held, holds, flush,
}
use ssh_idlefarmer.Game.Lifecycle.{ManagerStep}
use ssh_idlefarmer.Game.Locks.{
  Locked, LockStep, holder, same_actors, same_session, from_same, freed, holder-put, taken,
  holder-drop,
}
use ssh_idlefarmer.Game.Actor.{Save, tick, intent}
use ssh_idlefarmer.Game.Intents.{Intent}
use ssh_idlefarmer.Prelude.Tables.{find, find-put}
use ssh_idlefarmer.Game.Effects.{
  advance_closed, warn_idle, intent_closed, stop_unwarned, autosave_closed, with_actor, with_save,
  detach_closed, autosave_live, advance_live, join_refused, signed_off_after, live_actor-find,
  intent_live, warn_gone, stop_idle, join_done, stop_gone, warn_live, flushed, detach_own,
  stop_live, joined, detach_other,
}
use mathlib.Core.Path.{subst}
use ssh_idlefarmer.Game.Attaching.{attach-cases, with_loaded, loaded_actor}

join-Locked :
    (c : Content) (k : SaveKey) (now : ℤ) (a : Actor) (created : Bool) (m : Manager)
    → find k m.actors ≡ some a
    → Locked m (join c k now a created m).1
join-Locked c k now a created m found = elim (Bool-cases (m.refuses && is_held a.session)) [
  | inl held ↦
      subst (λ (x : Attempt × Manager). Locked m x.1) (sym (join_refused c k now a created m held))
        (same_actors m (record m { next_id = suc m.next_id }) refl (omega arith))
  | inr may ↦
      subst (λ (x : Attempt × Manager). Locked m x.1) (sym (join_done c k now a created m may))
        (taken k (λ r. unfold holder in ground (arith, found, may, r)) refl
          (λ j.
            holder-put m k j
              (record a { session = some (suc m.next_id); save = (tick c now a.save).1 })
              (joined c k now a created m) refl))
]

attach-Locked :
    (cd : Codec) (c : Content) (luck : AttachLuck) (k : SaveKey) (public_key : String) (now : ℤ)
    (m : Manager)
    → Locked m (attach cd c luck k public_key now m).1
attach-Locked cd c luck k public_key now m =
    attach-cases cd c luck k now m (λ (x : Attempt × Manager). Locked m x.1)
      (λ e st ext. same_actors m (record m { store = st }) refl (omega arith))
      (λ st a ext on busy.
        from_same m (record m { store = st }) _ (λ j. unfold holder in refl) refl refl
          (join-Locked c k now a false (record m { store = st }) busy))
      (λ st row s created ext on free found good.
        from_same m (with_loaded k s st m) _
          (λ j.
            holder-put m k j (loaded_actor s m) (with_loaded k s st m) refl
            ∙ (unfold holder in ground (arith, free, same_save_iff k j)))
          refl refl
          (join-Locked c k now (loaded_actor s m) created (with_loaded k s st m)
            (ground (arith, find-put k k (loaded_actor s m) m.actors, same_save_iff k k))))
      public_key

-- An actor that is live keeps its session.
live-Locked :
    (k : SaveKey) (uid : ℕ) (m : Manager) {a : Actor} (v : Save)
    → live_actor k uid m ≡ some a
    → Locked m (with_actor k (with_save a v) m)
live-Locked k uid m {a} v e =
    same_session m (with_actor k (with_save a v) m) k (with_save a v) (live_actor-find k uid m e)
      refl refl refl

advance-Locked :
    (c : Content) (now : ℤ) (h : Handle) (m : Manager) → Locked m (session_advance c now h m).1
advance-Locked c now h m = elim (Option-cases (live_actor h.key h.uid m)) [
  | inl e ↦ rw (advance_closed c now h m e) (same_actors m m refl (omega arith))
  | inr (a, e) ↦
      subst (Locked m) (sym (advance_live c now h m e))
        (live-Locked h.key h.uid m (tick c now a.save).1 e)
]

intent-Locked :
    (float_sqrt : ℕ → ℕ) (c : Content) (now : ℤ) (i : Intent) (h : Handle) (m : Manager)
    → Locked m (session_intent float_sqrt c now i h m).1
intent-Locked q c now i h m = elim (Option-cases (live_actor h.key h.uid m)) [
  | inl e ↦ rw (intent_closed c now h m q i e) (same_actors m m refl (omega arith))
  | inr (a, e) ↦
      subst (Locked m) (sym (intent_live c now h m q i e))
        (live-Locked h.key h.uid m (intent q c now i a.save).1 e)
]

autosave-Locked :
    (cd : Codec) (written : Bool) (k : SaveKey) (m : Manager) → Locked m (autosave cd written k m)
autosave-Locked cd written k m = elim (Option-cases (find k m.actors)) [
  | inl e ↦ rw (autosave_closed cd written k m e) (same_actors m m refl (omega arith))
  | inr (a, e) ↦ subst (Locked m) (sym (autosave_live cd written k m e)) (
      same_session m (flushed cd written k m a) k
        (with_save a (flush cd written k a.save m.store).0) e refl refl refl)
]

detach-Locked :
    (cd : Codec) (written again : Bool) (h : Handle) (m : Manager)
    → Locked m (detach cd written again h m)
detach-Locked cd written again h m = elim (Option-cases (live_actor h.key h.uid m)) [
  | inl e ↦
      subst (Locked m) (sym (detach_closed cd written again h m e))
        (same_actors m (signed_off_after cd written again h m m) refl (omega arith))
  | inr (a, e) ↦ elim (Bool-cases (holds h.id a.session)) [
    | inl own ↦
        subst (Locked m) (sym (detach_own cd written again h m e own))
          (freed h.key (omega arith) (λ j. holder-drop m h.key j _ refl))
    | inr other ↦ subst (Locked m) (sym (detach_other cd written again h m e other)) (
        same_session m (signed_off_after cd written again h m (flushed cd written h.key m a)) h.key
          (with_save a (flush cd written h.key a.save m.store).0) (live_actor-find h.key h.uid m e)
          refl refl refl)
  ]
]

warn-Locked : (m : Manager) → Locked m (warn_next m)
warn-Locked m = elim (List-cases m.pending) [
  | inl e ↦ rw (warn_idle m e) (same_actors m m refl (omega arith))
  | inr ((k, uid), rest, e) ↦ elim (Option-cases (live_actor k uid m)) [
    | inl gone ↦
        subst (Locked m) (sym (warn_gone m e gone))
          (same_actors m (record m { warned = true }) refl (omega arith))
    | inr (a, live) ↦
        subst (Locked m) (sym (warn_live m e live))
          (freed k (omega arith) (λ j. holder-put m k j (record a { session = none }) _ refl))
  ]
]

stop-Locked : (cd : Codec) (written : Bool) (m : Manager) → Locked m (stop_next cd written m)
stop-Locked cd written m = elim (Bool-cases m.warned) [
  | inr e ↦ rw (stop_unwarned m cd written e) (same_actors m m refl (omega arith))
  | inl w ↦ elim (List-cases m.pending) [
    | inl e ↦ rw (stop_idle m cd written e) (same_actors m m refl (omega arith))
    | inr ((k, uid), rest, e) ↦ elim (Option-cases (live_actor k uid m)) [
      | inl gone ↦
          subst (Locked m) (sym (stop_gone m cd written w e gone))
            (same_actors m (record m { pending = rest; warned = false }) refl (omega arith))
      | inr (a, live) ↦
          subst (Locked m) (sym (stop_live m cd written w e live))
            (freed k (omega arith) (λ j. holder-drop m k j _ refl))
    ]
  ]
]

-- Every step of the registry (an attach with any luck, a tick, an intent, an autosave, a detach,
-- the steps of a shutdown) is a step of a lock for each save: it gives the lock of one key to a
-- session with a new number, where the policy refuse asks that the lock was free, or frees one
-- lock, or leaves all locks as they are.
pub Step-Locked :
    (float_sqrt : ℕ → ℕ) (cd : Codec) (c : Content) {m n : Manager}
    → ManagerStep float_sqrt cd c m n
    → LockStep m.refuses m.next_id n.next_id (holder m) (holder n)
Step-Locked q cd c (attaches m luck k public_key now) = attach-Locked cd c luck k public_key now m
Step-Locked q cd c (advances m now h) = advance-Locked c now h m
Step-Locked q cd c (acts m now i h) = intent-Locked q c now i h m
Step-Locked q cd c (autosaves m written k) = autosave-Locked cd written k m
Step-Locked q cd c (detaches m written again h) = detach-Locked cd written again h m
Step-Locked q cd c (begins_shutdown m on) =
    unfold begin_shutdown in same_actors m (begin_shutdown m) refl (omega arith)
Step-Locked q cd c (warns m off) = warn-Locked m
Step-Locked q cd c (stops m written off) = stop-Locked cd written m
