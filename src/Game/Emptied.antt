-- ===== src/Game/Emptied.antt =====
-- The actors of internal/game that wait to be stopped, over the steps of the registry.
use ssh_idlefarmer.Prelude.Tables.{
  string_key, nat_key, put, drop_key, find, find-put, find-drop_key, Table,
}
use ssh_idlefarmer.Store.Rows.{save_key, SaveKey, same_save, same_save_iff}
use ssh_idlefarmer.Prelude.{
  inr, inr, inl, refl, false, true, ◌∷◌, [], some, none, ℕ, Option, sym, ◌≡◌, List, ◌∙◌, ◌⊎◌, arith,
  Bool, ◌&&◌, Bool-cases, ◌==◌, ◌||◌, List-cases, ℤ, Option-cases,
}
use ssh_idlefarmer.Game.Registry.{
  Manager, running, Actor, Codec, warn_next, autosave, Handle, live_actor, session_advance, detach,
  session_intent, flush, holds,
}
use ssh_idlefarmer.Game.Actor.{Save, intent, tick}
use ssh_idlefarmer.Content.{Content}
use ssh_idlefarmer.Game.Intents.{Intent}
use ssh_idlefarmer.Game.Effects.{
  with_actor, warn_idle, with_save, advance_closed, autosave_closed, warn_gone, advance_live,
  detach_closed, intent_closed, autosave_live, live_actor-find, signed_off_after, intent_live,
  flushed, warn_live, detach_own, detach_other,
}
use mathlib.Core.Path.{subst}

-- The actor of a key with a number has still to be stopped.
abbrev pub waits : SaveKey → ℕ → List (SaveKey × ℕ) → Bool
waits k uid [] = false
waits k uid ((j, own) ∷ rest) = (same_save j k && own == uid) || waits k uid rest

abbrev pub uid_of : Option Actor → Option ℕ
uid_of none = none
uid_of (some a) = some a.uid

-- The number of the actor of a key.
unfoldable pub number : Manager → SaveKey → Option ℕ
number m k = uid_of (find k m.actors)

-- Once `Shutdown` has begun, every actor waits to be stopped.
abbrev pub AllWait : Manager → Type 0
AllWait m =
    m.closing ≡ true
    → (k : SaveKey) (uid : ℕ) → number m k ≡ some uid
    → waits k uid m.pending ≡ true

pub running_wait :
    (k : SaveKey) (rows : Table SaveKey Actor) (a : Actor)
    → find k rows ≡ some a
    → waits k a.uid (running rows) ≡ true
unfolding find running
running_wait k [] a h = absurd (ground (arith, h))
running_wait k ((j, b) ∷ rows) a h = elim (Bool-cases (same_save j k)) [
  | inl e ↦ ground (arith, e, h)
  | inr e ↦
      let below : find k rows ≡ some a = ground (arith, e, h) in
      ground (arith, e, running_wait k rows a below)
]

-- A step that only takes actors away, or keeps their numbers.
pub record Shrinks (m n : Manager) : Type 0 where
  pub closing_same : n.closing ≡ m.closing
  pub pending_same : n.pending ≡ m.pending
  pub numbers : (k : SaveKey) → (number n k ≡ number m k) ⊎ (number n k ≡ none)

pub Shrinks-AllWait : (m n : Manager) → Shrinks m n → AllWait m → AllWait n
Shrinks-AllWait m n s h on k uid e = elim (s.numbers k) [
  | inl same ↦ rw s.pending_same (h (sym s.closing_same ∙ on) k uid (sym same ∙ e))
  | inr gone ↦ absurd (ground (arith, gone, e))
]

-- The table is as before; one actor is kept with its number; one actor goes.
same_table :
    (m n : Manager)
    → n.closing ≡ m.closing
    → n.pending ≡ m.pending
    → n.actors ≡ m.actors
    → Shrinks m n
unfolding number
same_table m n e f g = record { closing_same = e; pending_same = f; numbers = λ k. inl (rw g refl) }

same_number :
    (m n : Manager) (k : SaveKey) {a : Actor} (b : Actor)
    → find k m.actors ≡ some a
    → b.uid ≡ a.uid
    → n.closing ≡ m.closing
    → n.pending ≡ m.pending
    → n.actors ≡ put k b m.actors
    → Shrinks m n
unfolding number
same_number m n k b found same e f g = record {
  closing_same = e;
  pending_same = f;
  numbers =
      λ j. inl (rw g (ground (arith, found, same, same_save_iff k j, find-put k j b m.actors)));
}

one_gone :
    (m n : Manager) (k : SaveKey)
    → n.closing ≡ m.closing
    → n.pending ≡ m.pending
    → n.actors ≡ drop_key k m.actors
    → Shrinks m n
unfolding number
one_gone m n k e f g = record {
  closing_same = e;
  pending_same = f;
  numbers = λ j. rw g (ground (arith, find-drop_key k j m.actors));
}

live-Shrinks :
    (k : SaveKey) (uid : ℕ) (m : Manager) {a : Actor} (v : Save)
    → live_actor k uid m ≡ some a
    → Shrinks m (with_actor k (with_save a v) m)
live-Shrinks k uid m {a} v e =
    same_number m (with_actor k (with_save a v) m) k (with_save a v) (live_actor-find k uid m e)
      refl refl refl refl

unshrunk : (m : Manager) → Shrinks m m
unshrunk m = same_table m m refl refl refl

pub advance-Shrinks :
    (c : Content) (now : ℤ) (h : Handle) (m : Manager) → Shrinks m (session_advance c now h m).1
advance-Shrinks c now h m = elim (Option-cases (live_actor h.key h.uid m)) [
  | inl e ↦ rw (advance_closed c now h m e) (unshrunk m)
  | inr (a, e) ↦
      subst (Shrinks m) (sym (advance_live c now h m e))
        (live-Shrinks h.key h.uid m (tick c now a.save).1 e)
]

pub intent-Shrinks :
    (float_sqrt : ℕ → ℕ) (c : Content) (now : ℤ) (i : Intent) (h : Handle) (m : Manager)
    → Shrinks m (session_intent float_sqrt c now i h m).1
intent-Shrinks q c now i h m = elim (Option-cases (live_actor h.key h.uid m)) [
  | inl e ↦ rw (intent_closed c now h m q i e) (unshrunk m)
  | inr (a, e) ↦
      subst (Shrinks m) (sym (intent_live c now h m q i e))
        (live-Shrinks h.key h.uid m (intent q c now i a.save).1 e)
]

pub autosave-Shrinks :
    (cd : Codec) (written : Bool) (k : SaveKey) (m : Manager) → Shrinks m (autosave cd written k m)
autosave-Shrinks cd written k m = elim (Option-cases (find k m.actors)) [
  | inl e ↦ rw (autosave_closed cd written k m e) (unshrunk m)
  | inr (a, e) ↦ subst (Shrinks m) (sym (autosave_live cd written k m e)) (
      same_number m (flushed cd written k m a) k (with_save a (flush cd written k a.save m.store).0)
        e refl refl refl refl)
]

pub detach-Shrinks :
    (cd : Codec) (written again : Bool) (h : Handle) (m : Manager)
    → Shrinks m (detach cd written again h m)
detach-Shrinks cd written again h m = elim (Option-cases (live_actor h.key h.uid m)) [
  | inl e ↦
      subst (Shrinks m) (sym (detach_closed cd written again h m e))
        (same_table m (signed_off_after cd written again h m m) refl refl refl)
  | inr (a, e) ↦ elim (Bool-cases (holds h.id a.session)) [
    | inl own ↦
        subst (Shrinks m) (sym (detach_own cd written again h m e own))
          (one_gone m _ h.key refl refl refl)
    | inr other ↦ subst (Shrinks m) (sym (detach_other cd written again h m e other)) (
        same_number m (signed_off_after cd written again h m (flushed cd written h.key m a)) h.key
          (with_save a (flush cd written h.key a.save m.store).0) (live_actor-find h.key h.uid m e)
          refl refl refl refl)
  ]
]

pub warn-Shrinks : (m : Manager) → Shrinks m (warn_next m)
warn-Shrinks m = elim (List-cases m.pending) [
  | inl e ↦ rw (warn_idle m e) (unshrunk m)
  | inr ((k, uid), rest, e) ↦ elim (Option-cases (live_actor k uid m)) [
    | inl gone ↦
        subst (Shrinks m) (sym (warn_gone m e gone))
          (same_table m (record m { warned = true }) refl refl refl)
    | inr (a, live) ↦ subst (Shrinks m) (sym (warn_live m e live)) (
        same_number m _ k (record a { session = none }) (live_actor-find k uid m live) refl refl
          refl refl)
  ]
]
