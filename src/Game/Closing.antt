-- ===== src/Game/Closing.antt =====
-- internal/game/manager.go: a call of `Shutdown`, with whatever the sessions do while it runs. Its goroutine
-- stops one actor after the other; `Shutdown` itself returns when the goroutine is done, or when its context
-- is, and then the goroutine goes on.
use ssh_idlefarmer.Prelude.{
  some, none, inr, inl, refl, false, true, suc, ◌∷◌, [], ℕ, Bool, ◌≡◌, String, List, Option-cases,
  length, List-cases, arith, ℤ, Option, if◌then◌else◌, sym, Bool-cases, ◌-◌, ◌*◌, ◌≤◌,
}
use ssh_idlefarmer.Game.Registry.{
  Codec, Manager, warn_next, begin_shutdown, stop_next, live_actor, active_saves, AttachLuck,
  attach, running, Actor, Handle, session_advance, session_intent, autosave, detach, holds,
}
use ssh_idlefarmer.Store.Rows.{save_key, SaveKey}
use ssh_idlefarmer.Content.{Content}
use ssh_idlefarmer.Game.Intents.{Intent}
use ssh_idlefarmer.Game.Attaching.{attach_closing}
use ssh_idlefarmer.Game.Emptied.{warn-Shrinks}
use ssh_idlefarmer.Game.Lifecycle.{ManagerStep, attaches, advances, acts, autosaves, detaches}
use ssh_idlefarmer.Game.Effects.{
  stop_gone, warn_gone, warn_live, stop_live, advance_closed, advance_live, intent_closed,
  intent_live, autosave_closed, autosave_live, detach_closed, detach_own, detach_other, stop_idle,
  warn_idle,
}
use mathlib.Core.Path.{subst}
use ssh_idlefarmer.Prelude.Tables.{string_key, find, Table}

-- The goroutine's next step: the closure on an actor, or its stop.
unfoldable pub flush_next : Codec → Bool → Manager → Manager
flush_next cd written m = if m.warned then stop_next cd written m else warn_next m

pub data ShutdownError : Type 0 where
  interrupted : ShutdownError

-- The `select`: nil once the goroutine is done. The context may be done at any time, and where both are the
-- choice is open.
pub data Answers (m : Manager) : Option ShutdownError → Type 0 where
  flushed : m.pending ≡ [] → Answers m none
  context_done : Answers m (some interrupted)

module _ (float_sqrt : ℕ → ℕ) (cd : Codec) (c : Content) where
  -- What else happens in the process: sessions come, act and go, and saves are written.
  pub data SessionStep (m : Manager) : Manager → Type 0 where
    comes :
        (luck : AttachLuck) (k : SaveKey) (public_key : String) (now : ℤ)
        → SessionStep m (attach cd c luck k public_key now m).1
    ticks : (now : ℤ) (h : Handle) → SessionStep m (session_advance c now h m).1
    plays :
        (now : ℤ) (i : Intent) (h : Handle)
        → SessionStep m (session_intent float_sqrt c now i h m).1
    saves : (written : Bool) (k : SaveKey) → SessionStep m (autosave cd written k m)
    goes : (written again : Bool) (h : Handle) → SessionStep m (detach cd written again h m)

  -- The managers that a shutdown of `m` gets to, with the number of steps that its goroutine has done.
  pub data ShuttingDown (m : Manager) : ℕ → Manager → Type 0 where
    begins : ShuttingDown m 0 (begin_shutdown m)
    flushes :
        {k : ℕ} {n : Manager}
        → ShuttingDown m k n
        → (written : Bool) → ShuttingDown m (suc k) (flush_next cd written n)
    meanwhile : {k : ℕ} {n p : Manager} → ShuttingDown m k n → SessionStep n p → ShuttingDown m k p

-- What only the goroutine changes.
pub record KeepsFlush (m n : Manager) : Type 0 where
  pub closing_kept : n.closing ≡ m.closing
  pub pending_kept : n.pending ≡ m.pending
  pub warned_kept : n.warned ≡ m.warned

kept : (m : Manager) → KeepsFlush m m
kept m = record { closing_kept = refl; pending_kept = refl; warned_kept = refl }

module _ (float_sqrt : ℕ → ℕ) (cd : Codec) (c : Content) where
  pub SessionStep-ManagerStep :
      {m n : Manager} → SessionStep float_sqrt cd c m n → ManagerStep float_sqrt cd c m n
  SessionStep-ManagerStep {m} (comes luck k public_key now) = attaches m luck k public_key now
  SessionStep-ManagerStep {m} (ticks now h) = advances m now h
  SessionStep-ManagerStep {m} (plays now i h) = acts m now i h
  SessionStep-ManagerStep {m} (saves written k) = autosaves m written k
  SessionStep-ManagerStep {m} (goes written again h) = detaches m written again h

  SessionStep-KeepsFlush :
      {m n : Manager} → m.closing ≡ true → SessionStep float_sqrt cd c m n → KeepsFlush m n
  SessionStep-KeepsFlush {m} on (comes luck k public_key now) =
      rw (attach_closing cd c luck k public_key now m on) (kept m)
  SessionStep-KeepsFlush {m} on (ticks now h) = elim (Option-cases (live_actor h.key h.uid m)) [
    | inl e ↦ rw (advance_closed c now h m e) (kept m)
    | inr (a, e) ↦
        subst (KeepsFlush m) (sym (advance_live c now h m e))
          (record { closing_kept = refl; pending_kept = refl; warned_kept = refl })
  ]
  SessionStep-KeepsFlush {m} on (plays now i h) = elim (Option-cases (live_actor h.key h.uid m)) [
    | inl e ↦ rw (intent_closed c now h m float_sqrt i e) (kept m)
    | inr (a, e) ↦
        subst (KeepsFlush m) (sym (intent_live c now h m float_sqrt i e))
          (record { closing_kept = refl; pending_kept = refl; warned_kept = refl })
  ]
  SessionStep-KeepsFlush {m} on (saves written k) = elim (Option-cases (find k m.actors)) [
    | inl e ↦ rw (autosave_closed cd written k m e) (kept m)
    | inr (a, e) ↦
        subst (KeepsFlush m) (sym (autosave_live cd written k m e))
          (record { closing_kept = refl; pending_kept = refl; warned_kept = refl })
  ]
  SessionStep-KeepsFlush {m} on (goes written again h) =
      elim (Option-cases (live_actor h.key h.uid m)) [
        | inl e ↦
            subst (KeepsFlush m) (sym (detach_closed cd written again h m e))
              (record { closing_kept = refl; pending_kept = refl; warned_kept = refl })
        | inr (a, e) ↦ elim (Bool-cases (holds h.id a.session)) [
          | inl own ↦
              subst (KeepsFlush m) (sym (detach_own cd written again h m e own))
                (record { closing_kept = refl; pending_kept = refl; warned_kept = refl })
          | inr other ↦
              subst (KeepsFlush m) (sym (detach_other cd written again h m e other))
                (record { closing_kept = refl; pending_kept = refl; warned_kept = refl })
        ]
      ]

warn-pending : (m : Manager) → (warn_next m).pending ≡ m.pending
warn-pending m = (warn-Shrinks m).pending_same

warn-warned :
    (m : Manager) (x : SaveKey × ℕ) {rest : List (SaveKey × ℕ)}
    → m.pending ≡ x ∷ rest
    → (warn_next m).warned ≡ true
warn-warned m (k, uid) e = elim (Option-cases (live_actor k uid m)) [
  | inl gone ↦ rw (warn_gone m e gone) refl
  | inr (a, live) ↦ rw (warn_live m e live) refl
]

-- A stop takes the actor off those that wait.
stop-pending :
    (cd : Codec) (b : Bool) (m : Manager) (x : SaveKey × ℕ) {rest : List (SaveKey × ℕ)}
    → m.warned ≡ true
    → m.pending ≡ x ∷ rest
    → let n = stop_next cd b m in (n.pending ≡ rest) × (n.closing ≡ m.closing) × (n.warned ≡ false)
stop-pending cd b m (k, uid) w e = elim (Option-cases (live_actor k uid m)) [
  | inl gone ↦ rw (stop_gone m cd b w e gone) (refl, refl, refl)
  | inr (a, live) ↦ rw (stop_live m cd b w e live) (refl, refl, refl)
]

-- The steps that the goroutine has still to do.
abbrev pub work : Manager → ℕ
work m = 2 * length m.pending - (if m.warned then 1 else 0)

flush-work :
    (cd : Codec) (b : Bool) (m : Manager)
    → (work (flush_next cd b m) ≡ work m - 1) × ((flush_next cd b m).closing ≡ m.closing)
unfolding flush_next
flush-work cd b m = elim (Bool-cases m.warned) [
  | inl w ↦ elim (List-cases m.pending) [
    | inl e ↦ ground (arith, w, e, stop_idle m cd b e)
    | inr (x, rest, e) ↦ ground (arith, w, e, stop-pending cd b m x w e)
  ]
  | inr w ↦ elim (List-cases m.pending) [
    | inl e ↦ ground (arith, w, e, warn_idle m e)
    | inr (x, rest, e) ↦
        ground (arith, w, e, warn-warned m x e, warn-pending m, (warn-Shrinks m).closing_same)
  ]
]

length-running : (rows : Table SaveKey Actor) → length (running rows) ≡ length rows
unfolding running
length-running [] = refl
length-running ((k, a) ∷ rows) = ground (arith, length-running rows)

begin-work : (m : Manager) → work (begin_shutdown m) ≡ 2 * active_saves m
unfolding begin_shutdown active_saves
begin-work m = ground (arith, length-running m.actors)

module _ (float_sqrt : ℕ → ℕ) (cd : Codec) (c : Content) {m : Manager} where
  pub ShuttingDown-work :
      {k : ℕ} {n : Manager}
      → ShuttingDown float_sqrt cd c m k n
      → (n.closing ≡ true) × (work n ≤ 2 * active_saves m - k)
  unfolding begin_shutdown
  ShuttingDown-work begins = ground (arith, begin-work m)
  ShuttingDown-work (flushes {k} {n} r b) = ground (arith, ShuttingDown-work r, flush-work cd b n)
  ShuttingDown-work (meanwhile {k} {n} {p} r s) =
      let (on, left) = ShuttingDown-work r in
      let same = SessionStep-KeepsFlush float_sqrt cd c on s in
      ground (arith, on, left, same.closing_kept, same.pending_kept, same.warned_kept)
