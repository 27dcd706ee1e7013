-- ===== src/Game/Ended.antt =====
-- internal/game/manager.go: what is left when a call of `Shutdown` answers, and that it can answer nil.
use ssh_idlefarmer.Game.Closing.{
  flush_next, ShutdownError, interrupted, Answers, flushed, context_done, ShuttingDown, begins,
  flushes, meanwhile, ShuttingDown-work, SessionStep-ManagerStep,
}
use ssh_idlefarmer.Prelude.{
  inr, inr, inl, false, true, some, none, Option, ℕ, Bool, String, ◌≡◌, ◌*◌, ◌≤◌, List-cases, arith,
  Bool-cases, sym, ℤ,
}
use ssh_idlefarmer.Game.Registry.{
  Codec, Manager, active_saves, warn_next, stop_next, AttachLuck, attach, turned_away,
  shutting_down,
}
use ssh_idlefarmer.Content.{Content}
use ssh_idlefarmer.Game.Lifecycle.{ManagerStep, Running, then_does, begins_shutdown, stops, warns}
use ssh_idlefarmer.Game.Emptied.{number, waits}
use ssh_idlefarmer.Store.Rows.{Store, SaveKey}
use mathlib.Core.Path.{subst}
use ssh_idlefarmer.Game.Shutdown.{Running-Emptied, Running-AllWait}
use ssh_idlefarmer.Game.Attaching.{attach_closing}

flush_stops :
    (cd : Codec) (b : Bool) (m : Manager) → m.warned ≡ true → flush_next cd b m ≡ stop_next cd b m
unfolding flush_next
flush_stops cd b m e = ground (arith, e)

flush_warns :
    (cd : Codec) (b : Bool) (m : Manager) → m.warned ≡ false → flush_next cd b m ≡ warn_next m
unfolding flush_next
flush_warns cd b m e = ground (arith, e)

-- What is left when Shutdown has answered: no open save after nil, and after an interruption at most saves
-- of actors that the goroutine has still to stop.
abbrev pub Left : Option ShutdownError → Manager → Type 0
Left none n = active_saves n ≡ 0
Left (some interrupted) n =
    (k : SaveKey) (uid : ℕ) → number n k ≡ some uid → waits k uid n.pending ≡ true

flush-ManagerStep :
    (float_sqrt : ℕ → ℕ) (cd : Codec) (c : Content) (b : Bool) (n : Manager)
    → n.closing ≡ true
    → ManagerStep float_sqrt cd c n (flush_next cd b n)
flush-ManagerStep float_sqrt cd c b n on = elim (Bool-cases n.warned) [
  | inl e ↦ subst (ManagerStep float_sqrt cd c n) (sym (flush_stops cd b n e)) (stops n b on)
  | inr e ↦ subst (ManagerStep float_sqrt cd c n) (sym (flush_warns cd b n e)) (warns n on)
]

module _ (float_sqrt : ℕ → ℕ) (cd : Codec) (c : Content) (policy : String) (st : Store) where
  pub ShuttingDown-Running :
      {m n : Manager} {k : ℕ}
      → Running float_sqrt cd c policy st m
      → m.closing ≡ false
      → ShuttingDown float_sqrt cd c m k n
      → Running float_sqrt cd c policy st n
  ShuttingDown-Running {m} r off begins = then_does r (begins_shutdown m off)
  ShuttingDown-Running r off (flushes {k} {n} d b) =
      let on = (ShuttingDown-work float_sqrt cd c d).0 in
      then_does (ShuttingDown-Running r off d) (flush-ManagerStep float_sqrt cd c b n on)
  ShuttingDown-Running r off (meanwhile d s) =
      then_does (ShuttingDown-Running r off d) (SessionStep-ManagerStep float_sqrt cd c s)

  -- For every state that a process reaches before its shutdown, whatever the sessions do while
  -- Shutdown runs and whichever writes fail: when it answers nil no save is open, when it answers
  -- that it was interrupted every open save is one of an actor that the goroutine has still to
  -- stop, and in both cases every attach is turned away.
  pub shutdown-closes :
      {m n : Manager} {k : ℕ} {answer : Option ShutdownError}
      → Running float_sqrt cd c policy st m
      → m.closing ≡ false
      → ShuttingDown float_sqrt cd c m k n
      → Answers n answer
      → Left answer n
        × ((luck : AttachLuck) (key : SaveKey) (public_key : String) (now : ℤ)
            → attach cd c luck key public_key now n ≡ (turned_away shutting_down, n))
  shutdown-closes {m} {n} r off d a =
      let on = (ShuttingDown-work float_sqrt cd c d).0 in
      let r' = ShuttingDown-Running r off d in
      (left_of r' on a, λ luck key public_key now. attach_closing cd c luck key public_key now n on)
    where
      left_of :
          {n : Manager} {answer : Option ShutdownError}
          → Running float_sqrt cd c policy st n
          → n.closing ≡ true
          → Answers n answer
          → Left answer n
      left_of r' on (flushed done) = Running-Emptied float_sqrt cd c policy st r' on done
      left_of r' on context_done = Running-AllWait float_sqrt cd c policy st r' on

-- From any state of the registry, whatever the sessions do and whichever writes fail: after two
-- steps of the goroutine for each save that was open at the start, Shutdown can answer nil.
pub shutdown_ends :
    (float_sqrt : ℕ → ℕ) (cd : Codec) (c : Content) {m n : Manager} {k : ℕ}
    → ShuttingDown float_sqrt cd c m k n
    → 2 * active_saves m ≤ k
    → Answers n none
shutdown_ends float_sqrt cd c {m} {n} {k} d enough =
    let left = (ShuttingDown-work float_sqrt cd c d).1 in
    elim (List-cases n.pending) [
      | inl e ↦ flushed e
      | inr (x, rest, e) ↦ absurd (ground (arith, left, enough, e))
    ]
