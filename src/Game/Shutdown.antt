-- ===== src/Game/Shutdown.antt =====
-- The registry of internal/game at the end of a process, over its steps.
use ssh_idlefarmer.Prelude.Tables.{string_key, nat_key, find, find-drop_key, Table}
use ssh_idlefarmer.Store.Rows.{save_key, SaveKey, same_save, same_save_iff, Store}
use ssh_idlefarmer.Prelude.{
  inr, inl, refl, false, [], none, false, true, ◌∷◌, some, Bool, ℕ, List, ◌≡◌, ◌&&◌, ◌==◌, sym, ◌∙◌,
  arith, Bool-cases, String, Option-cases, ℤ, length, List-cases,
}
use ssh_idlefarmer.Game.Registry.{
  Codec, Manager, stop_next, join, live_actor, begin_shutdown, AttachLuck, Actor, new_manager,
  attach, active_saves, Attempt,
}
use ssh_idlefarmer.Game.Emptied.{
  AllWait, number, waits, running_wait, Shrinks-AllWait, advance-Shrinks, intent-Shrinks,
  autosave-Shrinks, detach-Shrinks, warn-Shrinks,
}
use mathlib.Core.Path.{subst}
use ssh_idlefarmer.Content.{Content}
use ssh_idlefarmer.Game.Effects.{stop_unwarned, stop_idle, stop_gone, stop_live, stopped}
use ssh_idlefarmer.Game.Lifecycle.{
  ManagerStep, attaches, Running, advances, then_does, started, acts, autosaves, detaches,
  begins_shutdown, warns, stops,
}
use ssh_idlefarmer.Game.Attaching.{attach_closing, attach-cases, loaded_actor, with_loaded}

-- The actor that was stopped does not wait; all others do.
dropped_waits :
    (m : Manager) (k : SaveKey) (uid : ℕ) (rest : List (SaveKey × ℕ))
    → m.pending ≡ (k, uid) ∷ rest
    → AllWait m
    → (n : Manager) → n.closing ≡ m.closing
    → n.pending ≡ rest
    → ((j : SaveKey) (own : ℕ)
        → number n j ≡ some own
        → (number m j ≡ some own) × ((same_save k j && uid == own) ≡ false))
    → AllWait n
dropped_waits m k uid rest e h n f g sub on j own at =
    let (before, other) = sub j own at in
    let waited : waits j own m.pending ≡ true = h (sym f ∙ on) j own before in
    rw g (ground (arith, subst (λ p. waits j own p ≡ true) e waited, other))

gone_differs :
    (m : Manager) (k j : SaveKey) (uid own : ℕ)
    → live_actor k uid m ≡ none
    → number m j ≡ some own
    → (same_save k j && uid == own) ≡ false
unfolding number live_actor
gone_differs m k j uid own gone at = elim (Bool-cases (same_save k j)) [
  | inl e ↦ elim (Option-cases (find k m.actors)) [
    | inl e' ↦ absurd (ground (arith, e, e', at, same_save_iff k j))
    | inr (a, e') ↦ ground (arith, e, e', at, gone, same_save_iff k j)
  ]
  | inr e ↦ ground (arith, e)
]

stop-AllWait :
    (cd : Codec) (written : Bool) (m : Manager) → AllWait m → AllWait (stop_next cd written m)
unfolding number
stop-AllWait cd written m h = elim (Bool-cases m.warned) [
  | inr e ↦ rw (stop_unwarned m cd written e) h
  | inl w ↦ elim (List-cases m.pending) [
    | inl e ↦ rw (stop_idle m cd written e) h
    | inr ((k, uid), rest, e) ↦ elim (Option-cases (live_actor k uid m)) [
      | inl gone ↦ subst AllWait (sym (stop_gone m cd written w e gone)) (
          dropped_waits m k uid rest e h (record m { pending = rest; warned = false }) refl refl
            (λ j own at. (at, gone_differs m k j uid own gone at)))
      | inr (a, live) ↦ subst AllWait (sym (stop_live m cd written w e live)) (
          dropped_waits m k uid rest e h
            (stopped cd written k (record m { pending = rest; warned = false }) a) refl refl
            (λ j own at. ground (arith, at, find-drop_key k j m.actors)))
    ]
  ]
]

join-closing :
    (c : Content) (k : SaveKey) (now : ℤ) (a : Actor) (created : Bool) (m : Manager)
    → (join c k now a created m).1.closing ≡ m.closing
unfolding join
join-closing c k now a created m = ground arith

pub attach-closing :
    (cd : Codec) (c : Content) (luck : AttachLuck) (k : SaveKey) (public_key : String) (now : ℤ)
    (m : Manager)
    → (attach cd c luck k public_key now m).1.closing ≡ m.closing
attach-closing cd c luck k public_key now m =
    attach-cases cd c luck k now m (λ (x : Attempt × Manager). x.1.closing ≡ m.closing)
      (λ e st ext. refl)
      (λ st a ext on busy. join-closing c k now a false (record m { store = st }))
      (λ st row s created ext on free found good.
        join-closing c k now (loaded_actor s m) created (with_loaded k s st m))
      public_key

attach-AllWait :
    (cd : Codec) (c : Content) (luck : AttachLuck) (k : SaveKey) (public_key : String) (now : ℤ)
    (m : Manager)
    → AllWait m
    → AllWait (attach cd c luck k public_key now m).1
attach-AllWait cd c luck k public_key now m h = elim (Bool-cases m.closing) [
  | inl e ↦ rw (attach_closing cd c luck k public_key now m e) h
  | inr e ↦
      λ on j uid at. absurd (ground (arith, e, on, attach-closing cd c luck k public_key now m))
]

begin-AllWait : (m : Manager) → AllWait (begin_shutdown m)
unfolding number begin_shutdown
begin-AllWait m on k uid at = elim (Option-cases (find k m.actors)) [
  | inl e ↦ absurd (ground (arith, e, at))
  | inr (a, e) ↦ ground (arith, e, at, running_wait k m.actors a e)
]

module _ (float_sqrt : ℕ → ℕ) (cd : Codec) (c : Content) where
  Step-AllWait : {m n : Manager} → ManagerStep float_sqrt cd c m n → AllWait m → AllWait n
  Step-AllWait (attaches m luck k public_key now) h = attach-AllWait cd c luck k public_key now m h
  Step-AllWait (advances m now hd) h = Shrinks-AllWait m _ (advance-Shrinks c now hd m) h
  Step-AllWait (acts m now i hd) h = Shrinks-AllWait m _ (intent-Shrinks float_sqrt c now i hd m) h
  Step-AllWait (autosaves m written k) h = Shrinks-AllWait m _ (autosave-Shrinks cd written k m) h
  Step-AllWait (detaches m written again hd) h =
      Shrinks-AllWait m _ (detach-Shrinks cd written again hd m) h
  Step-AllWait (begins_shutdown m e) h = begin-AllWait m
  Step-AllWait (warns m e) h = Shrinks-AllWait m _ (warn-Shrinks m) h
  Step-AllWait (stops m written e) h = stop-AllWait cd written m h

  pub Running-AllWait :
      (policy : String) (st : Store) {m : Manager} → Running float_sqrt cd c policy st m → AllWait m
  unfolding new_manager number
  Running-AllWait policy st started = λ on k uid at. absurd (ground (arith, on))
  Running-AllWait policy st (then_does r s) = Step-AllWait s (Running-AllWait policy st r)

no_actors : (rows : Table SaveKey Actor) → ((k : SaveKey) → find k rows ≡ none) → length rows ≡ 0
unfolding find
no_actors [] h = refl
no_actors ((k, a) ∷ rows) h = absurd (ground (arith, h k, same_save_iff k k))

module _ (float_sqrt : ℕ → ℕ) (cd : Codec) (c : Content) (policy : String) (st : Store) where
  -- In every state that a process reaches, whatever its sessions do during a shutdown: when
  -- Shutdown has begun and has no actor left to stop, no save is open.
  pub Running-Emptied :
      {m : Manager}
      → Running float_sqrt cd c policy st m
      → m.closing ≡ true
      → m.pending ≡ []
      → active_saves m ≡ 0
  unfolding active_saves number
  Running-Emptied {m} r on done = no_actors m.actors (λ k. elim (Option-cases (find k m.actors)) [
    | inl e ↦ e
    | inr (a, e) ↦
        let w = Running-AllWait float_sqrt cd c policy st r on k a.uid (ground (arith, e)) in
        absurd (ground (arith, w, done))
  ])
