-- ===== src/Game/Exclusive.antt =====
-- In every state that a process reaches, no session holds two saves of internal/game's registry.
use ssh_idlefarmer.Store.Rows.{save_key, SaveKey, Store, same_save_iff}
use ssh_idlefarmer.Game.Lifecycle.{started, then_does, Running}
use ssh_idlefarmer.Prelude.{some, some, ℕ, Bool, String, ◌≡◌, ◌≤◌, arith, sym, ◌∙◌}
use ssh_idlefarmer.Game.Locks.{holder, Locks, LockStep, unchanged, taken, freed}
use ssh_idlefarmer.Game.Registry.{Codec, new_manager, Manager}
use ssh_idlefarmer.Prelude.Tables.{find}
use ssh_idlefarmer.Content.{Content}
use ssh_idlefarmer.Game.Locking.{Step-Locked}

-- The locks are exclusive: numbers given out bound them, and no session holds two.
pub record Exclusive (n : ℕ) (v : Locks) : Type 0 where
  pub known : (k : SaveKey) (id : ℕ) → v k ≡ some id → id ≤ n
  pub single : (j k : SaveKey) (id : ℕ) → v j ≡ some id → v k ≡ some id → j ≡ k

LockStep-Exclusive :
    (refuses : Bool) (n n' : ℕ) (v w : Locks)
    → LockStep refuses n n' v w
    → Exclusive n v
    → Exclusive n' w
LockStep-Exclusive r n n' v w (unchanged le e) h = record {
  known = λ k id held. omega (arith, le, h.known k id (sym (e k) ∙ held));
  single = λ j k id a b. h.single j k id (sym (e j) ∙ a) (sym (e k) ∙ b);
}
LockStep-Exclusive r n n' v w (taken k free next e) h = record {
  known = λ j id held. ground (arith, next, e j, held, h.known j id);
  single = λ i j id a b. ground (
    arith,
    next,
    e i,
    e j,
    a,
    b,
    h.single i j id,
    h.known i id,
    h.known j id,
    same_save_iff k i,
    same_save_iff k j,
  );
}
LockStep-Exclusive r n n' v w (freed k le e) h = record {
  known = λ j id held. ground (arith, le, e j, held, h.known j id);
  single = λ i j id a b. ground (arith, e i, e j, a, b, h.single i j id);
}

start-Exclusive : (policy : String) (st : Store) → Exclusive 0 (holder (new_manager policy st))
unfolding holder new_manager find
start-Exclusive policy st = record { known = λ k id e. cc; single = λ j k id a b. cc }

-- In every state that a process reaches from a start on a store, under either policy, no session
-- holds two saves, and each session that holds one has a number that was given out.
pub Running-Exclusive :
    (float_sqrt : ℕ → ℕ) (cd : Codec) (c : Content) {policy : String} {st : Store} {m : Manager}
    → Running float_sqrt cd c policy st m
    → Exclusive m.next_id (holder m)
Running-Exclusive q cd c {policy} {st} started = unfold new_manager in start-Exclusive policy st
Running-Exclusive q cd c (then_does {m} {n} r step) =
    LockStep-Exclusive m.refuses m.next_id n.next_id (holder m) (holder n) (Step-Locked q cd c step)
      (Running-Exclusive q cd c r)
