-- ===== src/Game/Locks.antt =====
-- What the registry promises of sessions: a lock for each save, held by at most one session.
use ssh_idlefarmer.Store.Rows.{save_key, SaveKey, same_save, same_save_iff}
use ssh_idlefarmer.Prelude.{
  refl, true, suc, true, some, none, Bool, Option, ℕ, ◌≡◌, if◌then◌else◌, arith, ◌≤◌, ◌∙◌, sym, ap,
}
use ssh_idlefarmer.Game.Registry.{Manager, Actor}
use ssh_idlefarmer.Prelude.Tables.{find, put, drop_key, find-drop_key, find-put}

-- The session that holds a save.
abbrev pub session_of : Option Actor → Option ℕ
session_of none = none
session_of (some a) = a.session

abbrev pub Locks : Type 0
Locks = SaveKey → Option ℕ

unfoldable pub holder : Manager → Locks
holder m k = session_of (find k m.actors)

-- The specification. A new session takes the lock of one key: a free one, or, unless the policy refuses
-- that, another session's; its number is new. A session's end, or a shutdown, frees a lock. Nothing
-- else changes a lock. `n` and `n'` are the greatest numbers given out before and after.
pub data LockStep (refuses : Bool) (n n' : ℕ) (v w : Locks) : Type 0 where
  unchanged : n ≤ n' → ((j : SaveKey) → w j ≡ v j) → LockStep refuses n n' v w
  taken :
      (k : SaveKey)
      → (refuses ≡ true → v k ≡ none)
      → n' ≡ suc n
      → ((j : SaveKey) → w j ≡ (if same_save k j then some n' else v j))
      → LockStep refuses n n' v w
  freed :
      (k : SaveKey)
      → n ≤ n'
      → ((j : SaveKey) → w j ≡ (if same_save k j then none else v j))
      → LockStep refuses n n' v w

-- The step of a manager, as a step of its locks.
abbrev pub Locked : Manager → Manager → Type 0
Locked m m' = LockStep m.refuses m.next_id m'.next_id (holder m) (holder m')

module _ (m : Manager) (k j : SaveKey) where
  pub holder-put :
      (a : Actor) (n : Manager)
      → n.actors ≡ put k a m.actors
      → holder n j ≡ (if same_save k j then a.session else holder m j)
  unfolding holder
  holder-put a n e = rw e (ground (arith, find-put k j a m.actors))

  pub holder-drop :
      (n : Manager)
      → n.actors ≡ drop_key k m.actors
      → holder n j ≡ (if same_save k j then none else holder m j)
  unfolding holder
  holder-drop n e = rw e (ground (arith, find-drop_key k j m.actors))

-- The registry's table is as before.
pub same_actors : (m n : Manager) → n.actors ≡ m.actors → m.next_id ≤ n.next_id → Locked m n
unfolding holder
same_actors m n e le = unchanged le (λ j. rw e refl)

-- An actor keeps its session.
pub same_session :
    (m n : Manager) (k : SaveKey) {a : Actor} (b : Actor)
    → find k m.actors ≡ some a
    → b.session ≡ a.session
    → n.actors ≡ put k b m.actors
    → n.next_id ≡ m.next_id
    → Locked m n
same_session m n k {a} b found same e ids = unchanged (omega (arith, ids)) (λ j.
    holder-put m k j b n e ∙ (unfold holder in ground (arith, found, same, same_save_iff k j)))

-- Where `n` has the locks of `m`, its steps are steps of `m`.
pub from_same :
    (m n n' : Manager)
    → ((j : SaveKey) → holder n j ≡ holder m j)
    → n.next_id ≡ m.next_id
    → n.refuses ≡ m.refuses
    → Locked n n'
    → Locked m n'
from_same m n n' same ids pol (unchanged le e) = unchanged (rw (← ids) le) (λ j. e j ∙ same j)
from_same m n n' same ids pol (taken k free next e) =
    taken k (λ r. sym (same k) ∙ free (pol ∙ r)) (next ∙ ap suc ids)
      (λ j. e j ∙ ap (λ (o : Option ℕ). if same_save k j then some n'.next_id else o) (same j))
from_same m n n' same ids pol (freed k le e) =
    freed k (rw (← ids) le)
      (λ j. e j ∙ ap (λ (o : Option ℕ). if same_save k j then none else o) (same j))
