-- ===== src/Game/Lifecycle.antt =====
-- internal/game: the steps of a process, and the states that it reaches from a start on a store. Any
-- number of sessions act in any order; each write to the store may fail.
use ssh_idlefarmer.Store.Rows.{save_key, Store, SaveKey}
use ssh_idlefarmer.Prelude.{Bool, false, true, ℕ, String, ℤ, ◌≡◌}
use ssh_idlefarmer.Game.Registry.{
  Codec, Manager, AttachLuck, new_manager, attach, Handle, session_advance, session_intent,
  autosave, detach, begin_shutdown, warn_next, stop_next,
}
use ssh_idlefarmer.Content.{Content}
use ssh_idlefarmer.Game.Intents.{Intent}

module _ (float_sqrt : ℕ → ℕ) (cd : Codec) (c : Content) where
  -- A handle in a step may be any: one whose session has ended is answered that it is closed.
  pub data ManagerStep : Manager → Manager → Type 0 where
    attaches :
        (m : Manager) (luck : AttachLuck) (k : SaveKey) (public_key : String) (now : ℤ)
        → ManagerStep m (attach cd c luck k public_key now m).1
    advances : (m : Manager) (now : ℤ) (h : Handle) → ManagerStep m (session_advance c now h m).1
    acts :
        (m : Manager) (now : ℤ) (i : Intent) (h : Handle)
        → ManagerStep m (session_intent float_sqrt c now i h m).1
    autosaves :
        (m : Manager) (written : Bool) (k : SaveKey) → ManagerStep m (autosave cd written k m)
    detaches :
        (m : Manager) (written again : Bool) (h : Handle)
        → ManagerStep m (detach cd written again h m)
    begins_shutdown : (m : Manager) → m.closing ≡ false → ManagerStep m (begin_shutdown m)
    warns : (m : Manager) → m.closing ≡ true → ManagerStep m (warn_next m)
    stops :
        (m : Manager) (written : Bool) → m.closing ≡ true → ManagerStep m (stop_next cd written m)

  -- The states of a process with a policy, started on a store.
  pub data Running (policy : String) (st : Store) : Manager → Type 0 where
    started : Running policy st (new_manager policy st)
    then_does : {m n : Manager} → Running policy st m → ManagerStep m n → Running policy st n
