-- ===== src/Game/Attaching.antt =====
-- The ways that `Attach` of internal/game/manager.go can go.
use ssh_idlefarmer.Store.Rows.{
  save_key, Answer, SaveKey, Store, StoreError, SaveRow, fault, got, Payload, same_save_iff,
}
use ssh_idlefarmer.Prelude.Tables.{string_key, nat_key, put, find, find-put}
use ssh_idlefarmer.Prelude.{
  inr, true, inr, inl, refl, false, suc, some, none, Bool, ℤ, String, ◌≡◌, Option, ◌⊎◌, arith,
  Bool-cases, sym, Option-cases,
}
use ssh_idlefarmer.Store.Saves.{
  load_or_create, insert_save, Weather, reread, touch_account, with_rival,
}
use ssh_idlefarmer.Game.Registry.{
  Codec, Manager, AttachLuck, Actor, Attempt, attach, join, AttachError, load_and_join, turned_away,
  shutting_down, account_error, fresh_save, join_loaded, join_new, load_error, decode_error,
}
use ssh_idlefarmer.Sim.State.{State, decode_state, decoded, Decoded, refused}
use ssh_idlefarmer.Content.{Content}
use ssh_idlefarmer.Store.Vault.{touch-kept, opened_row}
use mathlib.Core.Path.{subst}

-- Every save that was there is there, with the same row.
abbrev pub Extends : Store → Store → Type 0
Extends st st' =
    (j : SaveKey) (row : SaveRow) → find j st.saves ≡ some row → find j st'.saves ≡ some row

touch-Extends :
    (written : Bool) (fingerprint public_key : String) (now : ℤ) (st : Store)
    → Extends st (touch_account written fingerprint public_key now st).1
touch-Extends written fingerprint public_key now st j row h =
    rw (touch-kept written fingerprint public_key now st) h

load-Extends :
    (w : Weather) (k : SaveKey) (now : ℤ) (fresh : Option (Payload × ℤ)) (st : Store)
    → Extends st (load_or_create w k now fresh st).1
load-Extends w k now fresh st j row h = elim (opened_row w k now fresh st) [
  | inl e ↦ rw e h
  | inr (q, valid, free, e) ↦
      rw e (ground (arith, h, free, find-put k j q st.saves, same_save_iff k j))
]

-- What is answered is the row of the store.
reread-row :
    (reads created : Bool) (k : SaveKey) (st : Store) {row : SaveRow} {made : Bool}
    → (reread reads created k st).0 ≡ got (row, made)
    → find k (reread reads created k st).1.saves ≡ some row
unfolding reread
reread-row reads created k st h = ground (arith, h)

insert_save-row :
    (w : Weather) (k : SaveKey) (r : SaveRow) (st : Store) {row : SaveRow} {made : Bool}
    → (insert_save w k r st).0 ≡ got (row, made)
    → find k (insert_save w k r st).1.saves ≡ some row
unfolding insert_save reread
insert_save-row w k r st h = ground (arith, h)

pub load-row :
    (w : Weather) (k : SaveKey) (now : ℤ) (fresh : Option (Payload × ℤ)) (st : Store)
    {row : SaveRow} {made : Bool}
    → (load_or_create w k now fresh st).0 ≡ got (row, made)
    → find k (load_or_create w k now fresh st).1.saves ≡ some row
unfolding load_or_create
load-row w k now none st h = ground (arith, h)
load-row w k now (some p) st h =
    let r : SaveRow = record {
      created_at = now;
      last_active = now;
      payload = p.0;
      state_version = p.1;
    } in
    ground (arith, h, insert_save-row w k r (with_rival k w.rival st))

-- A new actor for a state that was loaded.
abbrev pub loaded_actor : State → Manager → Actor
loaded_actor s m = record {
  uid = m.next_uid;
  save = record { state = s; dirty = false };
  session = none;
}

abbrev pub with_loaded : SaveKey → State → Store → Manager → Manager
with_loaded k s st m = record m {
  store = st;
  actors = put k (loaded_actor s m) m.actors;
  next_uid = suc m.next_uid;
}

pub Answer-cases :
    {A : Type 0} (r : Answer A) → ((e : StoreError) × (r ≡ fault e)) ⊎ ((a : A) × (r ≡ got a))
Answer-cases (fault e) = inl (e, refl)
Answer-cases (got a) = inr (a, refl)

module _ (cd : Codec) (c : Content) (luck : AttachLuck) (k : SaveKey) (public_key : String)
    (now : ℤ) (m : Manager) where
  abbrev touching : Answer (Unit {0}) × Store
  touching = touch_account luck.touches k.fingerprint public_key now m.store

  pub attach_closing :
      m.closing ≡ true → attach cd c luck k public_key now m ≡ (turned_away shutting_down, m)
  unfolding attach
  attach_closing e = ground (arith, e)

  pub attach_fault :
      m.closing ≡ false
      → {e : StoreError} → touching.0 ≡ fault e
      → attach cd c luck k public_key now m
        ≡ (turned_away (account_error e), record m { store = touching.1 })
  unfolding attach
  attach_fault on bad = ground (arith, on, bad)

  pub attach_open :
      m.closing ≡ false
      → {u : Unit {0}} {a : Actor} → touching.0 ≡ got u
      → find k m.actors ≡ some a
      → attach cd c luck k public_key now m ≡ join c k now a false (record m { store = touching.1 })
  unfolding attach
  attach_open on fine busy = ground (arith, on, fine, busy)

  pub attach_load :
      m.closing ≡ false
      → {u : Unit {0}} → touching.0 ≡ got u
      → find k m.actors ≡ none
      → attach cd c luck k public_key now m
        ≡ load_and_join cd c luck k now (record m { store = touching.1 })
  unfolding attach
  attach_load on fine free = ground (arith, on, fine, free)

module _ (cd : Codec) (c : Content) (luck : AttachLuck) (k : SaveKey) (now : ℤ) (m : Manager)
    (P : Attempt × Manager → Type 0)
    (failed : (e : AttachError) (st : Store)
      → Extends m.store st
      → P (turned_away e, record m { store = st }))
    (opened : (st : Store) (a : Actor)
      → Extends m.store st
      → m.closing ≡ false
      → find k m.actors ≡ some a
      → P (join c k now a false (record m { store = st })))
    (loaded : (st : Store) (row : SaveRow) (s : State) (created : Bool)
      → Extends m.store st
      → m.closing ≡ false
      → find k m.actors ≡ none
      → find k st.saves ≡ some row
      → decode_state (cd.parse row.payload) ≡ decoded s
      → P (join c k now (loaded_actor s m) created (with_loaded k s st m))) where
  join_new-cases :
      (created : Bool) (st : Store) (row : SaveRow) (d : Decoded)
      → Extends m.store st
      → m.closing ≡ false
      → find k m.actors ≡ none
      → find k st.saves ≡ some row
      → decode_state (cd.parse row.payload) ≡ d
      → P (join_new c k now created d (record m { store = st }))
  unfolding join_new
  join_new-cases created st row (refused e) ext on free found same = failed (decode_error e) st ext
  join_new-cases created st row (decoded s) ext on free found same =
      loaded st row s created ext on free found same

  join_loaded-cases :
      (st : Store) (answer : Answer (SaveRow × Bool))
      → Extends m.store st
      → m.closing ≡ false
      → find k m.actors ≡ none
      → ((row : SaveRow) (made : Bool) → answer ≡ got (row, made) → find k st.saves ≡ some row)
      → P (join_loaded cd c k now answer (record m { store = st }))
  unfolding join_loaded
  join_loaded-cases st (fault e) ext on free known = failed (load_error e) st ext
  join_loaded-cases st (got (row, made)) ext on free known =
      join_new-cases made st row (decode_state (cd.parse row.payload)) ext on free
        (known row made refl) refl

  load_and_join-cases :
      (st : Store)
      → Extends m.store st
      → m.closing ≡ false
      → find k m.actors ≡ none
      → P (load_and_join cd c luck k now (record m { store = st }))
  unfolding load_and_join
  load_and_join-cases st ext on free =
      let fresh = some (fresh_save cd c luck.seed now) in
      join_loaded-cases (load_or_create luck.weather k now fresh st).1
        (load_or_create luck.weather k now fresh st).0
        (λ j row h. load-Extends luck.weather k now fresh st j row (ext j row h)) on free
        (λ row made e. load-row luck.weather k now fresh st e)

  pub attach-cases : (public_key : String) → P (attach cd c luck k public_key now m)
  attach-cases public_key =
      let touched = touch_account luck.touches k.fingerprint public_key now m.store in
      let ext : Extends m.store touched.1 =
        touch-Extends luck.touches k.fingerprint public_key now m.store in
      elim (Bool-cases m.closing) [
        | inl closed ↦
            subst P (sym (attach_closing cd c luck k public_key now m closed))
              (failed shutting_down m.store (λ j row h. h))
        | inr on ↦ elim (Answer-cases touched.0) [
          | inl (e, bad) ↦
              subst P (sym (attach_fault cd c luck k public_key now m on bad))
                (failed (account_error e) touched.1 ext)
          | inr (u, fine) ↦ elim (Option-cases (find k m.actors)) [
            | inl free ↦
                subst P (sym (attach_load cd c luck k public_key now m on fine free))
                  (load_and_join-cases touched.1 ext on free)
            | inr (a, busy) ↦
                subst P (sym (attach_open cd c luck k public_key now m on fine busy))
                  (opened touched.1 a ext on busy)
          ]
        ]
      ]
