-- ===== src/Game/Resumed.antt =====
-- A save that is opened again goes on where it was left.
use ssh_idlefarmer.Store.Rows.{save_key, SaveKey, Store, SaveRow, Payload, got}
use ssh_idlefarmer.Store.Vault.{run_call, run_call-Effect, vault}
use ssh_idlefarmer.Game.Durable.{
  Played, opened, ticked, acted, saved, elsewhere, Backed, decoded-IsCurrent, load-valid,
  flush-Backed, flush-clean, vault-row, spared,
}
use ssh_idlefarmer.Sim.State.{State, decoded, decode_state}
use ssh_idlefarmer.Prelude.{
  refl, refl, true, false, some, none, inl, inr, ℕ, ◌≡◌, ℤ, Option, Bool-cases, arith, ◌∙◌, ap, sym,
}
use ssh_idlefarmer.Game.Registry.{Codec, flush}
use ssh_idlefarmer.Store.Saves.{load_or_create, Weather, valid_keys}
use ssh_idlefarmer.Content.{Content}
use ssh_idlefarmer.Game.Actor.{Save, tick, intent}
use ssh_idlefarmer.Prelude.Tables.{find}
use ssh_idlefarmer.Game.Held.{IsCurrent, tick-IsCurrent, intent-IsCurrent}
use ssh_idlefarmer.Game.Attaching.{load-row}
use ssh_idlefarmer.Game.Saves.{tick_clean, intent_clean}

-- A change of an open save that leaves it clean has changed nothing.
moved-Backed :
    (cd : Codec) (k : SaveKey) (v v' : Save) (st : Store)
    → Backed cd k v st
    → IsCurrent v'.state
    → (v'.dirty ≡ false → (v'.state ≡ v.state) × (v.dirty ≡ false))
    → Backed cd k v' st
moved-Backed cd k v v' st b current clean = record {
  current = current;
  valid = b.valid;
  payload = b.payload;
  found = b.found;
  in_sync = elim (Bool-cases v'.dirty) [
    | inl d ↦ inl d
    | inr e ↦
        let (same, was) = clean e in
        elim b.in_sync [
          | inl d ↦ absurd (ground (arith, d, was))
          | inr h ↦ inr (h ∙ ap decoded (sym same))
        ]
  ];
}

vault-find :
    (st : Store) (k : SaveKey) (row : SaveRow)
    → find k st.saves ≡ some row
    → vault st k ≡ some row.payload
unfolding vault
vault-find st k row e = rw e refl

-- The store of an open save never loses what it stands for.
Played-Backed :
    (float_sqrt : ℕ → ℕ) (cd : Codec) (law : (s : State) → cd.parse (cd.encode s) ≡ some s)
    (c : Content) (k : SaveKey) {v : Save} {st : Store}
    → Played float_sqrt cd c k v st
    → Backed cd k v st
Played-Backed q cd law c k (opened st w now fresh row made s e h time) = record {
  current = (decoded-IsCurrent (cd.parse row.payload) s h, time);
  valid = load-valid w k now fresh st e;
  payload = row.payload;
  found = vault-find (load_or_create w k now fresh st).1 k row (load-row w k now fresh st e);
  in_sync = inr h;
}
Played-Backed q cd law c k (ticked {v} {st} now time r) =
    let b = Played-Backed q cd law c k r in
    moved-Backed cd k v (tick c now v).1 st b (tick-IsCurrent q c now time v b.current)
      (tick_clean c now v time b.current.1)
Played-Backed q cd law c k (acted {v} {st} now i time r) =
    let b = Played-Backed q cd law c k r in
    moved-Backed cd k v (intent q c now i v).1 st b (intent-IsCurrent q c now time i v b.current)
      (intent_clean q c now i v time b.current.1)
Played-Backed q cd law c k (saved {v} {st} written r) =
    flush-Backed cd law k written v st (Played-Backed q cd law c k r)
Played-Backed q cd law c k (elsewhere {v} {st} call calm r) =
    let b = Played-Backed q cd law c k r in
    record {
      current = b.current;
      valid = b.valid;
      payload = b.payload;
      found =
          spared k call (vault st) (vault (run_call call st)) (run_call-Effect call st) calm
            b.found;
      in_sync = b.in_sync;
    }

-- A save that is there under a valid key is loaded as it is.
pub load_found :
    (w : Weather) (k : SaveKey) (now : ℤ) (fresh : Option (Payload × ℤ)) (st : Store)
    {row : SaveRow}
    → valid_keys k ≡ true
    → w.selects ≡ true
    → find k st.saves ≡ some row
    → load_or_create w k now fresh st ≡ (got (row, false), st)
unfolding load_or_create
load_found w k now none st valid reads e = ground (arith, valid, reads, e)
load_found w k now (some p) st valid reads e = ground (arith, valid, reads, e)

-- For a codec whose parser gives back each state that it encodes: whatever ticks, intents (at
-- times from 0 on), attempts to write that may fail, and calls for other saves follow the load of
-- a save whose time is not negative, in any order, a last write that succeeds leaves the save
-- clean, and a later LoadOrCreateSave finds the row, creates nothing, and its payload decodes to
-- the state as it was left.
pub flush-resumes :
    (float_sqrt : ℕ → ℕ) (cd : Codec) (law : (s : State) → cd.parse (cd.encode s) ≡ some s)
    (c : Content) (k : SaveKey) {v : Save} {st : Store}
    → Played float_sqrt cd c k v st
    → (w : Weather) (now : ℤ) (fresh : Option (Payload × ℤ)) → w.selects ≡ true
    → let (v', st') = flush cd true k v st in
      (v' ≡ record { state = v.state; dirty = false })
      × (row : SaveRow) × (load_or_create w k now fresh st' ≡ (got (row, false), st'))
      × (decode_state (cd.parse row.payload) ≡ decoded v.state)
flush-resumes q cd law c k {v} {st} r w now fresh reads =
    let b = Played-Backed q cd law c k r in
    let b' = flush-Backed cd law k true v st b in
    let done = flush-clean cd law k v st b in
    let (row, found, same) = vault-row (flush cd true k v st).1 k b'.found in
    (
      done,
      row,
      load_found w k now fresh (flush cd true k v st).1 b'.valid reads found,
      elim b'.in_sync [
        | inl d ↦ absurd (ground (arith, d, ap (λ (x : Save). x.dirty) done))
        | inr h ↦
            ap (λ (p : Payload). decode_state (cd.parse p)) same
            ∙ h
            ∙ ap (λ (x : Save). decoded x.state) done
      ],
    )
