-- ===== src/Game/Durable.antt =====
-- Nothing that a player has done is lost between two attaches: an open save and its row in the store.
use mathlib.Core.Path.{subst}
use ssh_idlefarmer.Store.Vault.{run_call, kept, created, replaced, Vault, vault, Effect, found_put}
use ssh_idlefarmer.Store.Rows.{save_key, same_save_iff}
use ssh_idlefarmer.Game.Intents.{Intent}
use ssh_idlefarmer.Sim.State.{State, decoded, decode_state, state_version}
use ssh_idlefarmer.Prelude.{
  refl, refl, true, false, some, none, inl, inr, ℕ, Option, Bool, ◌≡◌, ℤ, not, ◌⊎◌, NonNeg, arith,
  Option-cases, ◌∙◌, sym, Bool-cases, ap,
}
use ssh_idlefarmer.Store.Rows.{SaveKey, Store, Payload, SaveRow, got, same_save}
use ssh_idlefarmer.Game.Registry.{Codec, flush}
use ssh_idlefarmer.Game.Actor.{Save, tick, intent, persist}
use ssh_idlefarmer.Content.{Content}
use ssh_idlefarmer.Store.Vault.{Call, touches, opens, persists}
use ssh_idlefarmer.Store.Saves.{Weather, valid_keys, load_or_create, persist_save}
use ssh_idlefarmer.Game.Held.{IsCurrent}
use ssh_idlefarmer.Prelude.Tables.{find, put}
use ssh_idlefarmer.Sim.Versions.{decode_state_twice, decode_current}

-- The calls that leave the payload of an existing save alone: all but a write under its key.
abbrev pub spares : SaveKey → Call → Bool
spares k (touches written fingerprint public_key now) = true
spares k (opens w j now fresh) = true
spares k (persists written j payload version last_active) = not (same_save j k)

module _ (float_sqrt : ℕ → ℕ) (cd : Codec) (c : Content) (k : SaveKey) where
  -- A save and the store, from the load of the save on: ticks and intents at times from 0 on, attempts to
  -- write it, and calls for other accounts and saves, in any order.
  pub data Played : Save → Store → Type 0 where
    opened :
        (st : Store) (w : Weather) (now : ℤ) (fresh : Option (Payload × ℤ)) (row : SaveRow)
        (made : Bool) (s : State)
        → (load_or_create w k now fresh st).0 ≡ got (row, made)
        → decode_state (cd.parse row.payload) ≡ decoded s
        → NonNeg s.updated_at
        → Played (record { state = s; dirty = false }) (load_or_create w k now fresh st).1
    ticked :
        {v : Save} {st : Store} (now : ℤ) → NonNeg now → Played v st → Played (tick c now v).1 st
    acted :
        {v : Save} {st : Store} (now : ℤ) (i : Intent)
        → NonNeg now
        → Played v st
        → Played (intent float_sqrt c now i v).1 st
    saved :
        {v : Save} {st : Store} (written : Bool)
        → Played v st
        → Played (flush cd written k v st).0 (flush cd written k v st).1
    elsewhere :
        {v : Save} {st : Store} (call : Call)
        → spares k call ≡ true
        → Played v st
        → Played v (run_call call st)

-- The payload of a save is there, and stands for its state unless the save is dirty.
pub record Backed (cd : Codec) (k : SaveKey) (v : Save) (st : Store) : Type 0 where
  pub current : IsCurrent v.state
  pub valid : valid_keys k ≡ true
  pub payload : Payload
  pub found : vault st k ≡ some payload
  pub in_sync : (v.dirty ≡ true) ⊎ (decode_state (cd.parse payload) ≡ decoded v.state)

pub vault-row :
    (st : Store) (k : SaveKey) {p : Payload}
    → vault st k ≡ some p
    → (row : SaveRow) × (find k st.saves ≡ some row) × (row.payload ≡ p)
unfolding vault
vault-row st k {p} h = elim (Option-cases (find k st.saves)) [
  | inl e ↦ absurd (ground (arith, h, e))
  | inr (row, e) ↦ (row, e, ground (arith, h, e))
]

pub decoded-IsCurrent :
    (o : Option State) (s : State) → decode_state o ≡ decoded s → s.version ≡ state_version
decoded-IsCurrent none s h = absurd (unfold decode_state in cc)
decoded-IsCurrent (some t) s h = (decode_state_twice t h).0

pub load-valid :
    (w : Weather) (k : SaveKey) (now : ℤ) (fresh : Option (Payload × ℤ)) (st : Store)
    {row : SaveRow} {made : Bool}
    → (load_or_create w k now fresh st).0 ≡ got (row, made)
    → valid_keys k ≡ true
unfolding load_or_create
load-valid w k now fresh st h = ground (arith, h)

-- A call that spares a save keeps its payload.
pub spared :
    (k : SaveKey) (call : Call) (v w : Vault) {p : Payload}
    → Effect v w call
    → spares k call ≡ true
    → v k ≡ some p
    → w k ≡ some p
spared k call v w (kept c' same) calm h = same k ∙ h
spared k call v w (created weather j now fresh p valid free e) calm h =
    ground (arith, h, free, e k, same_save_iff j k)
spared k call v w (replaced written j p version last_active old valid found e) calm h =
    ground (arith, h, calm, e k)

-- What a flush does: nothing to a clean save, nothing that shows where the write fails, and else the row
-- gets the encoded state.
abbrev pub written_row : Codec → Save → SaveRow → SaveRow
written_row cd v row = record row {
  payload = cd.encode v.state;
  state_version = v.state.version;
  last_active = v.state.updated_at;
}

module _ (cd : Codec) (k : SaveKey) (v : Save) (st : Store) where
  flush_clean : (written : Bool) → v.dirty ≡ false → flush cd written k v st ≡ (v, st)
  unfolding flush
  flush_clean written e = ground (arith, e)

  flush_failed : flush cd false k v st ≡ (v, st)
  unfolding flush persist persist_save
  flush_failed = ground arith

  flush_written :
      {row : SaveRow}
      → v.dirty ≡ true
      → valid_keys k ≡ true
      → find k st.saves ≡ some row
      → flush cd true k v st ≡ (
        record { state = v.state; dirty = false },
        record st { saves = put k (written_row cd v row) st.saves },
      )
  unfolding flush persist persist_save
  flush_written e valid found = ground (arith, e, valid, found)

vault-found_put :
    (st : Store) (k : SaveKey) (row : SaveRow)
    → vault (record st { saves = put k row st.saves }) k ≡ some row.payload
unfolding vault
vault-found_put st k row = rw (found_put k row st) refl

module _ (cd : Codec) (law : (s : State) → cd.parse (cd.encode s) ≡ some s) (k : SaveKey) where
  decode-encode : (s : State) → IsCurrent s → decode_state (cd.parse (cd.encode s)) ≡ decoded s
  decode-encode s h = rw (law s) (decode_current s h.0)

  -- A write that goes through leaves the save clean and its state in the store.
  pub flush-Backed :
      (written : Bool) (v : Save) (st : Store)
      → Backed cd k v st
      → Backed cd k (flush cd written k v st).0 (flush cd written k v st).1
  flush-Backed false v st b =
      subst (λ (r : Save × Store). Backed cd k r.0 r.1) (sym (flush_failed cd k v st)) b
  flush-Backed true v st b = elim (Bool-cases v.dirty) [
    | inr clean ↦
        subst (λ (r : Save × Store). Backed cd k r.0 r.1) (sym (flush_clean cd k v st true clean)) b
    | inl dirty ↦
        let (row, found, same) = vault-row st k b.found in
        subst (λ (r : Save × Store). Backed cd k r.0 r.1)
          (sym (flush_written cd k v st dirty b.valid found))
          (record {
            current = b.current;
            valid = b.valid;
            payload = cd.encode v.state;
            found = vault-found_put st k (written_row cd v row);
            in_sync = inr (decode-encode v.state b.current);
          })
  ]

  pub flush-clean :
      (v : Save) (st : Store)
      → Backed cd k v st
      → (flush cd true k v st).0 ≡ record { state = v.state; dirty = false }
  flush-clean v st b = elim (Bool-cases v.dirty) [
    | inr clean ↦
        ap (λ (r : Save × Store). r.0) (flush_clean cd k v st true clean) ∙ ground (arith, clean)
    | inl dirty ↦
        let (row, found, same) = vault-row st k b.found in
        ap (λ (r : Save × Store). r.0) (flush_written cd k v st dirty b.valid found)
  ]
