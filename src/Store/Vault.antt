-- ===== src/Store/Vault.antt =====
-- What internal/store promises of saves: a map from keys to payloads, which no call empties, and which
-- a call changes at its own key only.
use ssh_idlefarmer.Prelude.Tables.{string_key, find, put, find-put}
use ssh_idlefarmer.Store.Rows.{save_key, Store, SaveKey, SaveRow, Payload, same_save, same_save_iff}
use ssh_idlefarmer.Prelude.{
  inr, inr, inl, refl, true, true, some, none, Option, Bool, String, ◌≡◌, ℤ, arith, if◌then◌else◌,
  ◌⊎◌, Option-cases, Bool-cases, ap, ◌&&◌, ◌∙◌,
}
use ssh_idlefarmer.Store.Saves.{
  insert_save, touch_account, with_rival, load_or_create, reread, persist_save, Weather, valid_keys,
  is_some_row,
}

-- The payload that is stored under a key.
abbrev pub payload_of : Option SaveRow → Option Payload
payload_of none = none
payload_of (some row) = some row.payload

abbrev pub Vault : Type 0
Vault = SaveKey → Option Payload

unfoldable pub vault : Store → Vault
vault st k = payload_of (find k st.saves)

-- The calls that write.
pub data Call : Type 0 where
  touches : Bool → String → String → ℤ → Call
  opens : Weather → SaveKey → ℤ → Option (Payload × ℤ) → Call
  persists : Bool → SaveKey → Payload → ℤ → ℤ → Call

unfoldable pub run_call : Call → Store → Store
run_call (touches written fingerprint public_key now) st =
    (touch_account written fingerprint public_key now st).1
run_call (opens w k now fresh) st = (load_or_create w k now fresh st).1
run_call (persists written k payload version last_active) st =
    (persist_save written k payload version last_active st).1

-- What a call may do to the vault: nothing; a first payload under the key of an `opens`; or another
-- payload, the one handed over, under the key of a `persists`, in place of one that is there.
pub data Effect (v w : Vault) : Call → Type 0 where
  kept : (c : Call) → ((j : SaveKey) → w j ≡ v j) → Effect v w c
  created :
      (weather : Weather) (k : SaveKey) (now : ℤ) (fresh : Option (Payload × ℤ)) (p : Payload)
      → valid_keys k ≡ true
      → v k ≡ none
      → ((j : SaveKey) → w j ≡ (if same_save k j then some p else v j))
      → Effect v w (opens weather k now fresh)
  replaced :
      (written : Bool) (k : SaveKey) (p : Payload) (version last_active : ℤ) (old : Payload)
      → valid_keys k ≡ true
      → v k ≡ some old
      → ((j : SaveKey) → w j ≡ (if same_save k j then some p else v j))
      → Effect v w (persists written k p version last_active)

pub touch-kept :
    (written : Bool) (fingerprint public_key : String) (now : ℤ) (st : Store)
    → (touch_account written fingerprint public_key now st).1.saves ≡ st.saves
unfolding touch_account
touch-kept written fingerprint public_key now st = ground arith

vault-put :
    (k j : SaveKey) (row : SaveRow) (st : Store)
    → vault (record st { saves = put k row st.saves }) j
      ≡ (if same_save k j then some row.payload else vault st j)
unfolding vault
vault-put k j row st = ground (arith, find-put k j row st.saves)

written_row :
    (written : Bool) (k : SaveKey) (payload : Payload) (version last_active : ℤ) (st : Store)
    → ((persist_save written k payload version last_active st).1 ≡ st)
      ⊎ ((old row : SaveRow) × (valid_keys k ≡ true)
          × (find k st.saves ≡ some old)
          × (row.payload ≡ payload)
          × ((persist_save written k payload version last_active st).1
              ≡ record st { saves = put k row st.saves }))
unfolding persist_save
written_row written k payload version last_active st = elim (Option-cases (find k st.saves)) [
  | inl e ↦ inl (ground (arith, e))
  | inr (row, e) ↦ elim (Bool-cases (valid_keys k && written)) [
    | inl go ↦ inr (
      row,
      record row { payload = payload; state_version = version; last_active = last_active },
      ground (arith, go),
      e,
      refl,
      ground (arith, go, e),
    )
    | inr stuck ↦ inl (ground (arith, stuck, e))
  ]
]

-- The vault after a row is put in.
put-vault :
    (st : Store) (k : SaveKey) (row : SaveRow) (st' : Store) (j : SaveKey)
    → st' ≡ record st { saves = put k row st.saves }
    → vault st' j ≡ (if same_save k j then some row.payload else vault st j)
put-vault st k row st' j e = rw e (vault-put k j row st)

persist-Effect :
    (written : Bool) (k : SaveKey) (payload : Payload) (version last_active : ℤ) (st : Store)
    → Effect
        (vault st)
        (vault (persist_save written k payload version last_active st).1)
        (persists written k payload version last_active)
persist-Effect written k payload version last_active st =
    let t = (persist_save written k payload version last_active st).1 in
    elim (written_row written k payload version last_active st) [
      | inl e ↦ kept _ (λ j. ap (λ (x : Store). vault x j) e)
      | inr (old, row, valid, found, same_payload, e) ↦
          replaced written k payload version last_active old.payload valid
            (unfold vault in rw found refl)
            (λ j.
              put-vault st k row t j e
              ∙ ap (λ (p : Payload). if same_save k j then some p else vault st j) same_payload)
    ]

insert_save-cases :
    (w : Weather) (k : SaveKey) (row : SaveRow) (st : Store)
    → ((insert_save w k row st).1 ≡ st)
      ⊎ ((find k st.saves ≡ none)
          × ((insert_save w k row st).1 ≡ record st { saves = put k row st.saves }))
unfolding insert_save reread is_some_row
insert_save-cases w k row st = elim (Option-cases (find k st.saves)) [
  | inl e ↦ elim (Bool-cases w.inserts) [
    | inl go ↦ inr (e, ground (arith, go, e))
    | inr stuck ↦ inl (ground (arith, stuck, e))
  ]
  | inr (q, e) ↦ inl (ground (arith, e))
]

with_rival-cases :
    (k : SaveKey) (rival : Option SaveRow) (st : Store)
    → (with_rival k rival st ≡ st)
      ⊎ ((q : SaveRow) × (with_rival k rival st ≡ record st { saves = put k q st.saves }))
unfolding with_rival
with_rival-cases k none st = inl refl
with_rival-cases k (some q) st = inr (q, refl)

pub found_put : (k : SaveKey) (q : SaveRow) (st : Store) → find k (put k q st.saves) ≡ some q
found_put k q st = ground (arith, find-put k k q st.saves, same_save_iff k k)

-- A row is put in by another creator or by this call, or by neither.
inserted :
    (w : Weather) (k : SaveKey) (row : SaveRow) (st : Store)
    → ((insert_save w k row (with_rival k w.rival st)).1 ≡ st)
      ⊎ ((q : SaveRow) × ((insert_save w k row (with_rival k w.rival st)).1
            ≡ record st { saves = put k q st.saves }))
inserted w k row st = elim (with_rival-cases k w.rival st) [
  | inl calm ↦
      rw calm (elim (insert_save-cases w k row st) [ inl e ↦ inl e | inr (free, e) ↦ inr (row, e) ])
  | inr (q, raced) ↦ rw raced (
      let rivalled : Store = record st { saves = put k q st.saves } in
      elim (insert_save-cases w k row rivalled) [
        | inl e ↦ inr (q, e)
        | inr (free, e) ↦ absurd (ground (arith, free, found_put k q st))
      ])
]

pub opened_row :
    (w : Weather) (k : SaveKey) (now : ℤ) (fresh : Option (Payload × ℤ)) (st : Store)
    → ((load_or_create w k now fresh st).1 ≡ st)
      ⊎ ((q : SaveRow) × (valid_keys k ≡ true)
          × (find k st.saves ≡ none)
          × ((load_or_create w k now fresh st).1 ≡ record st { saves = put k q st.saves }))
unfolding load_or_create
opened_row w k now none st = inl (ground arith)
opened_row w k now (some p) st =
    let row : SaveRow = record {
      created_at = now;
      last_active = now;
      payload = p.0;
      state_version = p.1;
    } in
    elim (Option-cases (find k st.saves)) [
      | inr (old, e) ↦ inl (ground (arith, e))
      | inl e ↦ elim (Bool-cases (valid_keys k && w.selects)) [
        | inr stuck ↦ inl (ground (arith, stuck, e))
        | inl go ↦ elim (inserted w k row st) [
          | inl same ↦ inl (ground (arith, go, e, same))
          | inr (q, changed) ↦ inr (q, ground (arith, go), e, ground (arith, go, e, changed))
        ]
      ]
    ]

-- Each call of TouchAccount, LoadOrCreateSave and PersistSave on any store, whichever of its
-- statements fail and whoever creates the row at the same time, leaves the payloads of all saves
-- as they are, or puts a first payload under its own key where LoadOrCreateSave found none, or,
-- with PersistSave, replaces the payload under its own key by the one given; it writes under valid
-- keys only.
pub run_call-Effect : (c : Call) (st : Store) → Effect (vault st) (vault (run_call c st)) c
unfolding run_call
run_call-Effect (touches written fingerprint public_key now) st =
    kept _ (λ j. unfold vault in rw (touch-kept written fingerprint public_key now st) refl)
run_call-Effect (persists written k payload version last_active) st =
    persist-Effect written k payload version last_active st
run_call-Effect (opens w k now fresh) st =
    let t = (load_or_create w k now fresh st).1 in
    elim (opened_row w k now fresh st) [
      | inl e ↦ kept _ (λ j. ap (λ (x : Store). vault x j) e)
      | inr (q, valid, free, e) ↦
          created w k now fresh q.payload valid (unfold vault in rw free refl)
            (λ j. put-vault st k q t j e)
    ]
