-- ===== src/Store/RoundTrip.antt =====
-- internal/store/store.go: what `PersistSave` wrote is what `LoadOrCreateSave` reads.
use ssh_idlefarmer.Prelude.Tables.{string_key, find}
use ssh_idlefarmer.Store.Rows.{save_key, Store, SaveKey, SaveRow, Payload, got}
use ssh_idlefarmer.Prelude.{false, true, some, arith, Option, ℤ, ◌≡◌}
use ssh_idlefarmer.Store.Saves.{persist_save, load_or_create, Weather, valid_keys}
use ssh_idlefarmer.Store.Vault.{found_put}

-- After PersistSave to a save that is there under a valid key, where the write succeeds,
-- LoadOrCreateSave answers with the payload, version and time written and the creation time of
-- before, creates nothing, and leaves the store as it is, where its first SELECT succeeds.
pub persist-load :
    (k : SaveKey) (payload : Payload) (version last_active : ℤ) (st : Store) {row : SaveRow}
    → valid_keys k ≡ true
    → find k st.saves ≡ some row
    → (w : Weather) (now : ℤ) (fresh : Option (Payload × ℤ)) → w.selects ≡ true
    → let (answer, t) = persist_save true k payload version last_active st in
      (answer ≡ got tt)
      × (load_or_create w k now fresh t ≡ (
        got (
          record row { payload = payload; state_version = version; last_active = last_active },
          false,
        ),
        t,
      ))
unfolding persist_save load_or_create
persist-load k payload version last_active st {row} valid found w now fresh reads =
    let new_row : SaveRow = record row {
      payload = payload;
      state_version = version;
      last_active = last_active;
    } in
    (ground (arith, valid, found), ground (arith, valid, found, reads, found_put k new_row st))
