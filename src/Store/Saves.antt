-- ===== src/Store/Saves.antt =====
-- internal/store/store.go: `TouchAccount`, `LoadOrCreateSave` and `PersistSave`.
use ssh_idlefarmer.Prelude.{
  false, true, some, none, String, Bool, Option, not, leb, ℤ, str_eq, length, if◌then◌else◌, ◌&&◌,
  all_runes,
}
use ssh_idlefarmer.Store.Rows.{
  SaveKey, Slot, Payload, SaveRow, Store, Account, Answer, fault, invalid_key, statement_failed,
  got, no_row, fresh_failed,
}
use ssh_idlefarmer.Prelude.Tables.{put, find}
use ssh_idlefarmer.Identity.Slots.{is_slot_rune}
use ssh_idlefarmer.Prelude.Tables.{string_key}
use ssh_idlefarmer.Store.Rows.{save_key}

-- `slotPattern`, `^[a-z0-9_-]{1,32}$`.
unfoldable pub slot_matches : Slot → Bool
slot_matches slot = leb 1 (length slot) && leb (length slot) 32 && all_runes is_slot_rune slot

-- `validateKeys`, where true is no error.
unfoldable pub valid_keys : SaveKey → Bool
valid_keys k = not (str_eq k.fingerprint "") && slot_matches k.slot

-- The row after `INSERT … ON CONFLICT (fingerprint) DO UPDATE SET last_seen = excluded.last_seen`.
unfoldable pub seen_account : String → ℤ → Option Account → Account
seen_account public_key now none = record {
  public_key = public_key;
  first_seen = now;
  last_seen = now;
}
seen_account public_key now (some a) = record a { last_seen = now }

unfoldable pub touch_account : Bool → String → String → ℤ → Store → Answer (Unit {0}) × Store
touch_account written fingerprint public_key now st =
    if str_eq fingerprint ""
    then (fault invalid_key, st)
    else if not written
    then (fault statement_failed, st)
    else (
      got tt,
      record st {
        accounts =
            put fingerprint (seen_account public_key now (find fingerprint st.accounts))
              st.accounts;
      },
    )

-- How the statements of one call of `LoadOrCreateSave` fare: the first SELECT, the INSERT, and the
-- second SELECT; and the row that another creator puts in between the first two, if one does.
pub record Weather : Type 0 where
  pub selects : Bool
  pub rival : Option SaveRow
  pub inserts : Bool
  pub reselects : Bool

-- The rival's row.
unfoldable pub with_rival : SaveKey → Option SaveRow → Store → Store
with_rival k none st = st
with_rival k (some row) st = record st { saves = put k row st.saves }

unfoldable pub is_some_row : Option SaveRow → Bool
is_some_row none = false
is_some_row (some row) = true

-- The last SELECT: the row, and whether this call created it.
unfoldable pub reread : Bool → Bool → SaveKey → Store → Answer (SaveRow × Bool) × Store
reread reads created k st =
    if not reads
    then (fault statement_failed, st)
    else (elim (find k st.saves) [ none ↦ fault no_row | some row ↦ got (row, created) ], st)

-- `INSERT … ON CONFLICT DO NOTHING`, then the second SELECT. The INSERT may fail for any reason: that the
-- database refuses a save without its account is one.
unfoldable pub insert_save : Weather → SaveKey → SaveRow → Store → Answer (SaveRow × Bool) × Store
unfolding reread
insert_save w k row st =
    let taken = is_some_row (find k st.saves) in
    if not w.inserts
    then (fault statement_failed, st)
    else if taken
    then reread w.reselects false k st
    else reread w.reselects true k (record st { saves = put k row st.saves })

-- `LoadOrCreateSave`; `fresh` is the payload and version of a new save, or none where it fails.
unfoldable pub load_or_create :
    Weather → SaveKey → ℤ → Option (Payload × ℤ) → Store → Answer (SaveRow × Bool) × Store
unfolding with_rival insert_save
load_or_create w k now fresh st =
    let create : Payload × ℤ → Answer (SaveRow × Bool) × Store = λ p.
      insert_save w k
        (record { created_at = now; last_active = now; payload = p.0; state_version = p.1 })
        (with_rival k w.rival st) in
    if not (valid_keys k)
    then (fault invalid_key, st)
    else if not w.selects
    then (fault statement_failed, st)
    else elim (find k st.saves) [
      | some row ↦ (got (row, false), st)
      | none ↦ elim fresh [ none ↦ (fault fresh_failed, st) | some p ↦ create p ]
    ]

-- `PersistSave`: an UPDATE of the row, which must be there.
unfoldable pub persist_save : Bool → SaveKey → Payload → ℤ → ℤ → Store → Answer (Unit {0}) × Store
persist_save written k payload version last_active st =
    if not (valid_keys k)
    then (fault invalid_key, st)
    else if not written
    then (fault statement_failed, st)
    else elim (find k st.saves) [
      | none ↦ (fault no_row, st)
      | some row ↦ (
        got tt,
        record st {
          saves =
              put k
                (record row {
                  payload = payload;
                  state_version = version;
                  last_active = last_active;
                })
                st.saves;
        },
      )
    ]
