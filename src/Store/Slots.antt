-- ===== src/Store/Slots.antt =====
-- internal/store/store.go: `ListSlots`, the slots of one fingerprint by their last activity.
use ssh_idlefarmer.Prelude.Tables.{string_key, runes_key, find, Table, runes_eq}
use ssh_idlefarmer.Store.Rows.{
  save_key, Slot, Store, SaveKey, Answer, got, SaveRow, fault, invalid_key, statement_failed,
}
use ssh_idlefarmer.Prelude.{
  pos, pos, some, none, false, ◌∷◌, [], String, Bool, List, ◌≡◌, ◌≤ℤ◌, if◌then◌else◌, ℤ, ◌||◌,
  ltb_ℤ, str_eq, not, Option,
}

-- A row of the query's result.
pub record Entry : Type 0 where
  pub slot : Slot
  pub last_active : ℤ

-- `WHERE fingerprint = ?`
unfoldable pub entries_of : String → Table SaveKey SaveRow → List Entry
entries_of fingerprint [] = []
entries_of fingerprint ((k, row) ∷ rows) =
    let rest = entries_of fingerprint rows in
    if str_eq k.fingerprint fingerprint
    then record { slot = k.slot; last_active = row.last_active } ∷ rest
    else rest

-- `ORDER BY last_active DESC`. SQL leaves the order of ties open; here they stay as they are.
unfoldable pub place_entry : Entry → List Entry → List Entry
place_entry e [] = e ∷ []
place_entry e (d ∷ ds) =
    let below = place_entry e ds in
    if ltb_ℤ e.last_active d.last_active then d ∷ below else e ∷ d ∷ ds

unfoldable pub order_entries : List Entry → List Entry
order_entries [] = []
order_entries (e ∷ es) = place_entry e (order_entries es)

abbrev pub slots_in : List Entry → List Slot
slots_in [] = []
slots_in (e ∷ es) = e.slot ∷ slots_in es

unfoldable pub list_slots : Bool → String → Store → Answer (List Slot)
list_slots reads fingerprint st =
    if str_eq fingerprint ""
    then fault invalid_key
    else if not reads
    then fault statement_failed
    else got (slots_in (order_entries (entries_of fingerprint st.saves)))

abbrev pub lists : Slot → List Slot → Bool
lists slot [] = false
lists slot (s ∷ ss) = runes_eq s slot || lists slot ss

-- The time of a save in the store.
abbrev pub time_of : Option SaveRow → ℤ
time_of none = pos 0
time_of (some row) = row.last_active

unfoldable pub last_active_of : String → Store → Slot → ℤ
last_active_of fingerprint st slot =
    time_of (find (record { fingerprint = fingerprint; slot = slot }) st.saves)

-- The save under each slot was active at least as late as the one under the next.
abbrev pub IsLatestFirst : (Slot → ℤ) → List Slot → Type 0
IsLatestFirst time [] = Unit {0}
IsLatestFirst time (s ∷ []) = Unit {0}
IsLatestFirst time (s ∷ t ∷ ss) = (time t ≤ℤ time s) × IsLatestFirst time (t ∷ ss)

-- The primary key: no two rows have the same fingerprint and slot.
abbrev pub HasPrimaryKey : Table SaveKey SaveRow → Type 0
HasPrimaryKey [] = Unit {0}
HasPrimaryKey ((k, row) ∷ rows) = (find k rows ≡ none) × HasPrimaryKey rows
