-- ===== src/Examples/Store.antt =====
-- The theorems on the store, at small stores.
use ssh_idlefarmer.Prelude.Tables.{string_key, find}
use ssh_idlefarmer.Prelude.{
  inl, inl, refl, pos, false, none, pos, true, ◌∷◌, [], some, none, List, ◌≢◌, ◌≡◌, String,
}
use ssh_idlefarmer.Store.Rows.{save_key, Store, SaveKey, empty_store, SaveRow, got, Slot}
use ssh_idlefarmer.Store.Saves.{
  Weather, valid_keys, persist_save, slot_matches, load_or_create, is_some_row,
}
use ssh_idlefarmer.Store.Vault.{Effect, run_call-Effect, vault, run_call, opens, persists, touches}
use ssh_idlefarmer.Store.RoundTrip.{persist-load}
use ssh_idlefarmer.Store.Migrations.{Moved, blank, migrate, migrate-Moved}
use ssh_idlefarmer.Store.Slots.{
  list_slots, last_active_of, IsLatestFirst, HasPrimaryKey, lists, entries_of, order_entries,
  place_entry,
}
use ssh_idlefarmer.Store.Listed.{list_slots_lem}
use ssh_idlefarmer.Identity.Slots.{is_slot_rune}

abbrev pub fine : Weather
fine = record { selects = true; rival = none; inserts = true; reselects = true }

-- The slot "b".
abbrev pub home : SaveKey
home = record { fingerprint = "fp"; slot = 98 ∷ [] }

abbrev touched : Store
touched = run_call (touches true "fp" "key" (pos 5)) empty_store

abbrev opened : Store
opened = run_call (opens fine home (pos 5) (some (7 ∷ [], pos 3))) touched

run_call-Effect_example :
    Effect
      (vault opened)
      (vault (run_call (persists true home (8 ∷ []) (pos 3) (pos 9)) opened))
      (persists true home (8 ∷ []) (pos 3) (pos 9))
run_call-Effect_example = run_call-Effect (persists true home (8 ∷ []) (pos 3) (pos 9)) opened

pub home_is_valid : valid_keys home ≡ true
unfolding valid_keys slot_matches is_slot_rune
home_is_valid = refl

abbrev first_row : SaveRow
first_row = record {
  created_at = pos 5;
  last_active = pos 5;
  payload = 7 ∷ [];
  state_version = pos 3;
}

abbrev one_save : Store
one_save = record { accounts = []; saves = (home, first_row) ∷ [] }

row_is_there : find home one_save.saves ≡ some first_row
unfolding find
row_is_there = refl

persist-load_example :
    let (answer, t) = persist_save true home (8 ∷ []) (pos 3) (pos 9) one_save in
    (answer ≡ got tt)
    × (load_or_create fine home (pos 12) none t ≡ (
      got (
        record first_row { payload = 8 ∷ []; state_version = pos 3; last_active = pos 9 },
        false,
      ),
      t,
    ))
persist-load_example =
    persist-load home (8 ∷ []) (pos 3) (pos 9) one_save home_is_valid row_is_there fine (pos 12)
      none refl

migrate-Moved_example : Moved true (λ v. true) blank (migrate true (λ v. true) blank)
migrate-Moved_example = migrate-Moved true (λ v. true) blank (inl (refl, refl, refl))

pub named : ◌≢◌ {A = String} "fp" ""
named e = cc

-- Two saves of one key, of which the second was active later.
abbrev two_saves : Store
two_saves = record {
  accounts = [];
  saves =
      (home, first_row)
      ∷ (record { fingerprint = "fp"; slot = 99 ∷ [] }, record first_row { last_active = pos 8 })
      ∷ [];
}

keyed : HasPrimaryKey two_saves.saves
unfolding find
keyed = (refl, (refl, tt))

list_slots_lem_example :
    (slots : List Slot) × (list_slots true "fp" two_saves ≡ got slots)
    × IsLatestFirst (last_active_of "fp" two_saves) slots
    × ((slot : Slot)
        → lists slot slots
          ≡ is_some_row (find (record { fingerprint = "fp"; slot = slot }) two_saves.saves))
list_slots_lem_example = list_slots_lem "fp" two_saves named keyed

newest_first : list_slots true "fp" two_saves ≡ got ((99 ∷ []) ∷ (98 ∷ []) ∷ [])
unfolding list_slots entries_of order_entries place_entry
newest_first = refl
