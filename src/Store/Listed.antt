-- ===== src/Store/Listed.antt =====
-- internal/store/store.go: what `ListSlots` lists, and in which order.
use ssh_idlefarmer.Prelude.Tables.{string_key, runes_key, find, Table, runes_eq_iff, runes_eq}
use ssh_idlefarmer.Store.Rows.{save_key, SaveKey, Store, Slot, SaveRow, got, same_save_iff}
use ssh_idlefarmer.Prelude.{
  inr, inr, inl, refl, true, ◌∷◌, [], some, none, String, List, arith, ◌≢◌, ◌≤ℤ◌, str_eq,
  Bool-cases, ◌≡◌, ltb_ℤ, ◌||◌, eq_iff, ◌∙◌,
}
use ssh_idlefarmer.Store.Slots.{
  order_entries, list_slots, place_entry, last_active_of, entries_of, Entry, lists, IsLatestFirst,
  HasPrimaryKey, slots_in,
}
use ssh_idlefarmer.Store.Saves.{is_some_row}

-- Each entry was active at least as late as the next.
abbrev IsSorted : List Entry → Type 0
IsSorted [] = Unit {0}
IsSorted (e ∷ []) = Unit {0}
IsSorted (e ∷ d ∷ ds) = (d.last_active ≤ℤ e.last_active) × IsSorted (d ∷ ds)

-- Each entry is a row of the table.
abbrev AreRows : String → Table SaveKey SaveRow → List Entry → Type 0
AreRows fingerprint rows [] = Unit {0}
AreRows fingerprint rows (e ∷ es) =
    ((row : SaveRow) × (find (record { fingerprint = fingerprint; slot = e.slot }) rows ≡ some row)
      × (row.last_active ≡ e.last_active))
    × AreRows fingerprint rows es

place_entry-AreRows :
    (fingerprint : String) (rows : Table SaveKey SaveRow) (e : Entry) (es : List Entry)
    → AreRows fingerprint rows (e ∷ es)
    → AreRows fingerprint rows (place_entry e es)
unfolding place_entry
place_entry-AreRows fingerprint rows e [] h = h
place_entry-AreRows fingerprint rows e (d ∷ ds) (mine, (first, rest)) =
    let below = place_entry-AreRows fingerprint rows e ds (mine, rest) in
    elim (Bool-cases (ltb_ℤ e.last_active d.last_active)) [
      | inl f ↦ rw f (first, below)
      | inr f ↦ rw f (mine, (first, rest))
    ]

order_entries-AreRows :
    (fingerprint : String) (rows : Table SaveKey SaveRow) (es : List Entry)
    → AreRows fingerprint rows es
    → AreRows fingerprint rows (order_entries es)
unfolding order_entries
order_entries-AreRows fingerprint rows [] h = h
order_entries-AreRows fingerprint rows (e ∷ es) (mine, rest) =
    place_entry-AreRows fingerprint rows e (order_entries es)
      (mine, order_entries-AreRows fingerprint rows es rest)

-- A row before them all, of another key.
more-AreRows :
    (fingerprint : String) (k : SaveKey) (row : SaveRow) (rows : Table SaveKey SaveRow)
    (es : List Entry)
    → find k rows ≡ none
    → AreRows fingerprint rows es
    → AreRows fingerprint ((k, row) ∷ rows) es
unfolding find
more-AreRows fingerprint k row rows [] new h = tt
more-AreRows fingerprint k row rows (e ∷ es) new ((r, found, same), rest) =
    let key : SaveKey = record { fingerprint = fingerprint; slot = e.slot } in
    (
      (r, ground (arith, new, found, same_save_iff k key), same),
      more-AreRows fingerprint k row rows es new rest,
    )

first_row :
    (fingerprint : String) (k : SaveKey) (row : SaveRow) (rows : Table SaveKey SaveRow)
    → str_eq k.fingerprint fingerprint ≡ true
    → find (record { fingerprint = fingerprint; slot = k.slot }) ((k, row) ∷ rows) ≡ some row
unfolding find
first_row fingerprint k row rows e = ground (arith, e, runes_eq_iff k.slot k.slot)

entries_of-AreRows :
    (fingerprint : String) (rows : Table SaveKey SaveRow)
    → HasPrimaryKey rows
    → AreRows fingerprint rows (entries_of fingerprint rows)
unfolding entries_of
entries_of-AreRows fingerprint [] h = tt
entries_of-AreRows fingerprint ((k, row) ∷ rows) (new, h) =
    let rest =
      more-AreRows fingerprint k row rows (entries_of fingerprint rows) new
        (entries_of-AreRows fingerprint rows h) in
    elim (Bool-cases (str_eq k.fingerprint fingerprint)) [
      | inl e ↦ rw e ((row, first_row fingerprint k row rows e, refl), rest)
      | inr e ↦ rw e rest
    ]

slots_in-IsLatestFirst :
    (fingerprint : String) (st : Store) (es : List Entry)
    → AreRows fingerprint st.saves es
    → IsSorted es
    → IsLatestFirst (last_active_of fingerprint st) (slots_in es)
unfolding last_active_of
slots_in-IsLatestFirst fingerprint st [] rows sorted = tt
slots_in-IsLatestFirst fingerprint st (e ∷ []) rows sorted = tt
slots_in-IsLatestFirst fingerprint st (e ∷ d ∷ ds) (first, (second, rest)) (le, sorted) = (
  ground (arith, first, second, le),
  slots_in-IsLatestFirst fingerprint st (d ∷ ds) (second, rest) sorted,
)

lists-place_entry :
    (slot : Slot) (e : Entry) (es : List Entry)
    → lists slot (slots_in (place_entry e es)) ≡ (runes_eq e.slot slot || lists slot (slots_in es))
unfolding place_entry
lists-place_entry slot e [] = refl
lists-place_entry slot e (d ∷ ds) = ground (arith, lists-place_entry slot e ds)

lists-order_entries :
    (slot : Slot) (es : List Entry)
    → lists slot (slots_in (order_entries es)) ≡ lists slot (slots_in es)
unfolding order_entries
lists-order_entries slot [] = refl
lists-order_entries slot (e ∷ es) =
    ground (arith, lists-order_entries slot es, lists-place_entry slot e (order_entries es))

lists-entries_of :
    (fingerprint : String) (slot : Slot) (rows : Table SaveKey SaveRow)
    → lists slot (slots_in (entries_of fingerprint rows))
      ≡ is_some_row (find (record { fingerprint = fingerprint; slot = slot }) rows)
unfolding entries_of find is_some_row
lists-entries_of fingerprint slot [] = refl
lists-entries_of fingerprint slot ((k, row) ∷ rows) =
    ground (arith, lists-entries_of fingerprint slot rows)

place_entry-IsSorted : (e : Entry) (es : List Entry) → IsSorted es → IsSorted (place_entry e es)
unfolding place_entry
place_entry-IsSorted e [] h = tt
place_entry-IsSorted e (d ∷ []) h = ground arith
place_entry-IsSorted e (d ∷ c ∷ ds) h = ground (arith, place_entry-IsSorted e (c ∷ ds) h.1, h)

order_entries-IsSorted : (es : List Entry) → IsSorted (order_entries es)
unfolding order_entries
order_entries-IsSorted [] = tt
order_entries-IsSorted (e ∷ es) =
    place_entry-IsSorted e (order_entries es) (order_entries-IsSorted es)

-- In a store whose saves have their primary key, for a fingerprint that is not empty, where the
-- query succeeds: ListSlots returns slots of which none was active later than the one before it,
-- by the times in the store, and a slot is among them exactly when the store has a save of this
-- fingerprint under it.
pub list_slots_lem :
    (fingerprint : String) (st : Store)
    → fingerprint ≢ ""
    → HasPrimaryKey st.saves
    → (slots : List Slot) × (list_slots true fingerprint st ≡ got slots)
      × IsLatestFirst (last_active_of fingerprint st) slots
      × ((slot : Slot)
          → lists slot slots
            ≡ is_some_row (find (record { fingerprint = fingerprint; slot = slot }) st.saves))
unfolding list_slots
list_slots_lem fingerprint st named keyed =
    let rows = entries_of fingerprint st.saves in
    (
      slots_in (order_entries rows),
      ground (arith, named, eq_iff fingerprint ""),
      slots_in-IsLatestFirst fingerprint st (order_entries rows)
          (order_entries-AreRows fingerprint st.saves rows
            (entries_of-AreRows fingerprint st.saves keyed))
          (order_entries-IsSorted rows),
      λ slot. lists-order_entries slot rows ∙ lists-entries_of fingerprint slot st.saves,
    )
