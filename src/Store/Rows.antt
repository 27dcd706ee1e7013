-- ===== src/Store/Rows.antt =====
-- internal/store: the two tables, their rows, and the errors. SQLite is behind them; whether it carries
-- a statement out is an argument of each operation, and a statement that fails changes nothing.
-- A payload is a list of bytes, and a slot a list of code points.
use ssh_idlefarmer.Prelude.{
  true, [], ℤ, Bool, ◌≡◌, String, List, ℕ, ◌↔◌, str_eq, ◌&&◌, arith, eq_iff,
}
use ssh_idlefarmer.Prelude.Tables.{Keyed, Table, runes_eq, runes_eq_iff}

abbrev pub Payload : Type 0
Payload = List ℕ

abbrev pub Slot : Type 0
Slot = List ℕ

-- The primary key of a save; also `saveKey` of internal/game/actor.go.
pub record SaveKey : Type 0 where
  pub fingerprint : String
  pub slot : Slot

abbrev pub same_save : SaveKey → SaveKey → Bool
same_save j k = str_eq j.fingerprint k.fingerprint && runes_eq j.slot k.slot

pub same_save_iff : (j k : SaveKey) → (same_save j k ≡ true) ↔ (j ≡ k)
same_save_iff j k = ground (arith, eq_iff j.fingerprint k.fingerprint, runes_eq_iff j.slot k.slot)

instance abbrev pub save_key : Keyed SaveKey
save_key = record { same = same_save; same_iff = same_save_iff }

pub record Account : Type 0 where
  pub public_key : String
  pub first_seen : ℤ
  pub last_seen : ℤ

-- `SaveRow`, without the columns of the key.
pub record SaveRow : Type 0 where
  pub created_at : ℤ
  pub last_active : ℤ
  pub payload : Payload
  pub state_version : ℤ

pub record Store : Type 0 where
  pub accounts : Table String Account
  pub saves : Table SaveKey SaveRow

-- The tables of a new database.
abbrev pub empty_store : Store
empty_store = record { accounts = []; saves = [] }

pub data StoreError : Type 0 where
  invalid_key statement_failed fresh_failed no_row : StoreError

pub data Answer (A : Type 0) : Type 0 where
  got : A → Answer A
  fault : StoreError → Answer A
