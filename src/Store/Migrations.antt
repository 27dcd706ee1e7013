-- ===== src/Store/Migrations.antt =====
-- internal/store/migrations.go: `migrate`. The schema is what the statements change of it, and the
-- `user_version` pragma.
use ssh_idlefarmer.Prelude.{
  inr, inl, negsuc, pos, false, true, suc, zero, ◌∷◌, [], some, none, ℤ, Option, List, Bool, ◌≡◌,
  if◌then◌else◌, ◌⊕◌, ◌⊎◌, ◌≤ℤ◌, not, ◌||◌, ltb_ℤ, arith, sym, ◌&&◌,
}
use mathlib.Core.Path.{subst}

pub record Schema : Type 0 where
  pub user_version : ℤ
  pub accounts_table : Bool
  pub saves_table : Bool
  pub version_column : Bool

-- A new database file.
abbrev pub blank : Schema
blank = record {
  user_version = pos 0;
  accounts_table = false;
  saves_table = false;
  version_column = false;
}

-- A step of `migrations`. SQLite refuses to create a table that is there, and to add a column that is
-- there or to a table that is not.
unfoldable pub create_tables : Schema → Option Schema
create_tables s =
    if s.accounts_table || s.saves_table
    then none
    else some (record s { accounts_table = true; saves_table = true; version_column = false })

unfoldable pub add_version_column : Schema → Option Schema
add_version_column s =
    if not s.saves_table || s.version_column
    then none
    else some (record s { version_column = true })

abbrev pub migrations : List (Schema → Option Schema)
migrations = create_tables ∷ add_version_column ∷ []

pub data Migrated : Type 0 where
  up_to_date cannot_read too_new : Migrated
  step_failed : ℤ → Migrated

-- The loop from step `v` on. A step and the bump of the version are one transaction: `commits v` says
-- whether it goes through, and the schema is as before where it does not.
unfoldable pub run_steps :
    (ℤ → Bool) → ℤ → List (Schema → Option Schema) → Schema → Migrated × Schema
run_steps commits v [] s = (up_to_date, s)
run_steps commits v (step ∷ steps) s = elim (step s) [
  | none ↦ (step_failed v, s)
  | some t ↦ elim (commits v) [
    | true ↦ run_steps commits (v ⊕ pos 1) steps (record t { user_version = v ⊕ pos 1 })
    | false ↦ (step_failed v, s)
  ]
]

-- `for v := current; v < len(migrations); v++`: the steps from the current version on. Go panics at a
-- negative version, which no step writes; here no step runs then.
unfoldable pub steps_from : ℤ → List (Schema → Option Schema)
steps_from (pos zero) = migrations
steps_from (pos (suc zero)) = add_version_column ∷ []
steps_from (pos (suc (suc n))) = []
steps_from (negsuc n) = []

unfoldable pub migrate : Bool → (ℤ → Bool) → Schema → Migrated × Schema
unfolding run_steps steps_from
migrate reads commits s =
    if not reads
    then (cannot_read, s)
    else if ltb_ℤ (pos 2) s.user_version
    then (too_new, s)
    else run_steps commits s.user_version (steps_from s.user_version) s

-- The schema is the one that its version stands for.
abbrev pub MatchesVersion : Schema → Type 0
MatchesVersion s =
    ((s.user_version ≡ pos 0) × (s.accounts_table ≡ false) × (s.saves_table ≡ false))
    ⊎ ((s.user_version ≡ pos 1)
        × (s.accounts_table ≡ true)
        × (s.saves_table ≡ true)
        × (s.version_column ≡ false))
    ⊎ ((s.user_version ≡ pos 2)
        × (s.accounts_table ≡ true)
        × (s.saves_table ≡ true)
        × (s.version_column ≡ true))

abbrev pub is_up_to_date : Migrated → Bool
is_up_to_date up_to_date = true
is_up_to_date cannot_read = false
is_up_to_date too_new = false
is_up_to_date (step_failed v) = false

-- What a start of the server may do to a schema of a known version: bring it up to date, or leave it at
-- a known version, no older, if a statement failed.
abbrev pub Moved : (reads : Bool) (commits : ℤ → Bool) (s : Schema) → Migrated × Schema → Type 0
Moved reads commits s (m, t) =
    MatchesVersion t
    × (s.user_version ≤ℤ t.user_version)
    × (((m ≡ up_to_date) × (t.user_version ≡ pos 2))
        ⊎ ((is_up_to_date m ≡ false) × ((reads && commits (pos 0) && commits (pos 1)) ≡ false)))

add_column_step :
    (commits : ℤ → Bool) (s : Schema)
    → s.user_version ≡ pos 1
    → s.accounts_table ≡ true
    → s.saves_table ≡ true
    → s.version_column ≡ false
    → Moved true commits s (run_steps commits (pos 1) (add_version_column ∷ []) s)
unfolding run_steps add_version_column ◌⊕◌
add_column_step commits s v a b col = ground arith

create_step :
    (commits : ℤ → Bool) (s : Schema)
    → s.user_version ≡ pos 0
    → s.accounts_table ≡ false
    → s.saves_table ≡ false
    → Moved true commits s (run_steps commits (pos 0) migrations s)
unfolding run_steps create_tables add_version_column ◌⊕◌
create_step commits s v a b = ground arith

migrate_at :
    (commits : ℤ → Bool) (s : Schema) (v : ℤ)
    → s.user_version ≡ v
    → ltb_ℤ (pos 2) v ≡ false
    → migrate true commits s ≡ run_steps commits v (steps_from v) s
unfolding migrate
migrate_at commits s v e low = ground arith

-- From a schema that is the one its version stands for, migrate ends in such a schema, of a
-- version that is not lower; either it reports success and the version is the newest, or it
-- reports a failure and one of its statements has failed.
pub migrate-Moved :
    (reads : Bool) (commits : ℤ → Bool) (s : Schema)
    → MatchesVersion s
    → Moved reads commits s (migrate reads commits s)
unfolding migrate run_steps steps_from
migrate-Moved false commits s h = ground (arith, h)
migrate-Moved true commits s (inl (v, a, b)) =
    subst (Moved true commits s) (sym (migrate_at commits s (pos 0) v (ground arith)))
      (create_step commits s v a b)
migrate-Moved true commits s (inr (inl (v, a, b, col))) =
    subst (Moved true commits s) (sym (migrate_at commits s (pos 1) v (ground arith)))
      (add_column_step commits s v a b col)
migrate-Moved true commits s (inr (inr (v, a, b, col))) =
    subst (Moved true commits s) (sym (migrate_at commits s (pos 2) v (ground arith)))
      (ground (arith, v, a, b, col))
