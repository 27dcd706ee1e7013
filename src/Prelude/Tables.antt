-- ===== src/Prelude/Tables.antt =====
-- Tables with a primary key of any type whose equality is decided by a Boolean test. Keys and values
-- are rows of an association list; the first row of a key counts.
use mathlib.Core.Path.{◌≡◌, refl}
use mathlib.Core.Logic.{◌↔◌}
use mathlib.Core.Bool.{Bool, true, ◌&&◌}
use mathlib.Core.Option.{Option, none, some}
use mathlib.Core.List.{List, [], ◌∷◌}
use native.Mathlib.Omega.{arith}
use Prim.Native.Nat.{ℕ}
use Prim.Native.String.{String}
use text.Mathlib.TextEquality.{eq_iff}
use ssh_idlefarmer.Prelude.Tests.{str_eq, if◌then◌else◌, ◌==◌}

-- A type whose values can be compared.
pub record Keyed {ℓ} (K : Type ℓ) : Type ℓ where
  pub same : K → K → Bool
  pub same_iff : (j k : K) → (same j k ≡ true) ↔ (j ≡ k)

instance abbrev pub string_key : Keyed String
string_key = record { same = str_eq; same_iff = eq_iff }

-- Texts as code points.
abbrev pub runes_eq : List ℕ → List ℕ → Bool
runes_eq [] [] = true
runes_eq [] (y ∷ ys) = Bool.false
runes_eq (x ∷ xs) [] = Bool.false
runes_eq (x ∷ xs) (y ∷ ys) = x == y && runes_eq xs ys

pub runes_eq_iff : (xs ys : List ℕ) → (runes_eq xs ys ≡ true) ↔ (xs ≡ ys)
runes_eq_iff [] [] = ground arith
runes_eq_iff [] (y ∷ ys) = ground arith
runes_eq_iff (x ∷ xs) [] = ground arith
runes_eq_iff (x ∷ xs) (y ∷ ys) = ground (arith, runes_eq_iff xs ys)

instance abbrev pub runes_key : Keyed (List ℕ)
runes_key = record { same = runes_eq; same_iff = runes_eq_iff }

abbrev pub Table {ℓ κ} : Type ℓ → Type κ → Type (ℓ ⊔ κ)
Table K V = List (K × V)

module _ {ℓ κ} {K : Type ℓ} {V : Type κ} ⦃e : Keyed K⦄ where
  unfoldable pub find : K → Table K V → Option V
  find k [] = none
  find k ((j, v) ∷ rows) = let below = find k rows in if e.same j k then some v else below

  -- An update in place, or a new row at the end.
  unfoldable pub put : K → V → Table K V → Table K V
  put k v [] = (k, v) ∷ []
  put k v ((j, old) ∷ rows) =
      let below = put k v rows in if e.same j k then (j, v) ∷ rows else (j, old) ∷ below

  unfoldable pub drop_key : K → Table K V → Table K V
  drop_key k [] = []
  drop_key k ((j, v) ∷ rows) =
      let below = drop_key k rows in if e.same j k then below else (j, v) ∷ below

  pub find-put :
      (k j : K) (v : V) (rows : Table K V)
      → find j (put k v rows) ≡ (if e.same k j then some v else find j rows)
  unfolding find put
  find-put k j v [] = refl
  find-put k j v ((i, old) ∷ rows) =
      ground (arith, find-put k j v rows, e.same_iff i k, e.same_iff i j, e.same_iff k j)

  pub find-drop_key :
      (k j : K) (rows : Table K V)
      → find j (drop_key k rows) ≡ (if e.same k j then none else find j rows)
  unfolding find drop_key
  find-drop_key k j [] = ground arith
  find-drop_key k j ((i, v) ∷ rows) =
      ground (arith, find-drop_key k j rows, e.same_iff i k, e.same_iff i j, e.same_iff k j)

pub nat_eq_iff : (m n : ℕ) → ((m == n) ≡ true) ↔ (m ≡ n)
nat_eq_iff m n = ground arith

instance abbrev pub nat_key : Keyed ℕ
nat_key = record { same = ◌==◌; same_iff = nat_eq_iff }
