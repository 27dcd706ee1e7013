-- ===== src/Prelude/Maps.antt =====
-- A Go map with string keys, as an association list: the first entry of a key counts.
-- A nil map reads like an empty one, so both are the empty list.
use Prim.Native.String.{String}
use mathlib.Core.Path.{◌≡◌, refl}
use mathlib.Core.Option.{Option, none, some}
use mathlib.Core.List.{List, [], ◌∷◌}
use native.Mathlib.Omega.{arith}
use text.Mathlib.TextEquality.{eq_iff}
use ssh_idlefarmer.Prelude.Tests.{str_eq, if◌then◌else◌}

abbrev pub Dict {ℓ} : Type ℓ → Type ℓ
Dict V = List (String × V)

module _ {ℓ} {V : Type ℓ} where
  -- `v, ok := m[k]`
  unfoldable pub lookup : String → Dict V → Option V
  lookup k [] = none
  lookup k ((j, v) ∷ m) = if str_eq j k then some v else lookup k m

  -- `m[k]`, with the zero value of the type for a missing key
  unfoldable pub lookup_or : V → String → Dict V → V
  lookup_or z k m = elim (lookup k m) [ none ↦ z | some v ↦ v ]

  -- `m[k] = v`
  unfoldable pub insert : String → V → Dict V → Dict V
  insert key val [] = (key, val) ∷ []
  insert key val ((own, old) ∷ rest) =
      if str_eq own key then (key, val) ∷ rest else (own, old) ∷ insert key val rest

  -- `delete(m, k)`
  unfoldable pub erase : String → Dict V → Dict V
  erase k [] = []
  erase k ((j, w) ∷ m) = if str_eq j k then erase k m else (j, w) ∷ erase k m

  -- What is found after a write: the value written, or what was there under another key.
  pub lookup-insert :
      (key other : String) (val : V) (m : Dict V)
      → lookup other (insert key val m) ≡ (if str_eq key other then some val else lookup other m)
  unfolding insert lookup
  lookup-insert key other val [] = refl
  lookup-insert key other val ((own, old) ∷ rest) =
      let induction = lookup-insert key other val rest in
      ground (arith, induction, eq_iff own key, eq_iff own other, eq_iff key other)

  pub lookup-erase :
      (k j : String) (m : Dict V) → lookup j (erase k m) ≡ (if str_eq k j then none else lookup j m)
  unfolding lookup erase
  lookup-erase k j [] = ground arith
  lookup-erase k j ((own, old) ∷ rest) =
      let induction = lookup-erase k j rest in
      ground (arith, induction, eq_iff own k, eq_iff own j, eq_iff k j)

  pub lookup_or-insert :
      (z : V) (k j : String) (v : V) (m : Dict V)
      → lookup_or z j (insert k v m) ≡ (if str_eq k j then v else lookup_or z j m)
  unfolding lookup_or
  lookup_or-insert z k j v m = ground (arith, lookup-insert k j v m)

  pub lookup_or-erase :
      (z : V) (k j : String) (m : Dict V)
      → lookup_or z j (erase k m) ≡ (if str_eq k j then z else lookup_or z j m)
  unfolding lookup_or
  lookup_or-erase z k j m = ground (arith, lookup-erase k j m)
