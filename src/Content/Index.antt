-- ===== src/Content/Index.antt =====
-- internal/content/content.go: `buildIndexes` and the lookups by id. `Load` fills each map once, in
-- the order of the file, and the content is read-only after that; so a lookup is a function of the
-- lists.
use ssh_idlefarmer.Prelude.{
  String, List, [], ◌∷◌, Option, some, Dict, lookup, insert, lookup-insert, ℕ, zero, suc, get_elem?,
  not, ◌∙◌, str_eq, eq_iff, if◌then◌else◌, ◌≡◌, ◌⊎◌, inl, inr, refl, arith, All, ◌≢◌, Bool-cases,
  some_inj,
}
use mathlib.Core.Path.{subst}
use ssh_idlefarmer.Content.Types.{Content, Crop, Upgrade, Multiplier, SeedUpgrade, Zone, Event}

insert-keeps :
    {A : Type 0} (P : A → Type 0) (m : Dict A) (k : String) (j : String) (y : A)
    → P y
    → ((x : A) → lookup k m ≡ some x → P x)
    → (x : A) → lookup k (insert j y m) ≡ some x
    → P x
insert-keeps P m k j y hy hm x e = elim (Bool-cases (str_eq j k)) [
  | inl t ↦ subst P (some_inj (rw (lookup-insert j k y m, t) at e)) hy
  | inr f ↦ hm x (rw (lookup-insert j k y m, f) at e)
]

module _ {A : Type 0} (key : A → String) where
  -- `for i := range xs { m[xs[i].ID] = &xs[i] }`
  unfoldable pub build_index : Dict A → List A → Dict A
  build_index m [] = m
  build_index m (x ∷ xs) = build_index (insert (key x) x m) xs

  -- An item found under an id has that id, and comes from the list.
  pub build_index-key :
      (m : Dict A) (xs : List A) (k : String) {x : A}
      → lookup k (build_index m xs) ≡ some x
      → (key x ≡ k) ⊎ (lookup k m ≡ some x)
  unfolding build_index
  build_index-key m [] k h = inr h
  build_index-key m (y ∷ xs) k h = elim (build_index-key (insert (key y) y m) xs k h) [
    | inl e ↦ inl e
    | inr e ↦ ground (arith, e, lookup-insert (key y) k y m, eq_iff (key y) k)
  ]

  pub build_index-found :
      (xs : List A) (k : String) {x : A} → lookup k (build_index [] xs) ≡ some x → key x ≡ k
  unfolding lookup
  build_index-found xs k h = elim (build_index-key [] xs k h) [ inl e ↦ e | inr e ↦ cc ]

  -- What holds of every item of the list holds of an item that is found.
  pub build_index-All :
      (P : A → Type 0) (m : Dict A) (xs : List A) (k : String)
      → All P xs
      → ((x : A) → lookup k m ≡ some x → P x)
      → (x : A) → lookup k (build_index m xs) ≡ some x
      → P x
  unfolding build_index
  build_index-All P m [] k h hm = hm
  build_index-All P m (y ∷ xs) k h hm =
      build_index-All P (insert (key y) y m) xs k h.1 (insert-keeps P m k (key y) y h.0 hm)

  -- An id that no item of the list has is looked up in the map before.
  build_index_absent :
      (m : Dict A) (xs : List A) (k : String)
      → All (λ x. key x ≢ k) xs
      → lookup k (build_index m xs) ≡ lookup k m
  unfolding build_index
  build_index_absent m [] k h = refl
  build_index_absent m (y ∷ xs) k h =
      build_index_absent (insert (key y) y m) xs k h.1
      ∙ ground (arith, lookup-insert (key y) k y m, eq_iff (key y) k)

  -- No two items share an id.
  abbrev pub DistinctKeys : List A → Type 0
  DistinctKeys [] = Unit
  DistinctKeys (x ∷ xs) = All (λ y. key y ≢ key x) xs × DistinctKeys xs

  -- With distinct ids, each item of the list is the one found under its id.
  pub build_index-get_elem? :
      (m : Dict A) (xs : List A) (i : ℕ) {x : A}
      → DistinctKeys xs
      → get_elem? xs i ≡ some x
      → lookup (key x) (build_index m xs) ≡ some x
  unfolding build_index
  build_index-get_elem? m [] i d h = cc
  build_index-get_elem? m (y ∷ xs) zero {x} d h =
      let e : y ≡ x = some_inj h in
      rw (← e) (
        build_index_absent (insert (key y) y m) xs (key y) d.0
        ∙ ground (arith, lookup-insert (key y) (key y) y m, eq_iff (key y) (key y)))
  build_index-get_elem? m (y ∷ xs) (suc i) d h =
      build_index-get_elem? (insert (key y) y m) xs i d.1 h

unfoldable pub crop_by_id : Content → String → Option Crop
crop_by_id c id = lookup id (build_index (λ (x : Crop). x.id) [] c.crops)

unfoldable pub upgrade_by_id : Content → String → Option Upgrade
upgrade_by_id c id = lookup id (build_index (λ (x : Upgrade). x.id) [] c.upgrades)

unfoldable pub multiplier_by_id : Content → String → Option Multiplier
multiplier_by_id c id = lookup id (build_index (λ (x : Multiplier). x.id) [] c.multipliers)

unfoldable pub seed_upgrade_by_id : Content → String → Option SeedUpgrade
seed_upgrade_by_id c id = lookup id (build_index (λ (x : SeedUpgrade). x.id) [] c.seed_upgrades)

unfoldable pub seed_upgrade_for_crop : Content → String → Option SeedUpgrade
seed_upgrade_for_crop c crop_id =
    lookup crop_id (build_index (λ (x : SeedUpgrade). x.crop_id) [] c.seed_upgrades)

unfoldable pub zone_by_id : Content → String → Option Zone
zone_by_id c id = lookup id (build_index (λ (x : Zone). x.id) [] c.zones)

unfoldable pub event_by_id : Content → String → Option Event
event_by_id c id = lookup id (build_index (λ (x : Event). x.id) [] c.events)

unfoldable pub starseed_label : Content → String
starseed_label c =
    if not (str_eq c.labels.starseed_name "") then c.labels.starseed_name else "Starseeds"

-- An upgrade found under an id has that id.
pub upgrade_by_id-id :
    (c : Content) (id : String) {x : Upgrade} → upgrade_by_id c id ≡ some x → x.id ≡ id
unfolding upgrade_by_id
upgrade_by_id-id c id = build_index-found (λ (x : Upgrade). x.id) c.upgrades id
