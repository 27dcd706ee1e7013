-- ===== src/Content/Validated.antt =====
-- What `validate` of internal/content/content.go guarantees: ids are unique, so a lookup finds each
-- item, and the prices are fit for the engine.
use ssh_idlefarmer.Prelude.{
  pos, refl, false, true, suc, ◌∷◌, [], some, none, String, List, Option, Bool, ℕ, ◌≡◌, All, Dict,
  get_elem?, arith, lookup_or, insert, ◌≢◌, lookup_or-insert, eq_iff, InRange, NonNeg, ltb_ℤ,
}
use ssh_idlefarmer.Content.{
  crop_by_id, Content, Crop, Zone, DistinctKeys, build_index-get_elem?, Upgrade, Multiplier,
  SeedUpgrade,
}
use ssh_idlefarmer.Content.Validate.{
  check_each, ◌⨾◌, validate, fail_if, check_basics, Problem, check_items, check_zone, zone_ids_of,
  check_crop, check_tuning, below,
}
use ssh_idlefarmer.Content.Bounds.{IsPriced}

both_none : (p q : Option Problem) → p ⨾ q ≡ none → (p ≡ none) × (q ≡ none)
unfolding ◌⨾◌
both_none none q h = (refl, h)
both_none (some p) q h = cc

not_failed : (bad : Bool) (p : Problem) → fail_if bad p ≡ none → bad ≡ false
unfolding fail_if
not_failed bad p h = ground arith

module _ {A : Type 0} (kind : String) (id name : A → String) (check : A → Option Problem) where
  -- One round of the loop that finds no problem.
  check_items_cons :
      (seen : Dict Bool) (i : ℕ) (x : A) (xs : List A)
      → check_items kind id name check seen i (x ∷ xs) ≡ none
      → (lookup_or false (id x) seen ≡ false)
        × (check x ≡ none)
        × (check_items kind id name check (insert (id x) true seen) (suc i) xs ≡ none)
  unfolding check_items
  check_items_cons seen i x xs h =
      let a = both_none _ _ h in
      let b = both_none _ _ a.1 in let d = both_none _ _ b.1 in (not_failed _ _ b.0, d.0, d.1)

  unseen :
      (seen : Dict Bool) (i : ℕ) (xs : List A) (k : String)
      → check_items kind id name check seen i xs ≡ none
      → lookup_or false k seen ≡ true
      → All (λ y. id y ≢ k) xs
  unseen seen i [] k h e = tt
  unseen seen i (x ∷ xs) k h e =
      let (fresh, fine, rest) = check_items_cons seen i x xs h in
      (
        (λ same. ground (arith, fresh, e, same)),
        unseen (insert (id x) true seen) (suc i) xs k rest
            (ground (arith, e, lookup_or-insert false (id x) k true seen)),
      )

  check_items-DistinctKeys :
      (seen : Dict Bool) (i : ℕ) (xs : List A)
      → check_items kind id name check seen i xs ≡ none
      → DistinctKeys id xs
  check_items-DistinctKeys seen i [] h = tt
  check_items-DistinctKeys seen i (x ∷ xs) h =
      let (fresh, fine, rest) = check_items_cons seen i x xs h in
      let seen' = insert (id x) true seen in
      (
        unseen seen' (suc i) xs (id x) rest
            (ground (arith, lookup_or-insert false (id x) (id x) true seen, eq_iff (id x) (id x))),
        check_items-DistinctKeys seen' (suc i) xs rest,
      )

check_each-All :
    {A : Type 0} (check : A → Option Problem) (xs : List A)
    → check_each check xs ≡ none
    → All (λ x. check x ≡ none) xs
unfolding check_each
check_each-All check [] h = tt
check_each-All check (x ∷ xs) h = let a = both_none _ _ h in (a.0, check_each-All check xs a.1)

-- What holds of the checked items of a list.
zip-All :
    {A : Type 0} (P Q R : A → Type 0) (xs : List A)
    → ((x : A) → P x → Q x → R x)
    → All P xs
    → All Q xs
    → All R xs
zip-All P Q R [] f h k = tt
zip-All P Q R (x ∷ xs) f h k = (f x h.0 k.0, zip-All P Q R xs f h.1 k.1)

-- The checks of valid content, part by part.
pub record Passed (c : Content) : Type 0 where
  pub basics_ok : check_basics c ≡ none
  pub zone_list_ok :
      check_items "zone" (λ (z : Zone). z.id) (λ (z : Zone). z.name) (λ z. none) [] 0 c.zones ≡ none
  pub zone_values_ok : check_each (check_zone (zone_ids_of c.zones)) c.zones ≡ none
  pub crop_list_ok :
      check_items "crop"
        (λ (x : Crop). x.id)
        (λ (x : Crop). x.name)
        (check_crop (zone_ids_of c.zones))
        []
        0
        c.crops
      ≡ none
  pub tuning_ok : check_tuning c ≡ none

pub validate-Passed : (c : Content) → validate c ≡ none → Passed c
unfolding validate
validate-Passed c h =
    let a = both_none _ _ h in
    let b = both_none _ _ a.1 in
    let d = both_none _ _ b.1 in
    let e = both_none _ _ d.1 in
    let f = both_none _ _ e.1 in
    let g = both_none _ _ f.1 in
    let i = both_none _ _ g.1 in
    let j = both_none _ _ i.1 in
    let k = both_none _ _ j.1 in
    let l = both_none _ _ k.1 in
    record {
      basics_ok = a.0;
      zone_list_ok = b.0;
      zone_values_ok = d.0;
      crop_list_ok = e.0;
      tuning_ok = l.0;
    }

-- In content that validate accepts, each crop of the list is the one that the lookup finds under
-- its id.
pub validate-crop_by_id :
    (c : Content) (i : ℕ) {x : Crop}
    → validate c ≡ none
    → get_elem? c.crops i ≡ some x
    → crop_by_id c x.id ≡ some x
unfolding crop_by_id
validate-crop_by_id c i h e =
    build_index-get_elem? (λ (x : Crop). x.id) [] c.crops i
      (check_items-DistinctKeys "crop" (λ (x : Crop). x.id) (λ (x : Crop). x.name)
        (check_crop (zone_ids_of c.zones)) [] 0 c.crops (validate-Passed c h).crop_list_ok)
      e

-- The fields of the content that the engine's money reads are int64 values, as their Go type says.
pub record HasInt64 (c : Content) : Type 0 where
  pub start_coins_fit : InRange c.start.coins
  pub auto_sow_fits : InRange c.plot_automation.auto_sow_cost
  pub auto_harvest_fits : InRange c.plot_automation.auto_harvest_base_cost
  pub plot_fits : InRange c.land.base_plot_cost
  pub zones_fit : All (λ (z : Zone). InRange z.cost) c.zones
  pub crops_fit : All (λ (x : Crop). InRange x.seed_cost × InRange x.sell_value) c.crops
  pub upgrades_fit : All (λ (u : Upgrade). InRange u.cost) c.upgrades
  pub multipliers_fit : All (λ (m : Multiplier). InRange m.cost) c.multipliers
  pub seed_upgrades_fit : All (λ (u : SeedUpgrade). InRange u.cost) c.seed_upgrades
  pub finds_fit : InRange c.flavor.discovery_min
  pub shoo_fits : InRange c.critters.shoo_reward_min
  pub gift_floor_fits : InRange c.gifts.coin_reward_floor
  pub gift_ceiling_fits : InRange c.gifts.coin_reward_ceiling

check_zone-cost :
    (ids : Dict Bool) (z : Zone) → check_zone ids z ≡ none → InRange z.cost → NonNeg z.cost
unfolding check_zone below
check_zone-cost ids z h r =
    let a = both_none _ _ h in let b = both_none _ _ a.1 in ground (arith, not_failed _ _ b.0)

basics-coins : (c : Content) → check_basics c ≡ none → InRange c.start.coins → NonNeg c.start.coins
unfolding check_basics below
basics-coins c h r =
    let a = both_none _ _ h in let b = both_none _ _ a.1 in ground (arith, not_failed _ _ b.0)

pub validate-min_earnings :
    (c : Content) → validate c ≡ none → ltb_ℤ c.prestige.min_earnings (pos 1) ≡ false
unfolding check_basics below
validate-min_earnings c h =
    let a = both_none _ _ (validate-Passed c h).basics_ok in
    let b = both_none _ _ a.1 in
    let d = both_none _ _ b.1 in
    let e = both_none _ _ d.1 in let f = both_none _ _ e.1 in not_failed _ _ f.1

tuning-sow_cost :
    (c : Content)
    → check_tuning c ≡ none
    → InRange c.plot_automation.auto_sow_cost
    → NonNeg c.plot_automation.auto_sow_cost
unfolding check_tuning below
tuning-sow_cost c h r =
    let a = both_none _ _ h in
    let b = both_none _ _ a.1 in
    let d = both_none _ _ b.1 in let e = both_none _ _ d.1 in ground (arith, not_failed _ _ e.0)

-- Content that validate accepts, with int64 values in its fields, has start coins, a price of
-- auto-sow and zone prices that are not negative, and int64 values for the other prices.
pub validate-IsPriced : (c : Content) → validate c ≡ none → HasInt64 c → IsPriced c
validate-IsPriced c h t =
    let p = validate-Passed c h in
    record {
      start_coins_ok = basics-coins c p.basics_ok t.start_coins_fit;
      auto_sow_ok = tuning-sow_cost c p.tuning_ok t.auto_sow_fits;
      auto_harvest_fits = t.auto_harvest_fits;
      plot_fits = t.plot_fits;
      zones_ok =
          zip-All (λ z. check_zone (zone_ids_of c.zones) z ≡ none) (λ (z : Zone). InRange z.cost)
            (λ (z : Zone). NonNeg z.cost) c.zones (check_zone-cost (zone_ids_of c.zones))
            (check_each-All (check_zone (zone_ids_of c.zones)) c.zones p.zone_values_ok)
            t.zones_fit;
      crops_fit = t.crops_fit;
      upgrades_fit = t.upgrades_fit;
      multipliers_fit = t.multipliers_fit;
      seed_upgrades_fit = t.seed_upgrades_fit;
      finds_fit = t.finds_fit;
      shoo_fits = t.shoo_fits;
      gift_floor_fits = t.gift_floor_fits;
      gift_ceiling_fits = t.gift_ceiling_fits;
    }
