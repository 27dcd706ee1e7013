-- ===== src/Sim/Harvests.antt =====
-- Readiness and progress of a plot in internal/sim/derive.go, against Harvest in
-- internal/sim/actions.go.
use ssh_idlefarmer.Prelude.{
  inr, inl, refl, ◌∷◌, [], none, negsuc, some, pos, false, true, Bool, ℤ, ◌≤ℤ◌, arith, leb_ℤ, ℕ,
  ◌⊕◌, NonNeg, ◌<◌, ◌≡◌, ◌⊖◌, pos_part, ◌*◌, ◌/◌, ◌+◌, ◌≤◌, max_int64, ◌↔◌, ◌⊗◌, ◌⊘◌, scale_pos,
  Option, eqb_ℤ, String, List, if◌then◌else◌, str_eq, ◌&&◌, not, Option-cases,
}
use ssh_idlefarmer.Sim.Outcome.{err, err, ok, Result, Outcome}
use ssh_idlefarmer.Sim.Field.{
  harvest, harvest_crop, gather, HarvestResult, call_harvest, payout_panics,
}
use ssh_idlefarmer.Sim.Bonus.{
  progress_pct, is_mature, grow_seconds, plot_ready, sell_bonus, add_multipliers, add_upgrades,
  bonus_sum, is_full_moon, moon_phase, active_event, apply_bonus,
}
use ssh_idlefarmer.Sim.State.{State, Plot, multiplier_level, roll100, upgrade_level, next_rand}
use ssh_idlefarmer.Content.{Content, Crop, Multiplier, Upgrade, crop_by_id}
use ssh_idlefarmer.Sim.Unlocks.{planted_crop, plot_at}
use ssh_idlefarmer.Prelude.Division.{div-lt_of_lt-mul}
use ssh_idlefarmer.Sim.Payout.{roll_base}
use ssh_idlefarmer.Prelude.Word64.{◌+ᵤ◌}

abbrev pub is_ok : {A : Type 0} → Result A → Bool
is_ok (ok a) = true
is_ok (err e) = false

-- Whether the sell bonus of the crop on a plot is -100 percent: then 100 and the bonus are 0.
unfoldable pub sells_for_nothing : State → Content → Option Crop → Bool
sells_for_nothing s c none = false
sells_for_nothing s c (some crop) = eqb_ℤ (pos 100 ⊕ sell_bonus s c crop.id) (pos 0)

unfoldable pub plot_sells_for_nothing : State → Content → ℤ → Bool
unfolding sells_for_nothing
plot_sells_for_nothing s c i = elim (plot_at s i) [
  | none ↦ false
  | some plot ↦ sells_for_nothing s c (planted_crop c plot)
]

abbrev pub is_harvest : Option (Outcome HarvestResult) → Bool
is_harvest none = false
is_harvest (some (answer, t)) = is_ok answer

-- Without the payout's division: the checks of Harvest are those of PlotReady.
pub harvest-plot_ready :
    (s : State) (c : Content) (i now : ℤ) → is_ok (harvest s c i now).0 ≡ plot_ready s c i now
unfolding harvest harvest_crop plot_ready is_mature planted_crop gather
harvest-plot_ready s c i now = ground arith

-- A roll of the dice leaves the bonus as it is.
rolled_upgrades :
    (s : State) (x : ℕ) (effect : String) (us : List Upgrade) (sum : ℤ)
    → add_upgrades (record s { rng = x }) effect sum us ≡ add_upgrades s effect sum us
unfolding add_upgrades upgrade_level
rolled_upgrades s x effect [] sum = refl
rolled_upgrades s x effect (u ∷ us) sum =
    rolled_upgrades s x effect us
      (if str_eq u.effect effect then sum ⊕ u.effect_value ⊗ upgrade_level s u.id else sum)

rolled_multipliers :
    (s : State) (x : ℕ) (effect : String) (ms : List Multiplier) (sum : ℤ)
    → add_multipliers (record s { rng = x }) effect sum ms ≡ add_multipliers s effect sum ms
unfolding add_multipliers multiplier_level
rolled_multipliers s x effect [] sum = refl
rolled_multipliers s x effect (m ∷ ms) sum =
    rolled_multipliers s x effect ms
      (if str_eq m.effect effect then sum ⊕ m.effect_value ⊗ multiplier_level s m.id else sum)

sell_bonus-rng :
    (s : State) (c : Content) (x : ℕ) (id : String)
    → sell_bonus (record s { rng = x }) c id ≡ sell_bonus s c id
unfolding sell_bonus bonus_sum is_full_moon moon_phase active_event
sell_bonus-rng s c x id = rw (rolled_upgrades s x "sell_bonus_pct" c.upgrades (pos 0)) (
    rw
      (rolled_multipliers s x "sell_bonus_pct" c.multipliers
        (add_upgrades s "sell_bonus_pct" (pos 0) c.upgrades))
      refl)

sell_bonus-roll_base :
    (s : State) (c : Content) (crop : Crop)
    → sell_bonus (roll_base s crop).1 c crop.id ≡ sell_bonus s c crop.id
unfolding roll_base roll100 next_rand
sell_bonus-roll_base s c crop =
    ground (arith, sell_bonus-rng s c (s.rng +ᵤ 0x9E3779B97F4A7C15) crop.id)

-- The payout divides by zero exactly where the bonus before the rolls is -100 percent.
payout-sells_for_nothing :
    (s : State) (c : Content) (found : Option Crop)
    → payout_panics s c found ≡ sells_for_nothing s c found
unfolding payout_panics sells_for_nothing apply_bonus ◌⊕◌
payout-sells_for_nothing s c none = refl
payout-sells_for_nothing s c (some crop) = ground (arith, sell_bonus-roll_base s c crop)

pub harvest_iff_ready :
    (s : State) (c : Content) (i now : ℤ)
    → (is_harvest (call_harvest s c i now)
        ≡ (plot_ready s c i now && not (plot_sells_for_nothing s c i)))
      × ((call_harvest s c i now ≡ none)
          ↔ (plot_ready s c i now && plot_sells_for_nothing s c i ≡ true))
unfolding call_harvest plot_sells_for_nothing harvest harvest_crop gather plot_ready is_mature
    planted_crop sells_for_nothing
harvest_iff_ready s c i now = elim (Option-cases (plot_at s i)) [
  | inl e ↦ ground (arith, e)
  | inr (plot, e) ↦ ground (arith, e, payout-sells_for_nothing s c (crop_by_id c plot.crop))
]

grow_seconds_positive : (s : State) (c : Content) (crop : Crop) → pos 1 ≤ℤ grow_seconds s c crop
unfolding grow_seconds
grow_seconds_positive s c crop = ground arith

share_below : (e g : ℕ) → e < g → e * 100 / g < 100
share_below e g h = div-lt_of_lt-mul 100 g (e * 100) (omega (arith, h)) (omega (arith, h))

-- The percentage over numbers: below the growing time it is less than 100.
percent :
    (e g : ℕ)
    → e < g
    → g * 100 ≤ max_int64
    → (p : ℕ) × (pos e ⊗ pos 100 ⊘ pos g ≡ pos p) × (p < 100)
percent e g h fits =
    (e * 100 / g, scale_pos e 100 g (omega (arith, h, fits)) (omega arith), share_below e g h)

percent_of :
    (e g : ℤ)
    → pos 1 ≤ℤ g
    → leb_ℤ e (pos 0) ≡ false
    → leb_ℤ g e ≡ false
    → pos_part g * 100 ≤ max_int64
    → (p : ℕ) × (e ⊗ pos 100 ⊘ g ≡ pos p) × (p < 100)
percent_of (pos e) (pos g) hg h k fits = percent e g (ground (arith, k)) fits
percent_of (negsuc e) g hg h k fits = absurd (ground (arith, h))
percent_of (pos e) (negsuc g) hg h k fits = absurd (omega arith)

mature_of_elapsed :
    (planted now g : ℤ)
    → NonNeg planted
    → NonNeg now
    → pos 1 ≤ℤ g
    → pos_part planted + pos_part g ≤ max_int64
    → leb_ℤ (planted ⊕ g) now ≡ leb_ℤ g (now ⊖ planted)
unfolding ◌⊕◌ ◌⊖◌
mature_of_elapsed (pos p) (pos n) (pos g) hp hn hg fits = ground arith
mature_of_elapsed (negsuc p) n g hp hn hg fits = absurd (omega arith)
mature_of_elapsed (pos p) (negsuc n) g hp hn hg fits = absurd (omega arith)
mature_of_elapsed (pos p) (pos n) (negsuc g) hp hn hg fits = absurd (omega arith)

-- For a planting time and a time that are int64 values from 0 on, where 100 times the growing
-- time, and the time of maturity, do not overflow, the progress of a plot with a known crop is
-- between 0 and 100 percent, and is 100 exactly when the crop is mature.
pub progress_full_iff :
    (s : State) (c : Content) (plot : Plot) (now : ℤ) (crop : Crop)
    → NonNeg plot.planted_at
    → NonNeg now
    → pos_part (grow_seconds s c crop) * 100 ≤ max_int64
    → pos_part plot.planted_at + pos_part (grow_seconds s c crop) ≤ max_int64
    → let pct = progress_pct s c plot now (some crop) in
      (pos 0 ≤ℤ pct)
      × (pct ≤ℤ pos 100)
      × ((pct ≡ pos 100) ↔ (is_mature s c plot now (some crop) ≡ true))
unfolding progress_pct is_mature
progress_full_iff s c plot now crop hp hn fits sum_fits = ground (
  arith,
  grow_seconds_positive s c crop,
  mature_of_elapsed plot.planted_at now (grow_seconds s c crop) hp hn
      (grow_seconds_positive s c crop) sum_fits,
  percent_of (now ⊖ plot.planted_at) (grow_seconds s c crop) (grow_seconds_positive s c crop),
)
