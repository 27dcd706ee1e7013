-- ===== src/Sim/Events.antt =====
-- internal/sim/advance.go: what happened during one call of `Advance`, and the lines that greet a
-- player who was away.
use ssh_idlefarmer.Prelude.{
  none, String, Bool, true, false, not, ◌&&◌, List, [], ◌∷◌, Dict, insert, lookup_or, str_eq, ℤ,
  pos, ◌⊕◌, eqb_ℤ, if◌then◌else◌, get_elem?, pos_part, ltb_ℤ, rem, ◌++◌, some,
}
use ssh_idlefarmer.Content.{Content, crop_by_id}
use Prim.Native.String.{◌++◌ as text_append}

pub record Events : Type 0 where
  pub elapsed : ℤ
  pub matured : Dict ℤ
  pub auto_harvested : Dict ℤ
  pub auto_coins : ℤ
  pub discoveries : ℤ
  pub discovery_coins : ℤ
  pub achievements : List String
  pub failed_harvests : Dict ℤ
  pub golden_harvests : ℤ
  pub gift_arrived : Bool
  pub event_started : String
  pub event_ended : String
  pub critter_visits : List String
  pub away_vignettes : List String

-- The value that `Advance` starts from.
abbrev pub no_events : Events
no_events = record {
  elapsed = pos 0;
  matured = [];
  auto_harvested = [];
  auto_coins = pos 0;
  discoveries = pos 0;
  discovery_coins = pos 0;
  achievements = [];
  failed_harvests = [];
  golden_harvests = pos 0;
  gift_arrived = false;
  event_started = "";
  event_ended = "";
  critter_visits = [];
  away_vignettes = [];
}

-- `len(xs) == 0`
abbrev pub is_empty : {A : Type 0} → List A → Bool
is_empty [] = true
is_empty (x ∷ xs) = false

-- `Events.Empty`
unfoldable pub is_uneventful : Events → Bool
is_uneventful e =
    is_empty e.matured
    && is_empty e.auto_harvested
    && eqb_ℤ e.discoveries (pos 0)
    && is_empty e.achievements
    && is_empty e.failed_harvests
    && eqb_ℤ e.golden_harvests (pos 0)
    && not e.gift_arrived
    && str_eq e.event_started ""
    && str_eq e.event_ended ""
    && is_empty e.critter_visits

-- `m[k] += n` on a map of counters
unfoldable pub add_count : String → ℤ → Dict ℤ → Dict ℤ
add_count k n m = insert k (lookup_or (pos 0) k m ⊕ n) m

unfoldable pub total_count : Dict ℤ → ℤ
total_count [] = pos 0
total_count ((k, n) ∷ m) = n ⊕ total_count m

-- The line about the failed harvests of one crop.
unfoldable pub failure_line : Content → String → ℤ → String
failure_line c id n =
    let name : String = elim (crop_by_id c id) [ none ↦ id | some crop ↦ crop.name ] in
    if eqb_ℤ n (pos 1)
    then text_append "A " (text_append name " crop failed in the night.")
    else text_append "Several " (text_append name " crops failed in the night.")

unfoldable pub failure_lines : Content → Dict ℤ → List String
unfolding failure_line
failure_lines c [] = []
failure_lines c ((id, n) ∷ m) = failure_line c id n ∷ failure_lines c m

abbrev pub quiet_vignettes : List String
quiet_vignettes =
    "A fox watched your turnips. It did not help." ∷ "The scarecrow held its post admirably."
    ∷ "Dew settled on empty furrows like silver coins."
    ∷ "A distant owl hooted approval at your patience." ∷ []

abbrev pub line_if : Bool → String → List String
line_if b line = if b then line ∷ [] else []

-- `lines` with the vignette of the time where there is none. The code panics where the index is
-- negative, that is at a timestamp before 1970.
unfoldable pub or_quiet : ℤ → List String → List String
or_quiet updated_at [] = elim (get_elem? quiet_vignettes (pos_part (rem updated_at (pos 4)))) [
  | none ↦ []
  | some line ↦ line ∷ []
]
or_quiet updated_at (x ∷ xs) = x ∷ xs

-- `awayVignettes`, at the time that the state was simulated to. Go ranges over the failed harvests in
-- no fixed order.
unfoldable pub away_vignettes : ℤ → Content → Events → List String
unfolding failure_lines or_quiet total_count
away_vignettes updated_at c ev = or_quiet updated_at (
    line_if (ltb_ℤ (pos 0) (total_count ev.matured)) "The fields kept growing while you were gone."
    ++ (line_if (ltb_ℤ (pos 0) (total_count ev.auto_harvested))
          "Your automated plots worked without rest."
        ++ (failure_lines c ev.failed_harvests
            ++ line_if ev.gift_arrived "A parcel arrived at the gate while you were away.")))
