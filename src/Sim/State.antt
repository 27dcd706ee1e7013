-- ===== src/Sim/State.antt =====
-- internal/sim/state.go: the save, its creation and upgrade, saturating sums, and the random stream.
use ssh_idlefarmer.Prelude.{
  ℕ, ◌%◌, String, Bool, true, false, ◌&&◌, ◌||◌, Option, none, some, List, [], map, Dict, lookup_or,
  replicate, if◌then◌else◌, ℤ, pos, pos_part, max_int64, to_bits, of_bits, ◌⊕◌, ◌⊖◌, ◌⊗◌, ◌⊘◌,
  ltb_ℤ, leb_ℤ, eqb_ℤ,
}
use ssh_idlefarmer.Prelude.Word64.{◌+ᵤ◌, ◌*ᵤ◌, xor_shift}
use ssh_idlefarmer.Content.{Content}

abbrev pub state_version : ℤ
state_version = pos 3

-- An empty `crop` or `critter` is none.
pub record Plot : Type 0 where
  pub crop : String
  pub planted_at : ℤ
  pub auto_harvest : Bool
  pub auto_sow : Bool
  pub critter : String

-- `Plot{}`
abbrev pub empty_plot : Plot
empty_plot = record {
  crop = "";
  planted_at = pos 0;
  auto_harvest = false;
  auto_sow = false;
  critter = "";
}

pub record State : Type 0 where
  pub version : ℤ
  pub rng : ℕ  -- uint64
  pub updated_at : ℤ
  pub coins : ℤ
  pub plots : List Plot
  pub purchased_plots : ℤ
  pub tools : Dict Bool
  pub zones : Dict Bool
  pub run_earnings : ℤ
  pub multipliers : Dict ℤ
  pub seed_upgrades : Dict ℤ
  pub gift_pending : Bool
  pub gift_arrived_at : ℤ
  pub event_id : String
  pub event_ends_at : ℤ
  pub prestige_currency : ℤ
  pub upgrades : Dict ℤ
  pub achievements : Dict ℤ
  pub rebirths : ℤ
  pub lifetime_earnings : ℤ
  pub lifetime_harvests : ℤ
  pub flavor_enabled : Bool
  pub farm_name : List ℕ  -- code points
  pub moon_epoch : ℤ

-- `make([]Plot, n)`
unfoldable pub make_plots : ℤ → List Plot
make_plots n = replicate (pos_part n) empty_plot

-- `New`
unfoldable pub new : Content → ℕ → ℤ → State
new c seed now = record {
  version = state_version;
  rng = seed;
  updated_at = now;
  coins = c.start.coins;
  plots = make_plots c.start.plots;
  purchased_plots = pos 0;
  tools = [];
  zones = [];
  run_earnings = pos 0;
  multipliers = [];
  seed_upgrades = [];
  gift_pending = false;
  gift_arrived_at = pos 0;
  event_id = "";
  event_ends_at = pos 0;
  prestige_currency = pos 0;
  upgrades = [];
  achievements = [];
  rebirths = pos 0;
  lifetime_earnings = pos 0;
  lifetime_harvests = pos 0;
  flavor_enabled = true;
  farm_name = [];
  moon_epoch = now ⊘ pos 86400;
}

-- The step of `upgradeState` to version 2.
unfoldable pub upgrade_to_2 : State → State
upgrade_to_2 s =
    if ltb_ℤ s.version (pos 2) then record s { flavor_enabled = true; version = pos 2 } else s

-- What the loop over the plots does with one plot.
unfoldable pub migrate_plot : Bool → Bool → Plot → Plot
migrate_plot had_harvester had_sower p = record p {
  auto_harvest = if had_harvester then true else p.auto_harvest;
  auto_sow = if had_sower then true else p.auto_sow;
}

-- The step of `upgradeState` to version 3: the global tools become flags of each plot.
unfoldable pub upgrade_to_3 : State → State
upgrade_to_3 s =
    let had_harvester = lookup_or false "auto_harvester" s.tools in
    let had_sower = lookup_or false "auto_sower" s.tools in
    let plots' =
      if had_harvester || had_sower
      then map (migrate_plot had_harvester had_sower) s.plots
      else s.plots in
    let epoch' =
      if eqb_ℤ s.moon_epoch (pos 0) && ltb_ℤ (pos 0) s.updated_at
      then s.updated_at ⊘ pos 86400
      else s.moon_epoch in
    if ltb_ℤ s.version (pos 3)
    then record s { plots = plots'; moon_epoch = epoch'; version = pos 3 }
    else s

-- `upgradeState`. Its last lines replace nil maps by empty ones, which are the same value here.
unfoldable pub upgrade_state : State → State
unfolding upgrade_to_2 upgrade_to_3
upgrade_state s = upgrade_to_3 (upgrade_to_2 s)

pub data DecodeError : Type 0 where
  bad_payload : DecodeError
  newer_version : ℤ → DecodeError

pub data Decoded : Type 0 where
  decoded : State → Decoded
  refused : DecodeError → Decoded

-- `DecodeState`, over what `json.Unmarshal` makes of the payload.
unfoldable pub decode_state : Option State → Decoded
unfolding upgrade_state
decode_state none = refused bad_payload
decode_state (some s) =
    if ltb_ℤ state_version s.version
    then refused (newer_version s.version)
    else decoded (upgrade_state s)

unfoldable pub upgrade_level : State → String → ℤ
upgrade_level s id = lookup_or (pos 0) id s.upgrades

unfoldable pub multiplier_level : State → String → ℤ
multiplier_level s id = lookup_or (pos 0) id s.multipliers

unfoldable pub seed_upgrade_level : State → String → ℤ
seed_upgrade_level s crop_id = lookup_or (pos 0) crop_id s.seed_upgrades

unfoldable pub sat_add : ℤ → ℤ → ℤ
sat_add a b = if ltb_ℤ (pos max_int64 ⊖ b) a then pos max_int64 else a ⊕ b

unfoldable pub sat_mul : ℤ → ℤ → ℤ
sat_mul a b =
    if eqb_ℤ a (pos 0) || eqb_ℤ b (pos 0)
    then pos 0
    else if ltb_ℤ (pos max_int64 ⊘ b) a
    then pos max_int64
    else a ⊗ b

unfoldable pub credit : State → ℤ → State
credit s amount = if leb_ℤ amount (pos 0) then s else record s {
  coins = sat_add s.coins amount;
  run_earnings = sat_add s.run_earnings amount;
  lifetime_earnings = sat_add s.lifetime_earnings amount;
}

-- The output function of splitmix64.
unfoldable pub mix : ℕ → ℕ
mix x =
    let z = xor_shift x 30 *ᵤ 0xBF58476D1CE4E5B9 in
    let w = xor_shift z 27 *ᵤ 0x94D049BB133111EB in xor_shift w 31

unfoldable pub next_rand : State → ℕ × State
next_rand s = let rng' : ℕ = s.rng +ᵤ 0x9E3779B97F4A7C15 in (mix rng', record s { rng = rng' })

unfoldable pub roll100 : State → ℤ × State
roll100 s = let (z, s') = next_rand s in (pos (z % 100), s')

unfoldable pub roll_bp : State → ℤ × State
roll_bp s = let (z, s') = next_rand s in (pos (z % 10000), s')

-- `rollRange`. Go panics where `hi - lo + 1` wraps around to 0, which is for the whole range of int64.
unfoldable pub roll_range : State → ℤ → ℤ → ℤ × State
roll_range s lo hi =
    let (z, s') = next_rand s in
    if leb_ℤ hi lo then (lo, s) else (lo ⊕ of_bits (z % to_bits (hi ⊖ lo ⊕ pos 1)), s')

unfoldable pub salvage_numerator : ℤ → ℤ
salvage_numerator level =
    if leb_ℤ level (pos 0)
    then pos 1
    else if eqb_ℤ level (pos 1)
    then pos 2
    else if eqb_ℤ level (pos 2)
    then pos 4
    else pos 6
