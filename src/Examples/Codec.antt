-- ===== src/Examples/Codec.antt =====
-- A codec of saves that gives back what it is given: it stands in for the JSON codec in the examples.
use ssh_idlefarmer.Game.Registry.{Codec}
use ssh_idlefarmer.Sim.State.{State, Plot}
use ssh_idlefarmer.Prelude.{
  refl, [], none, refl, ap, some, none, ℤ, Dict, Option, String, ◌≡◌, ℕ, List, Bool,
}
use ssh_idlefarmer.Examples.Wire.{Wire, both, via, many, int_wire, text_wire, nat_wire, bool_wire}

abbrev plot_fields : Plot → String × (ℤ × (Bool × (Bool × String)))
plot_fields p = (p.crop, (p.planted_at, (p.auto_harvest, (p.auto_sow, p.critter))))

abbrev plot_from : String × (ℤ × (Bool × (Bool × String))) → Option Plot
plot_from (crop, (planted_at, (auto_harvest, (auto_sow, critter)))) = some (record {
  crop = crop;
  planted_at = planted_at;
  auto_harvest = auto_harvest;
  auto_sow = auto_sow;
  critter = critter;
})

abbrev plot_wire : Wire Plot
plot_wire =
    via (both text_wire (both int_wire (both bool_wire (both bool_wire text_wire)))) plot_fields
      plot_from (λ p. refl)

abbrev flags_wire : Wire (Dict Bool)
flags_wire = many (both text_wire bool_wire)

abbrev levels_wire : Wire (Dict ℤ)
levels_wire = many (both text_wire int_wire)

abbrev Part1 : Type 0
Part1 = ℤ × (ℕ × (ℤ × (ℤ × (List Plot × (ℤ)))))

abbrev part_1 : Wire Part1
part_1 =
    (both int_wire (both nat_wire (both int_wire (both int_wire (both (many plot_wire) int_wire)))))

abbrev Part2 : Type 0
Part2 = Dict Bool × (Dict Bool × (ℤ × (Dict ℤ × (Dict ℤ × (Bool)))))

abbrev part_2 : Wire Part2
part_2 =
    (both flags_wire
      (both flags_wire (both int_wire (both levels_wire (both levels_wire bool_wire)))))

abbrev Part3 : Type 0
Part3 = ℤ × (String × (ℤ × (ℤ × (Dict ℤ × (Dict ℤ)))))

abbrev part_3 : Wire Part3
part_3 =
    (both int_wire (both text_wire (both int_wire (both int_wire (both levels_wire levels_wire)))))

abbrev Part4 : Type 0
Part4 = ℤ × (ℤ × (ℤ × (Bool × (List ℕ × (ℤ)))))

abbrev part_4 : Wire Part4
part_4 =
    (both int_wire (both int_wire (both int_wire (both bool_wire (both (many nat_wire) int_wire)))))

abbrev Fields : Type 0
Fields = (Part1 × Part2) × (Part3 × Part4)

abbrev state_fields : State → Fields
state_fields s = (
  (
    (s.version, (s.rng, (s.updated_at, (s.coins, (s.plots, s.purchased_plots))))),
    (s.tools, (s.zones, (s.run_earnings, (s.multipliers, (s.seed_upgrades, s.gift_pending))))),
  ),
  (
    (
      s.gift_arrived_at,
      (s.event_id, (s.event_ends_at, (s.prestige_currency, (s.upgrades, s.achievements)))),
    ),
    (
      s.rebirths,
      (s.lifetime_earnings, (s.lifetime_harvests, (s.flavor_enabled, (s.farm_name, s.moon_epoch)))),
    ),
  ),
)

abbrev state_from : Fields → Option State
state_from
      (
        (
          (version, (rng, (updated_at, (coins, (plots, purchased_plots))))),
          (tools, (zones, (run_earnings, (multipliers, (seed_upgrades, gift_pending))))),
        ),
        (
          (
            gift_arrived_at,
            (event_id, (event_ends_at, (prestige_currency, (upgrades, achievements)))),
          ),
          (
            rebirths,
            (lifetime_earnings, (lifetime_harvests, (flavor_enabled, (farm_name, moon_epoch)))),
          ),
        ),
      ) =
    some (record {
      version = version;
      rng = rng;
      updated_at = updated_at;
      coins = coins;
      plots = plots;
      purchased_plots = purchased_plots;
      tools = tools;
      zones = zones;
      run_earnings = run_earnings;
      multipliers = multipliers;
      seed_upgrades = seed_upgrades;
      gift_pending = gift_pending;
      gift_arrived_at = gift_arrived_at;
      event_id = event_id;
      event_ends_at = event_ends_at;
      prestige_currency = prestige_currency;
      upgrades = upgrades;
      achievements = achievements;
      rebirths = rebirths;
      lifetime_earnings = lifetime_earnings;
      lifetime_harvests = lifetime_harvests;
      flavor_enabled = flavor_enabled;
      farm_name = farm_name;
      moon_epoch = moon_epoch;
    })

abbrev state_wire : Wire State
state_wire =
    via (both (both part_1 part_2) (both part_3 part_4)) state_fields state_from (λ s. refl)

abbrev whole : Option (State × List ℕ) → Option State
whole none = none
whole (some (s, rest)) = some s

abbrev pub wire_codec : Codec
wire_codec = record { encode = λ s. state_wire.put s []; parse = λ ns. whole (state_wire.get ns) }

pub wire_codec_law : (s : State) → wire_codec.parse (wire_codec.encode s) ≡ some s
wire_codec_law s = ap whole (state_wire.law s [])
