-- ===== src/Sim/Versions.antt =====
-- The versions of a save in internal/sim/state.go.
use ssh_idlefarmer.Prelude.{
  refl, false, ◌∷◌, [], some, Bool, List, ◌≡◌, ltb_ℤ, length, arith, map, ◌∙◌, lookup_or, ap,
}
use ssh_idlefarmer.Sim.State.{
  decode_state, upgrade_state, upgrade_to_2, upgrade_to_3, State, Plot, decoded, state_version,
  migrate_plot,
}

upgrade_to_2_fits :
    (s : State)
    → ltb_ℤ state_version s.version ≡ false
    → ltb_ℤ state_version (upgrade_to_2 s).version ≡ false
unfolding upgrade_to_2
upgrade_to_2_fits s h = ground arith

upgrade_to_2-keeps :
    (s : State) → ((upgrade_to_2 s).coins ≡ s.coins) × ((upgrade_to_2 s).plots ≡ s.plots)
unfolding upgrade_to_2
upgrade_to_2-keeps s = ground arith

length-map_migrate : (h w : Bool) (ps : List Plot) → length (map (migrate_plot h w) ps) ≡ length ps
length-map_migrate h w [] = refl
length-map_migrate h w (p ∷ ps) = omega (arith, length-map_migrate h w ps)

upgrade_to_3-version :
    (s : State) → ltb_ℤ state_version s.version ≡ false → (upgrade_to_3 s).version ≡ state_version
unfolding upgrade_to_3
upgrade_to_3-version s h = ground arith

upgrade_to_3-keeps :
    (s : State)
    → ((upgrade_to_3 s).coins ≡ s.coins) × (length (upgrade_to_3 s).plots ≡ length s.plots)
unfolding upgrade_to_3
upgrade_to_3-keeps s =
    let migrated =
      length-map_migrate (lookup_or false "auto_harvester" s.tools)
        (lookup_or false "auto_sower" s.tools) s.plots in
    ground (arith, migrated)

-- A save of the current version decodes to itself.
pub decode_current : (s : State) → s.version ≡ state_version → decode_state (some s) ≡ decoded s
unfolding decode_state upgrade_state upgrade_to_2 upgrade_to_3
decode_current s h = ground arith

decode_fits :
    (s : State) {t : State}
    → decode_state (some s) ≡ decoded t
    → (ltb_ℤ state_version s.version ≡ false) × (upgrade_state s ≡ t)
unfolding decode_state
decode_fits s h = ground arith

-- A save that decodes is of the current version afterwards, has its coins and its number of plots,
-- and decodes to itself again.
pub decode_state_twice :
    (s : State) {t : State}
    → decode_state (some s) ≡ decoded t
    → (t.version ≡ state_version)
      × (t.coins ≡ s.coins)
      × (length t.plots ≡ length s.plots)
      × (decode_state (some t) ≡ decoded t)
unfolding upgrade_state
decode_state_twice s {t} h =
    let (fits, e) = decode_fits s h in
    let r = upgrade_to_2 s in
    let version : t.version ≡ state_version =
      rw (← e) (upgrade_to_3-version r (upgrade_to_2_fits s fits)) in
    let kept = upgrade_to_3-keeps r in
    (
      version,
      rw (← e) (kept.0 ∙ (upgrade_to_2-keeps s).0),
      rw (← e) (kept.1 ∙ ap length (upgrade_to_2-keeps s).1),
      decode_current t version,
    )
