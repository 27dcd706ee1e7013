-- ===== src/Examples/Resumed.antt =====
-- The theorem on a save that is opened again, for a player who plants and then leaves.
use ssh_idlefarmer.Store.Rows.{save_key, Store, SaveRow, got, Answer}
use ssh_idlefarmer.Game.Durable.{Played, opened, acted}
use ssh_idlefarmer.Game.Intents.{Intent}
use ssh_idlefarmer.Sim.State.{decoded, decode_state, new, state_version}
use ssh_idlefarmer.Prelude.{
  refl, refl, true, false, some, none, pos, [], ◌∷◌, NonNeg, ◌≡◌, arith, ap, Bool,
}
use ssh_idlefarmer.Store.Saves.{load_or_create}
use ssh_idlefarmer.Game.Actor.{Save, intent}
use ssh_idlefarmer.Game.Registry.{flush}
use ssh_idlefarmer.Examples.Codec.{wire_codec, wire_codec_law}
use ssh_idlefarmer.Prelude.Tables.{find}
use ssh_idlefarmer.Examples.Farm.{farm, new_farm}
use ssh_idlefarmer.Examples.Store.{home, fine, home_is_valid}
use ssh_idlefarmer.Game.Resumed.{load_found, flush-resumes}
use ssh_idlefarmer.Sim.Versions.{decode_current}

abbrev farm_row : SaveRow
farm_row = record {
  created_at = pos 0;
  last_active = pos 0;
  payload = wire_codec.encode new_farm;
  state_version = pos 3;
}

abbrev farm_store : Store
farm_store = record { accounts = []; saves = (home, farm_row) ∷ [] }

farm_found : find home farm_store.saves ≡ some farm_row
unfolding find
farm_found = refl

farm_loaded :
    load_or_create fine home (pos 100) none farm_store ≡ (got (farm_row, false), farm_store)
farm_loaded = load_found fine home (pos 100) none farm_store home_is_valid refl farm_found

current : new_farm.version ≡ state_version
unfolding new
current = refl

farm_decodes : decode_state (wire_codec.parse farm_row.payload) ≡ decoded new_farm
farm_decodes = rw (wire_codec_law new_farm) (decode_current new_farm current)

young : NonNeg new_farm.updated_at
unfolding new
young = ground arith

abbrev resumed : Store
resumed = (load_or_create fine home (pos 100) none farm_store).1

abbrev planted : Save
planted =
    (intent (λ n. n) farm (pos 100) (Intent.plant (pos 0) "wheat")
      (record { state = new_farm; dirty = false })).1

plays : Played (λ n. n) wire_codec farm home planted resumed
plays = acted (pos 100) (Intent.plant (pos 0) "wheat") (ground arith) (
    opened farm_store fine (pos 100) none farm_row false new_farm
      (ap (λ (r : Answer (SaveRow × Bool) × Store). r.0) farm_loaded) farm_decodes young)

flush-resumes_example :
    let (v', st') = flush wire_codec true home planted resumed in
    (v' ≡ record { state = planted.state; dirty = false })
    × (row : SaveRow) × (load_or_create fine home (pos 160) none st' ≡ (got (row, false), st'))
    × (decode_state (wire_codec.parse row.payload) ≡ decoded planted.state)
flush-resumes_example =
    flush-resumes (λ n. n) wire_codec wire_codec_law farm home plays fine (pos 160) none refl
