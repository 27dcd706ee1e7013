-- ===== src/Examples/Tui.antt =====
-- The theorems on the terminal program, on the small farm.
use ssh_idlefarmer.Tui.Model.{kicked, Ui, new_game}
use ssh_idlefarmer.Tui.Update.{Msg, pressed, ticked, update}
use ssh_idlefarmer.Examples.Farm.{farm, new_farm, farm_is_valid, farm-HasInt64}
use ssh_idlefarmer.Prelude.{◌∷◌, [], refl, false, true, pos}
use ssh_idlefarmer.Tui.Kicked.{Ends, kicked-Ends}
use ssh_idlefarmer.Sim.Events.{no_events}
use ssh_idlefarmer.Tui.Played.{Playing, sent, joined, Playing-Solvent}
use ssh_idlefarmer.Tui.Tidy.{Tidy, Playing-Tidy}
use ssh_idlefarmer.Tui.Unreborn.{GoesOn, update-GoesOn}
use ssh_idlefarmer.Game.Saves.{created}
use ssh_idlefarmer.Sim.Solvent.Balances.{Solvent}

abbrev first_screen : Ui
first_screen =
    new_game farm (record { state = new_farm; dirty = false }) true no_events (pos 80) (pos 24)
      (pos 5) (pos 900)

abbrev farewell : Ui
farewell = record first_screen { overlay = kicked; quit_at = pos 8 }

kicked-Ends_example :
    Ends
      (ticked (pos 6))
      farewell
      (update (λ n. n) farm (λ r. true) (λ u. 0) (ticked (pos 6)) farewell)
kicked-Ends_example = kicked-Ends (λ n. n) farm (λ r. true) (λ u. 0) (ticked (pos 6)) farewell refl

-- The key a on the first screen, then a tick.
abbrev harvesting : Msg
harvesting = pressed (record { name = "a"; runes = 97 ∷ [] })

abbrev after_key : Ui
after_key = (update (λ n. n) farm (λ r. true) (λ u. 0) harvesting first_screen).0

abbrev played : Playing (λ n. n) farm (λ r. true) (λ u. 0) after_key
played = sent harvesting (
    joined (record { state = new_farm; dirty = false }) true no_events (pos 80) (pos 24) (pos 5)
      (pos 900) (created 7 (pos 100)))

Playing-Solvent_example : Solvent after_key.snap
Playing-Solvent_example =
    Playing-Solvent (λ n. n) farm (λ r. true) (λ u. 0) farm_is_valid farm-HasInt64 played

Playing-Tidy_example : Tidy after_key
Playing-Tidy_example = Playing-Tidy (λ n. n) farm (λ r. true) (λ u. 0) played

update-GoesOn_example : GoesOn (λ n. n) farm first_screen.session after_key.session
unfolding new_game
update-GoesOn_example =
    update-GoesOn (λ n. n) farm (λ r. true) (λ u. 0) harvesting first_screen refl
