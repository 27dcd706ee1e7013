-- ===== src/Examples/Registry.antt =====
-- The theorems on the registry, for one process.
use ssh_idlefarmer.Game.Closing.{
  flush_next, ShuttingDown, flushes, meanwhile, begins, ticks, Answers, flushed, ShuttingDown-work,
}
use ssh_idlefarmer.Game.Ended.{shutdown-closes, shutdown_ends, Left, ShuttingDown-Running}
use ssh_idlefarmer.Game.Shutdown.{Running-Emptied, attach-closing}
use ssh_idlefarmer.Game.Lifecycle.{Running, attaches, then_does, started}
use ssh_idlefarmer.Examples.Store.{fine, home}
use ssh_idlefarmer.Prelude.{
  refl, refl, none, none, ◌≡◌, String, ℤ, false, true, [], [], some, pos, true, ◌*◌, ◌≤◌, arith,
}
use ssh_idlefarmer.Game.Locks.{LockStep, holder}
use ssh_idlefarmer.Game.Registry.{
  Manager, Codec, AttachLuck, attach, new_manager, active_saves, turned_away, shutting_down,
  begin_shutdown, session_advance, Handle, Attached,
}
use ssh_idlefarmer.Game.Exclusive.{Exclusive, Running-Exclusive}
use ssh_idlefarmer.Examples.Farm.{new_farm, farm}
use ssh_idlefarmer.Game.Locking.{Step-Locked}
use ssh_idlefarmer.Store.Rows.{empty_store, SaveKey}
use ssh_idlefarmer.Store.Saves.{
  touch_account, load_or_create, valid_keys, slot_matches, is_some_row,
}
use ssh_idlefarmer.Prelude.Tables.{string_key, find, put}
use ssh_idlefarmer.Identity.Slots.{is_slot_rune}
use ssh_idlefarmer.Sim.State.{decode_state}
use ssh_idlefarmer.Game.Actor.{tick}

abbrev pub no_codec : Codec
no_codec = record { encode = λ s. []; parse = λ p. some new_farm }

abbrev pub start : Manager
start = new_manager "refuse" empty_store

abbrev pub luck : AttachLuck
luck = record { touches = true; weather = fine; seed = 7 }

abbrev joined_farm : Manager
joined_farm = (attach no_codec farm luck home "key" (pos 5) start).1

Step-Locked_example :
    LockStep start.refuses start.next_id joined_farm.next_id (holder start) (holder joined_farm)
Step-Locked_example = Step-Locked (λ n. n) no_codec farm (attaches start luck home "key" (pos 5))

Running-Exclusive_example : Exclusive joined_farm.next_id (holder joined_farm)
Running-Exclusive_example =
    Running-Exclusive (λ n. n) no_codec farm
      (then_does started (attaches start luck home "key" (pos 5)))

still_open : joined_farm.closing ≡ false
unfolding new_manager
still_open = attach-closing no_codec farm luck home "key" (pos 5) start

-- The process shuts down, with the farm open.
abbrev running_farm : Running (λ n. n) no_codec farm "refuse" empty_store joined_farm
running_farm = then_does started (attaches start luck home "key" (pos 5))

abbrev handle : Handle
handle = record { id = 1; key = home; uid = 0 }

-- Its shutdown: the goroutine warns the session, which still ticks, and stops the farm.
abbrev ended : Manager
ended =
    let warned = flush_next no_codec true (begin_shutdown joined_farm) in
    flush_next no_codec true (session_advance farm (pos 9) handle warned).1

ended_all : ShuttingDown (λ n. n) no_codec farm joined_farm 2 ended
ended_all = flushes (meanwhile (flushes begins true) (ticks (pos 9) handle)) true

one_open : 2 * active_saves joined_farm ≤ 2
unfolding active_saves attach new_manager touch_account find load_or_create valid_keys slot_matches
    is_slot_rune is_some_row put decode_state ssh_idlefarmer.Sim.State.new
one_open = omega arith

shutdown_ends_example : Answers ended none
shutdown_ends_example = shutdown_ends (λ n. n) no_codec farm ended_all one_open

shutdown-closes_example :
    Left none ended
    × ((again : AttachLuck) (k : SaveKey) (public_key : String) (now : ℤ)
        → attach no_codec farm again k public_key now ended ≡ (turned_away shutting_down, ended))
shutdown-closes_example =
    shutdown-closes (λ n. n) no_codec farm "refuse" empty_store running_farm still_open ended_all
      (shutdown_ends (λ n. n) no_codec farm ended_all one_open)

settled : {m : Manager} → Answers m none → m.pending ≡ []
settled (flushed e) = e

Running-Emptied_example : active_saves ended ≡ 0
Running-Emptied_example =
    Running-Emptied (λ n. n) no_codec farm "refuse" empty_store
      (ShuttingDown-Running (λ n. n) no_codec farm "refuse" empty_store running_farm still_open
        ended_all)
      (ShuttingDown-work (λ n. n) no_codec farm ended_all).0
      (settled (shutdown_ends (λ n. n) no_codec farm ended_all one_open))

-- The entry of the first session.
abbrev first_entry : Attached
first_entry = record {
  handle = handle;
  away = (tick farm (pos 5) (record { state = new_farm; dirty = false })).0;
  created = true;
}
