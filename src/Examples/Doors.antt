-- ===== src/Examples/Doors.antt =====
-- The theorems on a connection, for a client without a terminal at the server for two sessions, and on a
-- small terminal.
use ssh_idlefarmer.Prelude.{
  lookup_or, lookup, refl, pos, false, true, suc, ◌∷◌, [], some, none, ℕ, ◌≡◌, if◌then◌else◌, ◌==◌,
  arith, ◌&&◌,
}
use ssh_idlefarmer.Examples.Registry.{no_codec, start, luck}
use ssh_idlefarmer.Examples.Sessions.{idle_server}
use ssh_idlefarmer.Examples.Slots.{ascii_lower, ada}
use ssh_idlefarmer.Examples.Farm.{farm}
use ssh_idlefarmer.Server.Sessions.{Reachable}
use ssh_idlefarmer.Server.Limits.{sessions_of}
use ssh_idlefarmer.Server.Chain.{Client, World, Luck, serve, panicked, returned}
use ssh_idlefarmer.Server.Doors.{SameCounts, admits, serve-apart, serve-SameCounts}
use ssh_idlefarmer.Server.Terminal.{write, to_terminal, expected, write-expected}

abbrev chance : Luck no_codec farm ascii_lower (109 ∷ [])
chance = record { attaching = luck; now = pos 5; written = true; again = true }

abbrev headless : Client
headless = record {
  key = some (record { fingerprint = "fp"; marshalled = "key" });
  user = ada;
  pty = none;
}

abbrev at_terminal : Client
at_terminal = record headless { pty = some (pos 80, pos 24) }

abbrev world : World
world = record { limits = idle_server.limits; games = start; sent = []; status = none }

not_admitted : admits no_codec farm ascii_lower (109 ∷ []) chance headless world ≡ false
unfolding ssh_idlefarmer.Server.Limits.new sessions_of lookup_or lookup
not_admitted = refl

serve-apart_example :
    serve no_codec farm ascii_lower (109 ∷ []) chance headless (λ a w. (returned, w)) world
    ≡ serve no_codec farm ascii_lower (109 ∷ []) chance headless (λ a w. (panicked, w)) world
serve-apart_example =
    serve-apart no_codec farm ascii_lower (109 ∷ []) chance headless (λ a w. (returned, w))
      (λ a w. (panicked, w)) world not_admitted

serve-SameCounts_example :
    SameCounts idle_server.limits
      (serve no_codec farm ascii_lower
        (109 ∷ [])
        chance
        at_terminal
        (λ a w. (panicked, w))
        world).1.limits
serve-SameCounts_example =
    serve-SameCounts no_codec farm ascii_lower (109 ∷ []) (pos 2) (pos 1) (ground arith)
      (ground arith) Reachable.start chance at_terminal (λ a w. (panicked, w)) world refl
      (λ a t. refl)

-- The column, the row, and how much of ESC [ B has come.
abbrev Cursor : Type 0
Cursor = (ℕ × ℕ) × ℕ

abbrev down : Cursor → Cursor
down ((column, row), seen) = ((column, suc row), 0)

-- A newline returns to the first column here.
abbrev feed : ℕ → Cursor → Cursor
feed b ((column, row), seen) =
    if b == 27
    then ((column, row), 1)
    else if b == 91 && seen == 1
    then ((column, row), 2)
    else if b == 66 && seen == 2
    then ((column, suc row), 0)
    else if b == 10
    then ((0, suc row), 0)
    else ((suc column, row), 0)

write-expected_example :
    write (to_terminal feed down {E = Unit {0}}) (104 ∷ 10 ∷ 105 ∷ []) ((0, 0), 0)
    ≡ ((3, none), expected feed down (104 ∷ 10 ∷ 105 ∷ []) ((0, 0), 0))
write-expected_example = write-expected feed down (λ t. refl) (104 ∷ 10 ∷ 105 ∷ []) ((0, 0), 0)
