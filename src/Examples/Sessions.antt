-- ===== src/Examples/Sessions.antt =====
-- The theorems on the session limits, at a server for two sessions, one of each key.
use ssh_idlefarmer.Prelude.{pos, [], some, arith}
use ssh_idlefarmer.Server.Sessions.{connect, Reachable, Server, next, start, connects}
use ssh_idlefarmer.Server.Invariant.{Inv, Reachable-Inv}
use ssh_idlefarmer.Server.Limits.{new}

abbrev pub idle_server : Server
idle_server = record { limits = new (pos 2) (pos 1); running = [] }

abbrev one_session : Server
one_session = (connect idle_server (some "ada")).1

one_session-Reachable : Reachable (pos 2) (pos 1) one_session
one_session-Reachable = next start (connects idle_server (some "ada"))

Reachable-Inv_example : Inv (pos 2) (pos 1) one_session
Reachable-Inv_example =
    Reachable-Inv (pos 2) (pos 1) (ground arith) (ground arith) one_session-Reachable
