-- ===== src/Server/Sessions.antt =====
-- internal/server/limits.go: `Middleware`, as steps of a server with many connections. A connection
-- with a key acquires a session and runs, or is turned away; a session that ends releases, as the
-- deferred call does on every way out.
use ssh_idlefarmer.Prelude.{
  none, some, [], ◌∷◌, suc, ◌<◌, Option, List, ℤ, String, if◌then◌else◌, ℕ, str_eq,
}
use ssh_idlefarmer.Server.Limits.{Limits, new, acquire, release}

-- The limits, and the fingerprints of the sessions that run.
pub record Server : Type 0 where
  pub limits : Limits
  pub running : List String

-- How `Middleware` treats a connection.
pub data Verdict : Type 0 where
  served no_key too_many : Verdict

unfoldable pub connect : Server → Option String → Verdict × Server
connect v none = (no_key, v)
connect v (some fingerprint) =
    let (granted, l) = acquire v.limits fingerprint in
    if granted
    then (served, record { limits = l; running = fingerprint ∷ v.running })
    else (too_many, record v { limits = l })

-- The first running session of a key, removed.
unfoldable pub remove_one : String → List String → List String
remove_one k [] = []
remove_one k (j ∷ js) = let rest = remove_one k js in if str_eq j k then js else j ∷ rest

-- How many sessions of a key run.
abbrev pub count_key : String → List String → ℕ
count_key k [] = 0
count_key k (j ∷ js) = let rest = count_key k js in if str_eq j k then suc rest else rest

pub data Step : Server → Server → Type 0 where
  connects : (v : Server) (key : Option String) → Step v (connect v key).1
  disconnects :
      (v : Server) (fingerprint : String)
      → 0 < count_key fingerprint v.running
      → Step v (record {
        limits = release v.limits fingerprint;
        running = remove_one fingerprint v.running;
      })

-- The states of a server started with given limits.
pub data Reachable (max_global max_per_key : ℤ) : Server → Type 0 where
  start :
      Reachable max_global max_per_key
        (record { limits = new max_global max_per_key; running = [] })
  next :
      {v w : Server}
      → Reachable max_global max_per_key v
      → Step v w
      → Reachable max_global max_per_key w
