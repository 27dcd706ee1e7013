-- ===== src/Lib.antt =====
-- ssh-idlefarmer is an idle farming game that is played over SSH. A player's key names an account, an
-- account has saves, and each save is owned by one goroutine that runs the game engine on it. The
-- engine is a set of functions of a save, the content and a timestamp; it reads no clock and draws
-- its random numbers from a seed within the save.
--
-- The parts, and the files that model them:
--   internal/content/content.go   Content/Types: the structs of the content files.
--                                 Content/Index: buildIndexes and the lookups by id.
--                                 Content/Validate: validate, requireID and validateUnlock; what it
--                                 guarantees stands in Content/Validated and Content/Bounds.
--   internal/sim/state.go         Sim/State: State, New, upgradeState, DecodeState, satAdd, satMul,
--                                 credit and the random stream.
--   internal/sim/derive.go        Sim/Unlocks: Unlocked, the mercy rule's search, indexing of plots.
--                                 Sim/Bonus: bonuses, growing times, sale values, the moon, progress.
--                                 Sim/Prices: every price, isqrt and PrestigeGain.
--   internal/sim/actions.go       Sim/Outcome: errors and results. Sim/Field: Plant and Harvest.
--                                 Sim/Shop: the purchases. Sim/Gifts: the parcel, critters, the
--                                 name, the flavor switch and Rebirth.
--   internal/sim/advance.go       Sim/Events: Events and the away lines. Sim/Arrivals: gifts, events,
--                                 critters and achievements. Sim/Payout: the payout of a harvest.
--                                 Sim/Advance: Advance itself.
--   internal/server/limits.go     Server/Limits: SessionLimits. Server/Sessions: Middleware, as steps
--                                 of a server with the sessions that run.
--   internal/server               Server/Chain: the middlewares that New chains, attachSave, RequirePTY
--                                 and teaHandler (server.go, pty.go). Server/Terminal:
--                                 cursorDownWriter (teaprogram.go). Server/Shutdown: the hooks
--                                 (shutdown.go) and the end of main (cmd/ssh-idlefarmer/main.go).
--   internal/game/session.go      Game/Intents: the methods of Session as values.
--   internal/game/actor.go        Game/Actor: the tick, intent and persist. Game/Saves: the saves that
--                                 can be reached.
--   internal/game/manager.go      Game/Registry: the manager with its actors and sessions.
--                                 Game/Lifecycle: its steps, and the states of a process.
--                                 Game/Closing: a call of Shutdown, with what happens while it runs.
--                                 Game/Locks: the locks that a registry stands for.
--                                 Game/Durable: an open save together with its row in the
--                                 store.
--   internal/store/store.go       Store/Rows and Store/Saves: the tables, TouchAccount,
--                                 LoadOrCreateSave and PersistSave. Store/Slots: ListSlots.
--                                 Store/Vault: the map of payloads that the tables stand for.
--   internal/store/migrations.go  Store/Migrations: the schema and migrate.
--   internal/identity/identity.go Identity/Slots: SanitizeSlot and ResolveSlot; FromSession is in
--                                 Server/Chain.
--   internal/tui/game.go          Tui/Model: Game and its notices. Tui/Notices: applyAction and the
--                                 notices of events. Tui/Keys and Tui/Screens: the keys.
--                                 Tui/Update: Update. The farm's columns (views.go, layout.go) are
--                                 in Tui/Keys. Tui/Rule: a rule for predicates on the
--                                 screens of a session.
--   internal/tui/format.go        Tui/Format: the texts of the views.
--   internal/tui/views.go         Tui/Views: what View changes, and its rows of offers.
--   internal/config/config.go     Config/Load: Config, Load and the readers of the environment.
-- The other files of these folders hold proofs; Examples holds concrete inputs.
--
-- How they interact: Session runs an intent on the actor's goroutine, which first advances the save
-- to the time of the intent, then applies the action, then checks the achievements
-- (Game/Actor.intent). Advance and the actions call the prices, bonuses and payouts, and those look
-- the content up. The manager keeps an actor for each open save: Attach loads the save from the
-- store and advances it to now, and a detach, the autosave and Shutdown write it back. A connection
-- passes the caps, the terminal's test and Attach before its UI runs (Server/Chain.serve); the UI
-- sends intents and ticks to the session, and keeps the snapshot that comes back. At the end of the
-- process the hook of the manager runs before the server stops.
--
-- Numbers: Go's int64 and int are integers in a signed form over the native numbers, and each operation
-- wraps around at 64 bits (Prelude/Int64); uint64 is a native number (Prelude/Word64). A division by
-- zero panics in Go. The divisors are constants, guarded, or checked by validate, but for one:
-- sellMultiplied divides by 100 and the sell bonus, which validate does not bound. There
-- Sim/Bonus.apply_bonus has no result, and Sim/Field.call_harvest is a Harvest that panics; where a
-- sale panics elsewhere, the process ends, and the states that the model still computes are beyond
-- those that the program reaches. The remainder in rollRange is by the length of a range, which is 0
-- for the whole range of int64 alone; only the rewards of a critter, which validate does not check,
-- could be that range. A map is an association list, and a nil map is an empty one. Code mutates a save
-- in place; here a function returns the new save, the random stream included, after an error too. A
-- farm name and a slot are lists of code points.
--
-- Parameters: math.Sqrt is a function that may return any number, and so is the lower case of a rune.
-- The JSON codec of a save, and whether a statement succeeds that the store sends to SQLite, are
-- arguments; a statement that fails changes nothing. So the foreign key of the saves is no more than a
-- reason for which an INSERT may fail. unicode.IsPrint and how far the help scrolls are given. What the
-- UI of a connection does to the manager is an argument of its handler, and what a terminal does with a
-- byte is one of Server/Terminal. The TOML library's result is the content. The environment, the
-- parsers of numbers and durations and the tests on float64 are a record of functions
-- (Config/Load.Host).
--
-- Fuel: the loop over the harvest cycles of a plot runs on fuel autoCycleCap + 2, which is enough: each
-- round counts a cycle up to the cap, and a round past it either stops or moves the time of maturity
-- behind the end. The search of isqrt for a greater root runs on fuel equal to its argument. The digits
-- of a number take 20 rounds, which is enough below 10 ^ 20. The goroutine of Shutdown has no fuel: its
-- steps are those of a relation (Game/Closing.ShuttingDown), which counts them.
--
-- Not modelled: opening the database file, timeouts but for that of Shutdown, the fingerprints of keys,
-- the set-up of the SSH server and of the terminal program, the rate limiter, the texts and the layout
-- of the screens, logging and start-up. The texts of errors are left out, and what Session's methods
-- return beyond the error and the achievements; the terminal program takes that from the actions
-- themselves, and its notices are values that hold what their texts are filled with. Where
-- awayVignettes and validate iterate over a map, whose order Go leaves open, one order is taken, and
-- the name of the missing archetype is left open.
pub mod Prelude
pub mod Content
pub mod Sim
pub mod Server
pub mod Game
pub mod Identity
pub mod Store
pub mod Config
pub mod Tui
pub mod Examples
