-- ===== src/Game.antt =====
-- internal/game: the intents of a session on the actor that owns a save, and the writes of the save.
pub mod Intents
pub mod Actor
pub mod Saves
pub mod Registry
pub mod Lifecycle
pub mod Effects
pub mod Attaching
pub mod Locks
pub mod Locking
pub mod Exclusive
pub mod Held
pub mod Durable
pub mod Resumed
pub mod Emptied
pub mod Shutdown
pub mod Closing
pub mod Ended
pub mod Accounts
