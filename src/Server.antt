-- ===== src/Server.antt =====
-- internal/server: the limits on concurrent sessions, the way of a connection through the middlewares, the
-- shutdown hooks, and the writer of the terminal program.
pub mod Limits
pub mod Sessions
pub mod Invariant
pub mod Chain
pub mod Doors
pub mod Shutdown
pub mod Terminal
