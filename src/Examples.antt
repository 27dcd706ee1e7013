-- ===== src/Examples.antt =====
-- Concrete content, saves and sessions, and the theorems at them.
pub mod Farm
pub mod Saves
pub mod Sessions
pub mod Numbers
pub mod Actions
pub mod Slots
pub mod Store
pub mod Wire
pub mod Codec
pub mod Resumed
pub mod Registry
pub mod Tui
pub mod Config
pub mod Format
pub mod Doors
pub mod Panics
