-- ===== src/Content.antt =====
-- internal/content/content.go: the game definitions, and the lookups by id.
-- The types stand in Content/Types, the checks of a loaded file in Content/Validate.
mod Types
mod Index
pub mod Validate
pub mod Validated
pub mod Bounds
pub use Types.*
unfoldable pub use Index.*
