-- ===== src/Store.antt =====
-- internal/store: accounts by key fingerprint, and saves by fingerprint and slot.
pub mod Rows
pub mod Saves
pub mod Slots
pub mod Listed
pub mod Migrations
pub mod Vault
pub mod RoundTrip
