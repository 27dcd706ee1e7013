-- ===== src/Identity.antt =====
-- internal/identity/identity.go: the save slots that SSH user names stand for. The fingerprint of a key
-- is a library's hash.
pub mod Slots
pub mod Sanitized
