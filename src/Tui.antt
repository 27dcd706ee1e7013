-- ===== src/Tui.antt =====
-- internal/tui: the terminal program of one session, with its texts and rows as values. Layout is left out.
pub mod Model
pub mod Notices
pub mod Keys
pub mod Screens
pub mod Update
pub mod Quiet
pub mod Rule
pub mod Kicked
pub mod Runs
pub mod Choices
pub mod Played
pub mod Tidy
pub mod Unreborn
pub mod Format
pub mod Views
