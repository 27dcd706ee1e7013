-- ===== src/Sim/Solvent.antt =====
-- No action and no passage of time takes a balance below zero: the balances themselves, prices and
-- payouts, the player's actions, the simulation, and every save that can be reached.
pub mod Balances
pub mod Prices
pub mod Payouts
pub mod Actions
pub mod Fortunes
pub mod Time
