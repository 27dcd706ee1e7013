-- ===== src/Sim.antt =====
-- internal/sim: the game engine. Each transition is a function of the state and of the timestamps
-- that it is given; the random stream is part of the state.
pub mod Frame
pub mod State
pub mod Unlocks
pub mod Bonus
pub mod Prices
pub mod Payout
pub mod Outcome
pub mod Field
pub mod Shop
pub mod Gifts
pub mod Events
pub mod Arrivals
pub mod Advance
pub mod Money
pub mod Roots
pub mod Solvent
pub mod Cycles
pub mod Refusals
pub mod Clock
pub mod Rolls
pub mod Moon
pub mod PriceGrowth
pub mod Milestones
pub mod Enough
pub mod Mercy
pub mod Harvests
pub mod Versions
pub mod Levels
pub mod Reborn
