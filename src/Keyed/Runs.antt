-- ===== src/Keyed/Runs.antt =====
-- The states that a keyed queue can reach: any calls, in any order, with locks that lapse between
-- them.
pub mod Index
pub mod Keeps
pub mod Within
pub mod Leases
pub mod Keys
pub mod Calls
pub mod Applies
pub mod Steps
pub mod Sound
pub mod Reaching
pub mod Holding
