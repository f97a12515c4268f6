-- ===== src/Common.antt =====
-- src/common: the plain data of the simulator, the roster, and the state that threads share.
pub mod Text
pub mod Types
pub mod SeasonData
pub mod RaceState
pub mod Leaderboard
