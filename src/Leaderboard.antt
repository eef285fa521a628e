-- ===== src/Leaderboard.antt =====
-- src/leaderboard/leaderboard.service.ts.
pub mod Records
pub mod Standings
pub mod Opponents
pub mod Board
