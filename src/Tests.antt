-- ===== src/Tests.antt =====
-- Runs of the models on small fields and matches.
mod Fields
mod Results
mod Presets
mod Ranks
mod Brackets
mod Rounds
mod Rosters
mod Guests
mod Accounts
