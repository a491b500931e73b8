-- ===== src/Games.antt =====
-- The package games: the players of a match, and the team deathmatch.
pub mod Players
pub mod Ready
pub mod TeamDeathmatch
mod Tests
