-- ===== src/Games.antt =====
-- apps/games: the rules of the games.
pub mod Snake
