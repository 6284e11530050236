-- ===== src/Matchmaking.antt =====
-- Matchmaking (src/server/match-maker.cpp and match-strategy.cpp): the queues, and the matches that
-- are made from them.
pub mod Types
pub mod Casual
pub mod Ranked
pub mod Maker
