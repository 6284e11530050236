-- ===== src/Match.antt =====
-- A match on the server, server/match-instance.h and match-instance.cpp: the state, the tasks
-- that run on its strand, and what they keep true.
pub mod Types
pub mod Apply
pub mod Views
pub mod Turns
pub mod Events
pub mod Invariant
pub mod Queue
pub mod Late
pub mod Living
pub mod Claims
pub mod Race
pub mod Twice
pub mod Wreck
pub mod Scrap
