-- ===== src/Tests.antt =====
-- Concrete boards and matches, on which the theorems are applied and the definitions run.
mod Boards
mod Matches
mod Messages
mod Queues
