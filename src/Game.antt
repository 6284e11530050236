-- ===== src/Game.antt =====
-- The game library, libgame: the board, the tanks and the operations of a game instance.
pub mod Types
pub mod Tank
pub mod Grid
pub mod Move
pub mod Occupancy
pub mod Fire
pub mod Placement
pub mod Roster
