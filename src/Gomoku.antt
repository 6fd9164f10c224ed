-- ===== src/Gomoku.antt =====
-- The game of src/Gomoku.hpp, one module for each part.
pub mod Board
pub mod Scores
pub mod Search
pub mod Rules
pub mod Restoring
pub mod Fives
pub mod Update
pub mod Turns
mod Tests
