-- ===== src/Splendor.antt =====
-- The game of src/Splendor.hpp, one module for each part.
pub mod Defs
pub mod Tables
pub mod Setup
pub mod SettingUp
pub mod Seating
pub mod Moves
pub mod Buying
pub mod Sums
pub mod Supply
pub mod Replies
pub mod Payment
pub mod Turns
pub mod TurnMoves
pub mod OneTurn
pub mod Totals
pub mod Limit
pub mod TenMoves
pub mod TenMines
pub mod Covered
pub mod Affording
pub mod Solvent
pub mod CoverMoves
pub mod Solvency
pub mod Game
mod Tests
