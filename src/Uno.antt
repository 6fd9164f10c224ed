-- ===== src/Uno.antt =====
-- The UNO game of src/Uno.hpp, one module for each part.
pub mod Card
pub mod State
pub mod Rules
pub mod Conservation
pub mod Moves
pub mod Turn
pub mod Drawing
pub mod Laying
pub mod TurnOrder
pub mod Start
pub mod Opening
pub mod Following
pub mod Suspicion
pub mod Seats
pub mod Game
mod Tests
