-- ===== src/Room.antt =====
-- The members of a room, src/Room.hpp, one module for each part.
pub mod Members
pub mod Messages
pub mod UnoRoom
pub mod Seats
pub mod UnoTable
pub mod UnoCalls
pub mod UnoStart
pub mod SplendorRoom
pub mod GomokuRoom
pub mod Manager
pub mod Sweeps
pub mod Creation
pub mod Refusals
pub mod Starts
pub mod Visits
mod Tests
mod TableTests
mod RefusalTests
