-- ===== src/Ws.antt =====
-- The WebSocket server of src/WsServer.hpp, one module for each part.
pub mod Maps
pub mod Messages
pub mod Process
pub mod Queues
pub mod Order
pub mod Links
pub mod Coming
pub mod Going
pub mod Counting
pub mod Sending
pub mod Whispers
mod Tests
