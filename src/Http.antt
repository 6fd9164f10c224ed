-- ===== src/Http.antt =====
-- The requests of src/HttpServer.hpp, one module for each part.
pub mod Cookie
pub mod Decimal
pub mod Messages
pub mod Origins
pub mod Server
pub mod Sessions
pub mod Others
pub mod Isolation
mod Tests
