-- ===== src/Accounts.antt =====
-- The accounts of src/Authorizer.hpp, one module for each part.
pub mod Tables
pub mod Users
pub mod Friends
pub mod Icons
pub mod Unread
pub mod Sessions
pub mod Names
pub mod Friendship
pub mod Counters
pub mod Samples
mod Tests
