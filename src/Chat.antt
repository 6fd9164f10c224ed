-- ===== src/Chat.antt =====
-- The chat history of src/ChatHistory.hpp, one module for each part.
pub mod Table
pub mod History
pub mod Index
pub mod Found
pub mod Ids
pub mod Shown
pub mod Log
pub mod Samples
mod Tests
