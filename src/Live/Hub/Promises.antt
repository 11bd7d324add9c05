-- ===== src/Live/Hub/Promises.antt =====
-- What callers of the hub rely on.
pub mod Streaming
pub mod Index
pub mod Absence
pub mod Codes
pub mod Quiet
pub mod Held
pub mod Unheard
pub mod Ending
pub mod Answers
pub mod Order
