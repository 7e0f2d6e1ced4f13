-- ===== src/ChatLock.antt =====
-- src/lock/chat-locks.ts: the lock of a single chat.
pub mod State
pub mod History
pub mod Custody
pub mod Switch
pub mod Passes
pub mod Unsealing
pub mod Readings
pub mod Intact
pub mod Index
pub mod Indexing
pub mod Wiping
pub mod CodeGuesses
pub mod Enabling
pub mod Ready
pub mod RoundTrip
mod Tests
