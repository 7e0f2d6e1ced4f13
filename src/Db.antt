-- ===== src/Db.antt =====
-- src/db/repos: the tables as lists of rows in the order of insertion, and the queries as functions on
-- them. SQLite itself is not modelled: a query means what its text says.
pub mod Messages
pub mod Pending
pub mod Previews
pub mod Integrity
pub mod Conversations
pub mod Transfers
pub mod Counts
pub mod Newest
pub mod OneEach
pub mod Contacts
mod Tests
