-- ===== src/Call/Laws.antt =====
-- What the call controller of src/calls/controller.ts promises: one child for each promise.
pub mod Told
pub mod Offers
pub mod Glare
pub mod Rest
pub mod Telling
pub mod Locking
pub mod Superseded
pub mod Tests
