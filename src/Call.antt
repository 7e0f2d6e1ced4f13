-- ===== src/Call.antt =====
-- The voice call state machine (src/calls).
pub mod Types
pub mod State
pub mod Teardown
pub mod Outgoing
pub mod Incoming
pub mod Media
pub mod Signals
pub mod Ends
pub mod Machine
pub mod Invariant
pub mod Laws
