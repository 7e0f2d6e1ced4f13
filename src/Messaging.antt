-- ===== src/Messaging.antt =====
-- src/services/messaging.ts and src/services/verification.ts: what leaves the device, and what comes in.
pub mod Store
pub mod Gate
pub mod Confirms
pub mod Receiving
pub mod Sending
pub mod SendingImages
pub mod Resending
pub mod Gated
pub mod Controls
pub mod Redelivery
pub mod AtLeastOnce
pub mod Delivered
pub mod Harmless
pub mod Handshake
pub mod Pairing
pub mod Sent
pub mod Resent
pub mod Statuses
pub mod Outcomes
mod Tests
