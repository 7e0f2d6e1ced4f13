-- ===== src/Images.antt =====
-- src/services/image-codec.ts and the image branches of src/services/messaging.ts.
pub mod Codec
pub mod Receive
pub mod Splitting
pub mod Receiving
pub mod Again
mod Tests
