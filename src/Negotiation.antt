-- ===== src/Negotiation.antt =====
-- src/services/messaging.ts: the request and accept flows of retention and screenshot protection.
pub mod State
pub mod Retention
pub mod Screenshot
pub mod Agreement
pub mod Protection
mod Tests
