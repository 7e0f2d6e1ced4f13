-- ===== src/Relay.antt =====
-- src/transport/relay.ts: the client of the relay.
pub mod State
pub mod Requests
pub mod Queue
pub mod Connection
pub mod Handshake
pub mod Machine
pub mod Flights
pub mod Serving
pub mod Flushing
pub mod Replies
pub mod Serial
pub mod Fifo
pub mod Overlap
pub mod Backoff
mod Tests
