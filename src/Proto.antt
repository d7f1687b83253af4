-- ===== src/Proto.antt =====
-- crates/proto: the frames that the host and the guest agent exchange.
pub mod Frame
mod Tests
