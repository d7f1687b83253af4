-- ===== src/Vsock.antt =====
-- crates/virtio-vsock: the packet header, the connection state machine and the connection table.
pub mod Header
pub mod Endpoint
pub mod State
pub mod Connection
pub mod Reply
pub mod Table
pub mod Queue
pub mod Mmio
pub mod Device
mod Tests
