-- ===== src/VirtQueue.antt =====
-- crates/virtio-queue/src/lib.rs: the split and packed virtqueue primitives that every virtio
-- device shares.
pub mod Error
pub mod Size
pub mod Entry
pub mod Desc
pub mod Chain
pub mod Guest
pub mod Packed
pub mod Table
pub mod Avail
pub mod Used
mod Tests
