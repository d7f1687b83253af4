-- ===== src/Fuse.antt =====
-- crates/virtio-fs/src: the FUSE messages of the file system device.
pub mod Error
pub mod Flat
pub mod Body
pub mod Opcode
pub mod InHeader
pub mod OutHeader
pub mod Kinds
pub mod Request
pub mod Dispatch
pub mod Dirent
mod Tests
