-- ===== src/Fuse/Body.antt =====
-- crates/virtio-fs/src/body.rs: the bodies of FUSE messages.
pub mod InitIn
pub mod InitOut
pub mod Attr
pub mod EntryOut
pub mod OpenIn
pub mod OpenOut
pub mod ReadIn
pub mod WriteIn
pub mod WriteOut
pub mod FlushIn
pub mod ReleaseIn
pub mod ForgetIn
pub mod GetattrIn
pub mod AttrOut
pub mod SetattrIn
pub mod StatfsOut
pub mod MknodIn
pub mod MkdirIn
pub mod FsyncIn
pub mod RenameIn
pub mod LinkIn
pub mod DirentHeader
