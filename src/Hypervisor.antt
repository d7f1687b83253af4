-- ===== src/Hypervisor.antt =====
-- crates/vm-core and crates/vm-mock: the hypervisor interface and its in-memory backend.
pub mod Types
pub mod Path
pub mod Mock
mod Tests
