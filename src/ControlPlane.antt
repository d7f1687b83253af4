-- ===== src/ControlPlane.antt =====
-- crates/control-plane: the pool of VMs that are restored before a fork asks for one.
pub mod WarmPool
