-- ===== src/Hypervisor/Types.antt =====
-- crates/vm-core/src/lib.rs: the types that every backend and every client share. A `VmId` and a
-- `SnapshotId` are their numbers; strings and paths are lists of bytes.
use rust_nano_vm.Prelude.{ℕ, List, [], Option, none}

abbrev pub Text : Type 0
Text = List ℕ

pub data NetBackendChoice : Type 0 where
  mock smoltcp : NetBackendChoice

pub record VmConfig : Type 0 where
  pub vcpus : ℕ
  pub memory_mib : ℕ
  pub kernel : Option Text
  pub flat_binary : Option (List ℕ)
  pub initrd : Option Text
  pub rootfs : Option Text
  pub cmdline : Text
  pub vsock_cid : Option ℕ
  pub snapshot_dir : Option Text
  pub net_backend : NetBackendChoice

-- `VmConfig::default`
abbrev pub default_config : VmConfig
default_config = record {
  vcpus = 1;
  memory_mib = 128;
  kernel = none;
  flat_binary = none;
  initrd = none;
  rootfs = none;
  cmdline = [];
  vsock_cid = none;
  snapshot_dir = none;
  net_backend = mock;
}

pub data VmState : Type 0 where
  created running stopped : VmState

pub record VmHandle : Type 0 where
  pub id : ℕ
  pub state : VmState

-- The messages of `VmError::Backend`, with what they format.
pub data Message : Type 0 where
  manifest_unreadable : (cause : Text) → Message
  adopt_unreadable : (dir cause : Text) → Message
  path_not_absolute : (guest_path : Text) → Message
  path_escapes : (guest_path : Text) → Message

pub data VmError : Type 0 where
  unsupported : (what : Text) → VmError
  unknown_vm : (id : ℕ) → VmError
  unknown_snapshot : (id : ℕ) → VmError
  invalid_transition : (id : ℕ) (from to : VmState) → VmError
  backend : Message → VmError

pub record VmMeta : Type 0 where
  pub id : ℕ
  pub state : VmState
  pub vcpus : ℕ
  pub memory_mib : ℕ
  pub kernel_cmdline : Text
  pub snapshot_dir : Option Text

pub record SnapshotMeta : Type 0 where
  pub id : ℕ
  pub vcpu_count : ℕ
  pub memory_bytes : ℕ
  pub page_size : ℕ
  pub kernel_cmdline : Text
