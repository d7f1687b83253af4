-- ===== src/Hypervisor/Mock.antt =====
-- crates/vm-mock/src/lib.rs: the in-memory hypervisor. Its methods hold one lock from their first
-- look at the maps to their last change, so each is a step on the state, which it gives back
-- beside its result. The counters of `VmId::next` and `SnapshotId::next` are part of the state.
pub mod Lifecycle
pub mod Fork
use rust_nano_vm.Prelude.{
  ℕ, ◌+◌, ◌*◌, ◌-◌, ◌/◌, ◌^◌, ◌%◌, min, Option, none, some, List, [], map, Outcome, ok, err, Bool,
  true, false, not, length, if◌then◌else◌, ◌==◌,
}
use rust_nano_vm.Words.{wrapping_add}
use rust_nano_vm.Maps.{Map, nat_key, get, insert, remove, is_some}
use rust_nano_vm.Hypervisor.Types.{
  Text, VmConfig, default_config, VmState, created, running, stopped, VmHandle, VmError, backend,
  unknown_vm, unknown_snapshot, invalid_transition, manifest_unreadable, adopt_unreadable, VmMeta,
  SnapshotMeta,
}

-- The directory a VM's files live in on the host is a function of its id.
pub record MockVm : Type 0 where
  pub config : VmConfig
  pub state : VmState

pub record MockSnapshot : Type 0 where
  pub config : VmConfig
  pub state : VmState

pub record MockHypervisor : Type 0 where
  pub vms : Map ℕ MockVm
  pub snapshots : Map ℕ MockSnapshot
  pub next_vm : ℕ
  pub next_snapshot : ℕ

-- What a snapshot's directory says of it, or why it could not be read.
pub record Manifest : Type 0 where
  pub vcpu_count : ℕ
  pub memory_bytes : ℕ
  pub kernel_cmdline : Text

abbrev pub Manifests : Type 0
Manifests = Text → Outcome Text Manifest

-- What a method of the hypervisor comes to.
abbrev pub Answered : Type 0 → Type 0
Answered A = MockHypervisor × Outcome VmError A

unfoldable pub new : ℕ → ℕ → MockHypervisor
new vm snapshot = record { vms = []; snapshots = []; next_vm = vm; next_snapshot = snapshot }

-- A new VM under the next id, which is an atomic counter that wraps.
unfoldable pub add_vm : MockHypervisor → VmConfig → VmState → Answered VmHandle
add_vm h config state =
    let id = h.next_vm in
    (
      record h {
        vms = insert id (record { config = config; state = state }) h.vms;
        next_vm = wrapping_add 64 id 1;
      },
      ok (record { id = id; state = state }),
    )

unfoldable pub add_snapshot : MockHypervisor → VmConfig → VmState → Answered ℕ
add_snapshot h config state =
    let id = h.next_snapshot in
    (
      record h {
        snapshots = insert id (record { config = config; state = state }) h.snapshots;
        next_snapshot = wrapping_add 64 id 1;
      },
      ok id,
    )

-- The manifest of a snapshot to boot from is authoritative.
unfoldable pub create_vm_from :
    MockHypervisor → VmConfig → Outcome Text Manifest → Answered VmHandle
create_vm_from h cfg (ok manifest) =
    add_vm h
      (record cfg {
        vcpus = manifest.vcpu_count;
        memory_mib = manifest.memory_bytes / (1024 * 1024);
        cmdline = manifest.kernel_cmdline;
      })
      created
create_vm_from h cfg (err cause) = (h, err (backend (manifest_unreadable cause)))
create_vm_from h cfg Outcome.panic = (h, Outcome.panic)

unfoldable pub create_vm : Manifests → MockHypervisor → VmConfig → Answered VmHandle
create_vm manifests h cfg = elim cfg.snapshot_dir [
  | none ↦ add_vm h cfg created
  | some dir ↦ create_vm_from h cfg (manifests dir)
]

-- `get_mut`, a check of the state, and an assignment to it.
abbrev pub set_state : MockHypervisor → ℕ → MockVm → VmState → MockHypervisor
set_state h id vm state = record h { vms = insert id (record vm { state = state }) h.vms }

unfoldable pub start_vm : MockHypervisor → ℕ → MockVm → VmState → Answered (Unit {0})
start_vm h id vm running = (h, err (invalid_transition id running running))
start_vm h id vm _ = (set_state h id vm running, ok tt)

unfoldable pub start : MockHypervisor → ℕ → Answered (Unit {0})
start h id = elim (get id h.vms) [
  | none ↦ (h, err (unknown_vm id))
  | some vm ↦ start_vm h id vm vm.state
]

unfoldable pub stop_vm : MockHypervisor → ℕ → MockVm → VmState → Answered (Unit {0})
stop_vm h id vm running = (set_state h id vm stopped, ok tt)
stop_vm h id vm other = (h, err (invalid_transition id other stopped))

unfoldable pub stop : MockHypervisor → ℕ → Answered (Unit {0})
stop h id = elim (get id h.vms) [
  | none ↦ (h, err (unknown_vm id))
  | some vm ↦ stop_vm h id vm vm.state
]

unfoldable pub state : MockHypervisor → ℕ → Outcome VmError VmState
state h id = elim (get id h.vms) [ none ↦ err (unknown_vm id) | some vm ↦ ok vm.state ]

unfoldable pub snapshot : MockHypervisor → ℕ → Answered ℕ
snapshot h id = elim (get id h.vms) [
  | none ↦ (h, err (unknown_vm id))
  | some vm ↦ add_snapshot h vm.config vm.state
]

unfoldable pub restore : MockHypervisor → ℕ → Answered VmHandle
restore h snap = elim (get snap h.snapshots) [
  | none ↦ (h, err (unknown_snapshot snap))
  | some s ↦ add_vm h s.config s.state
]

unfoldable pub destroy : MockHypervisor → ℕ → Answered (Unit {0})
destroy h id = elim (get id h.vms) [
  | none ↦ (h, err (unknown_vm id))
  | some vm ↦ (record h { vms = remove id h.vms }, ok tt)
]

-- In an order that the source leaves open.
unfoldable pub list_vms : MockHypervisor → List VmHandle
list_vms h = map (λ e. record { id = e.0; state = e.1.state }) h.vms

unfoldable pub list_snapshots : MockHypervisor → List ℕ
list_snapshots h = map (λ e. e.0) h.snapshots

unfoldable pub delete_snapshot : MockHypervisor → ℕ → Answered (Unit {0})
delete_snapshot h snap = elim (get snap h.snapshots) [
  | none ↦ (h, err (unknown_snapshot snap))
  | some s ↦ (record h { snapshots = remove snap h.snapshots }, ok tt)
]

unfoldable pub vm_meta : MockHypervisor → ℕ → Outcome VmError VmMeta
vm_meta h id = elim (get id h.vms) [
  | none ↦ err (unknown_vm id)
  | some vm ↦ ok (record {
    id = id;
    state = vm.state;
    vcpus = vm.config.vcpus;
    memory_mib = vm.config.memory_mib;
    kernel_cmdline = vm.config.cmdline;
    snapshot_dir = vm.config.snapshot_dir;
  })
]

-- `saturating_mul`
abbrev pub mib_bytes : ℕ → ℕ
mib_bytes mib = min (mib * (1024 * 1024)) (2 ^ 64 - 1)

unfoldable pub snapshot_meta : MockHypervisor → ℕ → Outcome VmError SnapshotMeta
snapshot_meta h snap = elim (get snap h.snapshots) [
  | none ↦ err (unknown_snapshot snap)
  | some s ↦ ok (record {
    id = snap;
    vcpu_count = s.config.vcpus;
    memory_bytes = mib_bytes s.config.memory_mib;
    page_size = 4096;
    kernel_cmdline = s.config.cmdline;
  })
]

-- `div_ceil(1024 * 1024).max(1)`
abbrev pub whole_mib : ℕ → ℕ
whole_mib bytes =
    let mib = (bytes + (1024 * 1024 - 1)) / (1024 * 1024) in if mib == 0 then 1 else mib

unfoldable pub adopt_manifest : MockHypervisor → Text → Outcome Text Manifest → Answered ℕ
adopt_manifest h dir (ok manifest) =
    add_snapshot h
      (record default_config {
        vcpus = manifest.vcpu_count;
        memory_mib = whole_mib manifest.memory_bytes;
        cmdline = manifest.kernel_cmdline;
      })
      running
adopt_manifest h dir (err cause) = (h, err (backend (adopt_unreadable dir cause)))
adopt_manifest h dir Outcome.panic = (h, Outcome.panic)

unfoldable pub snapshot_adopt : Manifests → MockHypervisor → Text → Answered ℕ
snapshot_adopt manifests h dir = adopt_manifest h dir (manifests dir)

-- The check that `exec_in_guest`, `exec_in_guest_stream`, `write_file` and `read_file` begin with.
unfoldable pub check_running : MockHypervisor → ℕ → Outcome VmError (Unit {0})
check_running h id = elim (get id h.vms) [
  | none ↦ err (unknown_vm id)
  | some vm ↦ running_only id vm.state
]
  where
    running_only : ℕ → VmState → Outcome VmError (Unit {0})
    running_only id running = ok tt
    running_only id other = err (invalid_transition id other running)
