-- ===== src/Lib.antt =====
-- Models of rust-nano-vm, a microVM engine, and the theorems about them.
--
-- A guest and the host exchange buffers through virtqueues in the guest's memory. The vsock device
-- carries connections over such queues, and a hypervisor creates, snapshots and forks the VMs. The
-- modules follow the crates:
--
--   Prelude    names of the libraries, Boolean tests, lists under native lengths, and Outcome, what
--              a call comes to: ok, err with the crate's error, or panic (an index or a slice out of
--              range)
--   Words      wrapping_add, wrapping_sub and is_power_of_two at a width
--   Bytes      little-endian integers, reads and writes of slices, structs written field by field;
--              Wire is what a struct of fixed size owes, and the round trips that follow
--   Maps       a HashMap as an association list, with the key's equality as an instance
--   VirtQueue  crates/virtio-queue/src/lib.rs: Desc and Packed are the two descriptor formats, Chain
--              the DescriptorChain iterator, Guest the GuestMemory trait as a record with
--              SliceGuestMemory as its implementation in Guest.Slice, Table the two parsers, Avail
--              and Used the two rings
--   Vsock      crates/virtio-vsock/src: Header is VsockHeader, Endpoint and State are the ids and
--              the states, Connection the state machine of one connection (lib.rs), Reply and Table
--              the ConnectionTable (conn_table.rs), Queue the SplitQueue (queue.rs) over a GuestRam
--              record, Mmio the MmioTransport (mmio.rs) and Device the VsockDevice (device.rs) that
--              is assembled of these, whose process stands in Device.Cycle. Table.Spec is an abstract
--              machine of one pair of endpoints
--   Hypervisor crates/vm-core/src/lib.rs (Types) and crates/vm-mock/src/lib.rs: Mock is
--              MockHypervisor, Path is resolve_guest_path
--   Fuse       crates/virtio-fs/src: Body has a module for each struct of body.rs, Dirent the listing
--              of a directory, Opcode, InHeader and OutHeader are those of lib.rs, Request and
--              Dispatch the two halves of dispatch.rs, Flat is what the structs of integers have in
--              common, and Kinds gathers all structs
--   ControlPlane.WarmPool crates/control-plane/src/warm_pool.rs: WarmPool with one function for each
--              section under its lock, and in Steps the callers, the refill tasks and the drains as a
--              step relation
--   Proto      crates/proto/src/frame.rs: encode_value and decode_value over a record of what
--              serde_json does
--
-- How state is modelled: a method of `&mut self` takes the state and gives it back beside its
-- result. A lock that a method holds from its first look to its last change makes it one step. A
-- function of the source keeps its name; its body on a value that it has found, or its match, is at
-- times a definition of its own, under a name that says what it does. Integers are natural
-- numbers with the wrap of their width written out, and addresses of the split queue wrap at 2 ^ 64,
-- as in a build without overflow checks; predicates such as IsDescriptor say that a field fits its
-- type.
--
-- Bounds and fuel: the iterators are run by a client that takes at most a number of items, and a
-- flag says whether the iterator came to its end; the theorems give the number that is enough. The
-- loop that drains the device's queue from the guest runs on fuel, of which 2 ^ 16 is enough. The
-- process-wide counters of VM and snapshot ids are in the hypervisor's state and wrap at 2 ^ 64; the
-- theorems about fresh ids ask that the calls made do not reach the wrap.
--
-- Not modelled: Debug and Display; the order of a HashMap's iteration, where first_established and
-- the two lists of the hypervisor take the list's order; the host's files and processes behind the
-- hypervisor, where the manifest that a directory holds is a function that the calls are given; the
-- directory that a VM's files live in; what a poisoned lock does. The KVM backend, the network device,
-- the file system's handler on the host, the IPC of the child processes, the rest of the control
-- plane (HTTP, billing, keys, ownership), the guest agent and the command line have no model here.
pub mod Prelude
pub mod Words
pub mod Maps
pub mod Bytes
pub mod VirtQueue
pub mod Vsock
pub mod Hypervisor
pub mod Proto
pub mod ControlPlane
pub mod Fuse
