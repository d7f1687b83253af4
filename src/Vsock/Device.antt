-- ===== src/Vsock/Device.antt =====
-- crates/virtio-vsock/src/device.rs: the assembled device. A method of `&mut self` gives the device
-- back beside its result, and one that changes the guest's memory the memory too; what is left of
-- the memory where it fails is not kept track of.
pub mod Cycle
pub mod Calls
pub mod Guest
pub mod Terminates
pub mod Flushing
pub mod Interrupt
pub mod Invariant
use rust_nano_vm.Prelude.{
  ℕ, ◌+◌, ◌^◌, Bool, true, false, Option, none, some, List, [], ◌∷◌, ◌++◌, length, leb, ◌==◌,
  if◌then◌else◌, Outcome, ok, err, ◌>>=◌,
}
use rust_nano_vm.Bytes.Buffer.{slice}
use rust_nano_vm.Vsock.Header.{VsockHeader, vsock_hdr_len, from_bytes}
use rust_nano_vm.Vsock.Endpoint.{ConnectionId}
use rust_nano_vm.Vsock.Reply.{Reply, deliver_payload, TableConfig}
use rust_nano_vm.Vsock.Table.{ConnectionTable, dispatch, prepare_data, first_established}
use rust_nano_vm.Vsock.Table
use rust_nano_vm.Vsock.Queue.{QueueError, QueueConfig, SplitQueue}
use rust_nano_vm.Vsock.Queue
use rust_nano_vm.Vsock.Mmio.{MmioTransport, new_vsock, take_notify}
use rust_nano_vm.Vsock.Mmio

abbrev rx_queue : ℕ
rx_queue = 0

abbrev tx_queue : ℕ
tx_queue = 1

pub record OutPacket : Type 0 where
  pub header : VsockHeader
  pub payload : List ℕ

pub record VsockDevice : Type 0 where
  pub transport : MmioTransport
  pub table : ConnectionTable
  pub rx : Option SplitQueue
  pub tx : Option SplitQueue
  pub outbound : List OutPacket
  pub inbound : List (ConnectionId × List ℕ)
  pub guest_cid : ℕ

unfoldable pub new : ℕ → TableConfig → VsockDevice
new guest_cid cfg = record {
  transport = new_vsock guest_cid;
  table = Table.new cfg;
  rx = none;
  tx = none;
  outbound = [];
  inbound = [];
  guest_cid = guest_cid;
}

unfoldable pub mmio_read : VsockDevice → ℕ → ℕ → ℕ
mmio_read dev offset size = Mmio.read dev.transport offset size

unfoldable pub mmio_write : VsockDevice → ℕ → ℕ → ℕ → VsockDevice × Option ℕ
mmio_write dev offset size value =
    let (transport, notify) = take_notify (Mmio.write dev.transport offset size value) in
    (record dev { transport = transport }, notify)

unfoldable pub interrupt_asserted : VsockDevice → Bool
interrupt_asserted dev = Mmio.interrupt_asserted dev.transport

unfoldable pub listen : VsockDevice → ℕ → VsockDevice × Bool
listen dev port =
    let (table, added) = Table.listen dev.table port in (record dev { table = table }, added)

unfoldable pub unlisten : VsockDevice → ℕ → VsockDevice × Bool
unlisten dev port =
    let (table, removed) = Table.unlisten dev.table port in (record dev { table = table }, removed)

abbrev pub push_back {ℓ} : {A : Type ℓ} → List A → A → List A
push_back xs x = xs ++ (x ∷ [])

-- `send` on what `prepare_data` gives.
abbrev queued : VsockDevice → List ℕ → Option VsockHeader → VsockDevice × Bool
queued dev payload none = (dev, false)
queued dev payload (some header) = (
  record dev { outbound = push_back dev.outbound (record { header = header; payload = payload }) },
  true,
)

unfoldable pub send : VsockDevice → ConnectionId → List ℕ → VsockDevice × Bool
send dev id payload =
    if leb (2 ^ 32) (length payload)
    then (dev, false)
    else let (table, prepared) = prepare_data dev.table id (length payload) in
      queued (record dev { table = table }) payload prepared

abbrev pub pop_front {ℓ} : {A : Type ℓ} → List A → List A × Option A
pop_front [] = ([], none)
pop_front (x ∷ xs) = (xs, some x)

unfoldable pub recv : VsockDevice → VsockDevice × Option (ConnectionId × List ℕ)
recv dev = let (inbound, front) = pop_front dev.inbound in (record dev { inbound = inbound }, front)

unfoldable pub established_connection : VsockDevice → Option ConnectionId
established_connection dev = first_established dev.table

unfoldable pub pending_outbound : VsockDevice → ℕ
pending_outbound dev = length dev.outbound

-- A queue that is there stays; one that is not is made once its configuration is ready.
abbrev built : Option QueueConfig → Option SplitQueue → Option SplitQueue
built cfg (some q) = some q
built none none = none
built (some cfg) none = Queue.new cfg

unfoldable pub sync_queues : VsockDevice → VsockDevice
sync_queues dev =
    if dev.transport.status == 0
    then record dev { rx = none; tx = none; outbound = []; inbound = [] }
    else record dev {
      rx = built (Mmio.queue dev.transport rx_queue) dev.rx;
      tx = built (Mmio.queue dev.transport tx_queue) dev.tx;
    }

unfoldable pub payload_of : List ℕ → ℕ → List ℕ
payload_of raw bytes =
    if leb (vsock_hdr_len + bytes) (length raw) then slice vsock_hdr_len bytes raw else []

unfoldable pub answer : VsockDevice → List ℕ → Reply → VsockDevice
answer dev raw (Reply.send header) = record dev {
  outbound = push_back dev.outbound (record { header = header; payload = [] });
}
answer dev raw (deliver_payload conn_id bytes) = record dev {
  inbound = push_back dev.inbound (conn_id, payload_of raw bytes);
}
answer dev raw Reply.none = dev

unfoldable pub handle_header : VsockDevice → List ℕ → VsockHeader → VsockDevice
handle_header dev raw hdr =
    let (table, reply) = dispatch dev.table hdr in answer (record dev { table = table }) raw reply

-- A header that does not parse is dropped.
unfoldable pub handle_guest_packet : VsockDevice → List ℕ → Outcome QueueError VsockDevice
handle_guest_packet dev raw = elim (from_bytes raw) [
  | ok hdr ↦ ok (handle_header dev raw hdr)
  | err e ↦ ok dev
  | Outcome.panic ↦ Outcome.panic
]
