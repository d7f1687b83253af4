-- ===== src/Vsock/Tests/Devices.antt =====
-- The vsock device and its registers at concrete inputs.
use rust_nano_vm.Prelude.{
  ℕ, zero, ◌+◌, ◌^◌, ◌≡◌, refl, sym, subst, ◌⊎◌, inl, inr, arith, Bool, true, false, ◌&&◌, some,
  List, [], ◌∷◌, ◌++◌, take, drop, length, All, ltb, ltb→lt, leb, leb→le, if◌then◌else◌, Bool-cases,
  Outcome, ok, err, ◌>>=◌, bind-Succeeded,
}
use rust_nano_vm.Bytes.Endian.{IsByte, to_le}
use rust_nano_vm.Bytes.Buffer.{length-slice}
use rust_nano_vm.Vsock.Header.{VsockHeader, VsockOp, from_bytes, to_bytes, stream}
use rust_nano_vm.Vsock.Endpoint.{ConnectionId, incoming}
use rust_nano_vm.Vsock.Reply.{default_config}
use rust_nano_vm.Vsock.Table.{ConnectionTable, dispatch, is_listening}
use rust_nano_vm.Vsock.Table
use rust_nano_vm.Vsock.Queue.{QueueError, out_of_bounds, QueueConfig, GuestRam}
use rust_nano_vm.Vsock.Queue.Stores.{IsRam}
use rust_nano_vm.Vsock.Mmio.{MmioTransport, new_vsock, read, write}
use rust_nano_vm.Vsock.Mmio
use rust_nano_vm.Vsock.Mmio.Shape.{IsTransport, new_vsock-IsTransport}
use rust_nano_vm.Vsock.Mmio.Programming.{set_up, set_up_lem, write_status_lem}
use rust_nano_vm.Vsock.Mmio.Programming
use rust_nano_vm.Vsock.Device.{
  VsockDevice, OutPacket, new, interrupt_asserted, handle_guest_packet, sync_queues,
}
use rust_nano_vm.Vsock.Device.Cycle.{drain_tx, flush_rx, flush_loop, Completed, process}
use rust_nano_vm.Vsock.Device.Guest.{to_guest, to_host, handle_guest_packet_lem}
use rust_nano_vm.Vsock.Table.Spec.{react, view}
use rust_nano_vm.Vsock.Table.Shapes.{Reacted}
use rust_nano_vm.Vsock.Table.Sending
use rust_nano_vm.Vsock.Table.Sending.{Event, happens-IsTable}
use rust_nano_vm.Vsock.Tests.Packets.{call_in}
use rust_nano_vm.Vsock.Device.Terminates.{GivesBytes, process_ends}
use rust_nano_vm.Vsock.Device.Flushing.{Flushed, flush_loop-Flushed}
use rust_nano_vm.Vsock.Device.Invariant.{starts, cycles, happens, happens-IsDevice}
use rust_nano_vm.Vsock.Device.Calls.{IsDevice}
use rust_nano_vm.Vsock.Device.Interrupt.{process_lem}
use rust_nano_vm.Vsock.Tests.Queues.{flat_read, flat_write, flat, flat-IsRam, memory, queue}

abbrev transport : MmioTransport
transport = new_vsock 3

transport-IsTransport : IsTransport transport
transport-IsTransport = new_vsock-IsTransport 3

abbrev rings : QueueConfig
rings = record { size = 2; ready = true; desc = 2 ^ 32 + 7; driver = 32; device = 40 }

set_up_lem_example :
    (Mmio.queue (Programming.writes transport (set_up 1 rings)) 1 ≡ some rings)
    × ((j : ℕ)
        → (j ≡ 1)
          ⊎ (Mmio.queue (Programming.writes transport (set_up 1 rings)) j ≡ Mmio.queue transport j))
    × ((Programming.writes transport (set_up 1 rings)).status ≡ transport.status)
set_up_lem_example =
    set_up_lem transport 1 rings transport-IsTransport (omega arith)
      (omega arith, omega arith, omega arith, omega arith) refl

write_status_lem_example :
    ((¬ (zero ≡ 0)) × (write transport 0x070 4 0 ≡ record transport { status = 0 }))
    ⊎ ((zero ≡ 0)
        × (write transport 0x070 4 0 ≡ record (new_vsock 9) {
          config = transport.config;
          config_generation = transport.config_generation;
        }))
write_status_lem_example = write_status_lem transport 4 0 9 transport-IsTransport (omega arith)

config_size : length transport.config ≡ 8
unfolding new_vsock
config_size = refl

-- A memory of bytes: it is read and written where it has them.
unfoldable all_bytes : List ℕ → Bool
all_bytes [] = true
all_bytes (b ∷ bs) = ltb b 256 && all_bytes bs

bytes_only : List ℕ → Outcome QueueError (List ℕ)
bytes_only bs = if all_bytes bs then ok bs else err (out_of_bounds 0 0)

byte_read : List ℕ → ℕ → ℕ → Outcome QueueError (List ℕ)
byte_read m gpa n = flat_read m gpa n >>= bytes_only

byte_write : List ℕ → ℕ → List ℕ → Outcome QueueError (List ℕ)
byte_write m gpa src = bytes_only src >>= flat_write m gpa

abbrev byte_ram : GuestRam
byte_ram = record { Mem = List ℕ; read_at = byte_read; write_at = byte_write }

all_bytes-All : (bs : List ℕ) → all_bytes bs ≡ true → All IsByte bs
unfolding all_bytes
all_bytes-All [] h = tt
all_bytes-All (b ∷ bs) h = elim (Bool-cases (ltb b 256)) [
  | inl e ↦ (ltb→lt b 256 e, all_bytes-All bs (rw e at h))
  | inr e ↦ absurd (cc (rw e at h))
]

bytes_only_lem : (bs out : List ℕ) → bytes_only bs ≡ ok out → (all_bytes bs ≡ true) × (bs ≡ out)
unfolding bytes_only
bytes_only_lem bs out h = elim (Bool-cases (all_bytes bs)) [
  | inl e ↦ (e, cc (rw e at h))
  | inr e ↦ absurd (cc (rw e at h))
]

flat_read-length :
    (m : List ℕ) (gpa n : ℕ) (bs : List ℕ) → flat_read m gpa n ≡ ok bs → length bs ≡ n
unfolding flat_read
flat_read-length m gpa n bs h = elim (Bool-cases (leb (gpa + n) (length m))) [
  | inl e ↦
      subst (λ (bs : List ℕ). length bs ≡ n) (cc (rw e at h)) (length-slice gpa n m (leb→le _ _ e))
  | inr e ↦ absurd (cc (rw e at h))
]

byte_ram-IsRam : IsRam byte_ram
unfolding byte_read byte_write bytes_only
byte_ram-IsRam = record {
  read-write_self = λ m a src {m'} h.
      let s = bind-Succeeded (bytes_only src) h in
      let (fits, same) = bytes_only_lem src s.value s.first in
      let written : flat_write m a src ≡ ok m' =
        subst (λ v. flat_write m a v ≡ ok m') (sym same) s.rest in
      rw (flat-IsRam.read-write_self m a src written, fits) refl;
  read-write_apart = λ m a src b n {m'} h apart.
      let s = bind-Succeeded (bytes_only src) h in
      let (_, same) = bytes_only_lem src s.value s.first in
      let written : flat_write m a src ≡ ok m' =
        subst (λ v. flat_write m a v ≡ ok m') (sym same) s.rest in
      rw (flat-IsRam.read-write_apart m a src b n written apart) refl;
}

byte_ram-GivesBytes : GivesBytes byte_ram
unfolding byte_read
byte_ram-GivesBytes = record {
  size_and_bytes = λ m gpa n {bs} h.
      let s = bind-Succeeded (flat_read m gpa n) h in
      let (fits, same) = bytes_only_lem s.value bs s.rest in
      (
        subst (λ (v : List ℕ). length v ≡ n) same (flat_read-length m gpa n s.value s.first),
        subst (All IsByte) same (all_bytes-All s.value fits),
      );
}

-- A device that a driver has brought up, with the queue from the guest built.
abbrev device : VsockDevice
device = record (new 3 default_config) {
  tx = some queue;
  transport = record transport { status = 4 };
}

process_ends_example :
    (out : VsockDevice × Completed byte_ram) × (process byte_ram (2 ^ 16) device memory ≡ some out)
unfolding sync_queues new
process_ends_example =
    process_ends byte_ram byte_ram-IsRam byte_ram-GivesBytes device memory (record {
      has_used = record { size_pos = omega arith; used_fits = omega arith };
      idx_apart = inl (omega arith);
      cursor_fits = omega arith;
    })

abbrev id : ConnectionId
id = record { local = record { cid = 2; port = 5000 }; remote = record { cid = 3; port = 9 } }

abbrev header : VsockHeader
header = record {
  src_cid = 2;
  dst_cid = 3;
  src_port = 5000;
  dst_port = 9;
  len = 2;
  vtype = stream;
  op = VsockOp.rw;
  flags = 0;
  buf_alloc = 0;
  fwd_cnt = 0;
}

abbrev packets : List OutPacket
packets = record { header = header; payload = 7 ∷ 8 ∷ [] } ∷ []

flush_loop-Flushed_example :
    Flushed flat packets false queue memory (flush_loop flat packets false queue memory)
flush_loop-Flushed_example = flush_loop-Flushed flat packets false queue memory

happens-IsDevice_example :
    IsDevice (happens flat (new 3 default_config) (starts 5000 ∷ cycles 9 memory ∷ []))
happens-IsDevice_example =
    happens-IsDevice flat 3 default_config (starts 5000 ∷ cycles 9 memory ∷ [])

-- A device whose guest has called port 5000, and two bytes of data on that connection.
abbrev called : List Event
called = Event.listens 5000 ∷ Event.receives call_in ∷ []

abbrev connected : VsockDevice
connected = record device { table = Sending.happens (Table.new default_config) called }

abbrev two_bytes : List ℕ
two_bytes =
    to_le 8 3
    ++ (to_le 8 0
        ++ (to_le 4 1024
            ++ (to_le 4 5000
                ++ (to_le 4 2
                    ++ (to_le 2 1
                        ++ (to_le 2 5
                            ++ (to_le 4 0 ++ (to_le 4 4096 ++ (to_le 4 0 ++ (7 ∷ 8 ∷ []))))))))))

all_fit : all_bytes two_bytes ≡ true
unfolding all_bytes
all_fit = refl

handle_guest_packet_lem_example :
    ((handle_guest_packet connected two_bytes ≡ ok connected)
      × ((hdr : VsockHeader) → ¬ (from_bytes two_bytes ≡ ok hdr)))
    ⊎ ((hdr : VsockHeader) × (t : ConnectionTable) × (from_bytes two_bytes ≡ ok hdr)
        × (to_bytes hdr ≡ ok (take 44 two_bytes))
        × (handle_guest_packet connected two_bytes
            ≡ ok (record connected {
              table = t;
              outbound =
                  connected.outbound
                  ++ to_guest connected.table.cfg hdr
                      (react
                        (is_listening connected.table hdr.dst_port)
                        (view connected.table (incoming hdr))
                        hdr.op).1;
              inbound =
                  connected.inbound
                  ++ to_host hdr
                      (drop 44 two_bytes)
                      (react
                        (is_listening connected.table hdr.dst_port)
                        (view connected.table (incoming hdr))
                        hdr.op).1;
            }))
        × Reacted connected.table hdr
            (react
              (is_listening connected.table hdr.dst_port)
              (view connected.table (incoming hdr))
              hdr.op)
            (t, (dispatch connected.table hdr).1))
handle_guest_packet_lem_example =
    handle_guest_packet_lem connected two_bytes (all_bytes-All two_bytes all_fit)
      (happens-IsTable default_config called)

idle :
    process flat 1 (new 3 default_config) memory
    ≡ some (sync_queues (new 3 default_config), ok (false, memory))
unfolding process sync_queues new new_vsock drain_tx flush_rx
idle = refl

process_lem_example :
    ((false ≡ true) × (interrupt_asserted (sync_queues (new 3 default_config)) ≡ true))
    ⊎ ((false ≡ false) × (memory ≡ memory))
unfolding new happens
process_lem_example =
    process_lem flat 1 (new 3 default_config) (sync_queues (new 3 default_config)) memory memory
      false (happens-IsDevice flat 3 default_config []) idle
