-- ===== src/Vsock/Device/Calls.antt =====
-- crates/virtio-vsock/src/device.rs: what the single calls of the device keep.
use rust_nano_vm.Prelude.{ℕ, Bool-cases, Option, none, some, List, length, leb, ◌^◌, inl, inr, ◌==◌}
use rust_nano_vm.Vsock.Header.{VsockHeader}
use rust_nano_vm.Vsock.Endpoint.{ConnectionId}
use rust_nano_vm.Vsock.Reply.{Reply, deliver_payload}
use rust_nano_vm.Vsock.Table.Spec.{IsTable}
use rust_nano_vm.Vsock.Table.Refines.{dispatch-IsTable}
use rust_nano_vm.Vsock.Table.Sending.{happen-IsTable, sends}
use rust_nano_vm.Vsock.Table
use rust_nano_vm.Vsock.Mmio.Shape.{IsTransport, write-IsTransport}
use rust_nano_vm.Vsock.Mmio.{take_notify}
use rust_nano_vm.Vsock.Device.{
  VsockDevice, mmio_write, listen, unlisten, send, queued, recv, sync_queues, answer, handle_header,
}

-- The registers keep their shape, and the connections are those of a table.
abbrev pub IsDevice : VsockDevice → Type 0
IsDevice dev = IsTransport dev.transport × IsTable dev.table

module _ (dev : VsockDevice) (h : IsDevice dev) where
  pub mmio_write-IsDevice : (offset size value : ℕ) → IsDevice (mmio_write dev offset size value).0
  unfolding mmio_write take_notify
  mmio_write-IsDevice offset size value =
      (write-IsTransport dev.transport offset size value h.0, h.1)

  pub listen-IsDevice : (port : ℕ) → IsDevice (listen dev port).0
  unfolding listen Table.listen
  listen-IsDevice port = h

  pub unlisten-IsDevice : (port : ℕ) → IsDevice (unlisten dev port).0
  unfolding unlisten Table.unlisten
  unlisten-IsDevice port = h

  pub queued-IsDevice :
      (payload : List ℕ) (o : Option VsockHeader) → IsDevice (queued dev payload o).0
  queued-IsDevice payload none = h
  queued-IsDevice payload (some header) = h

  pub sync_queues-IsDevice : IsDevice (sync_queues dev)
  unfolding sync_queues
  sync_queues-IsDevice = elim (Bool-cases (dev.transport.status == 0)) [
    | inl e ↦ rw e h
    | inr e ↦ rw e h
  ]

  pub answer-IsDevice : (raw : List ℕ) (r : Reply) → IsDevice (answer dev raw r)
  unfolding answer
  answer-IsDevice raw (Reply.send header) = h
  answer-IsDevice raw (deliver_payload conn_id bytes) = h
  answer-IsDevice raw Reply.none = h

pub send-IsDevice :
    (dev : VsockDevice) (id : ConnectionId) (payload : List ℕ)
    → IsDevice dev
    → IsDevice (send dev id payload).0
unfolding send Table.Sending.happen
send-IsDevice dev id payload (transport, table) =
    elim (Bool-cases (leb (2 ^ 32) (length payload))) [
      | inl e ↦ rw e (transport, table)
      | inr e ↦ rw e (
          queued-IsDevice _ (transport, happen-IsTable dev.table (sends id (length payload)) table)
            payload _)
    ]

pub recv-IsDevice : (dev : VsockDevice) → IsDevice dev → IsDevice (recv dev).0
unfolding recv
recv-IsDevice dev h = h

pub handle_header-IsDevice :
    (dev : VsockDevice) (raw : List ℕ) (hdr : VsockHeader)
    → IsDevice dev
    → IsDevice (handle_header dev raw hdr)
unfolding handle_header
handle_header-IsDevice dev raw hdr (transport, table) =
    answer-IsDevice _ (transport, dispatch-IsTable dev.table hdr table) raw _
