-- ===== src/Vsock/Table/Spec.antt =====
-- crates/virtio-vsock/src/conn_table.rs: what the table promises a peer, one pair of endpoints at
-- a time: whether the pair has a connection, and what a packet makes of it.
use rust_nano_vm.Prelude.{ℕ, ◌≡◌, ◌⊎◌, Bool, Option, none, some, ◌==◌, if◌then◌else◌}
use rust_nano_vm.Vsock.Header.{VsockHeader, VsockOp, stream}
use rust_nano_vm.Vsock.Endpoint.{ConnectionId, incoming}
use rust_nano_vm.Vsock.State.{ConnectionState, established, close_wait}
use rust_nano_vm.Vsock.Reply.{Reply, send, deliver_payload, TableConfig}
use rust_nano_vm.Vsock.Connection.{Connection}
use rust_nano_vm.Vsock.Table.{ConnectionTable, connection}

-- A live pair carries data both ways, or the peer has shut its side.
pub data Phase : Type 0 where
  both_ways half_closed : Phase

pub data Answer : Type 0 where
  accept refuse deliver quiet : Answer

-- The phase after a packet, and the answer to it, where `listening` says whether its port has a
-- listener.
unfoldable pub react : Bool → Option Phase → VsockOp → Option Phase × Answer
react listening none VsockOp.request =
    if listening then (some both_ways, accept) else (none, refuse)
react listening none VsockOp.rst = (none, quiet)
react listening none op = (none, refuse)
react listening (some p) VsockOp.request = (some p, refuse)
react listening (some p) VsockOp.invalid = (some p, refuse)
react listening (some p) VsockOp.response = (none, refuse)
react listening (some p) VsockOp.rst = (none, quiet)
react listening (some p) VsockOp.credit_update = (some p, quiet)
react listening (some p) VsockOp.credit_request = (some p, quiet)
react listening (some both_ways) VsockOp.rw = (some both_ways, deliver)
react listening (some half_closed) VsockOp.rw = (some half_closed, refuse)
react listening (some both_ways) VsockOp.shutdown = (some half_closed, quiet)
react listening (some half_closed) VsockOp.shutdown = (none, refuse)

-- A control packet back to where `hdr` came from.
abbrev pub back : VsockHeader → VsockOp → ℕ → ℕ → VsockHeader
back hdr op flags buf_alloc = record {
  src_cid = hdr.dst_cid;
  dst_cid = hdr.src_cid;
  src_port = hdr.dst_port;
  dst_port = hdr.src_port;
  len = 0;
  vtype = stream;
  op = op;
  flags = flags;
  buf_alloc = buf_alloc;
  fwd_cnt = 0;
}

-- A refusal is an `Rst` with the packet's flags; an empty data packet delivers nothing.
abbrev pub render : TableConfig → VsockHeader → Answer → Reply
render cfg hdr accept = send (back hdr VsockOp.response 0 cfg.default_buf_alloc)
render cfg hdr refuse = send (back hdr VsockOp.rst hdr.flags 0)
render cfg hdr deliver = if hdr.len == 0 then Reply.none else deliver_payload (incoming hdr) hdr.len
render cfg hdr quiet = Reply.none

abbrev pub phase_of : ConnectionState → Phase
phase_of close_wait = half_closed
phase_of _ = both_ways

abbrev pub phase : Option Connection → Option Phase
phase none = none
phase (some c) = some (phase_of c.state)

-- The phase of a pair in a table.
abbrev pub view : ConnectionTable → ConnectionId → Option Phase
view t id = phase (connection t id)

-- A connection that the table can hold: filed under its own pair, live, with the configured
-- window, of which the table has returned nothing.
pub record IsEntry (cfg : TableConfig) (id : ConnectionId) (c : Connection) : Type 0 where
  pub filed : c.id ≡ id
  pub live : (c.state ≡ established) ⊎ (c.state ≡ close_wait)
  pub window : c.local_buf_alloc ≡ cfg.default_buf_alloc
  pub returned : c.fwd_cnt ≡ 0

abbrev pub IsFiled : TableConfig → ConnectionId → Option Connection → Type 0
IsFiled cfg id none = Unit
IsFiled cfg id (some c) = IsEntry cfg id c

abbrev pub IsTable : ConnectionTable → Type 0
IsTable t = (id : ConnectionId) → IsFiled t.cfg id (connection t id)
