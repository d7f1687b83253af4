-- ===== src/Vsock/Connection.antt =====
-- crates/virtio-vsock/src/lib.rs: the state machine of one connection. A method of `&mut self`
-- gives the connection back beside its result.
pub mod Lifecycle
pub mod Credit
use rust_nano_vm.Prelude.{ℕ, Bool, true, false, not, Outcome, ok, err, if◌then◌else◌}
use rust_nano_vm.Words.{wrapping_add, wrapping_sub}
use rust_nano_vm.Vsock.Header.{VsockHeader, VsockOp}
use rust_nano_vm.Vsock.State.{
  ConnectionState, closed, syn_sent, established, fin_wait, close_wait, ConnectionError, invalid_op,
  invalid_state_transition, endpoint_mismatch, not_writable,
}
use rust_nano_vm.Vsock.Endpoint.{ConnectionId, id_eq, incoming}

pub record Connection : Type 0 where
  pub id : ConnectionId
  pub state : ConnectionState
  pub local_buf_alloc : ℕ
  pub fwd_cnt : ℕ
  pub peer_buf_alloc : ℕ
  pub peer_fwd_cnt : ℕ
  pub tx_cnt : ℕ

-- A connection and what a method returned.
abbrev pub Answered : Type 0
Answered = Connection × Outcome ConnectionError (Unit {0})

-- `state == ConnectionState::Closed`, and the same of `Established`.
abbrev pub is_closed : ConnectionState → Bool
is_closed closed = true
is_closed _ = false

abbrev pub is_established : ConnectionState → Bool
is_established established = true
is_established _ = false

unfoldable pub new : ConnectionId → ℕ → Connection
new id local_buf_alloc = record {
  id = id;
  state = closed;
  local_buf_alloc = local_buf_alloc;
  fwd_cnt = 0;
  peer_buf_alloc = 0;
  peer_fwd_cnt = 0;
  tx_cnt = 0;
}

unfoldable pub listen : Connection → Answered
listen c =
    if not (is_closed c.state)
    then (c, err (invalid_state_transition c.state))
    else (record c { state = ConnectionState.listen }, ok tt)

unfoldable pub connect : Connection → Answered
connect c =
    if not (is_closed c.state)
    then (c, err (invalid_state_transition c.state))
    else (record c { state = syn_sent }, ok tt)

-- The `match (self.state, hdr.op)` of `recv_header`: the state that follows.
unfoldable pub next_state : ConnectionState → VsockOp → Outcome ConnectionError ConnectionState
next_state ConnectionState.listen VsockOp.request = ok established
next_state syn_sent VsockOp.response = ok established
next_state established VsockOp.rw = ok established
next_state established VsockOp.credit_update = ok established
next_state established VsockOp.credit_request = ok established
next_state close_wait VsockOp.credit_update = ok close_wait
next_state close_wait VsockOp.credit_request = ok close_wait
next_state fin_wait VsockOp.credit_update = ok fin_wait
next_state fin_wait VsockOp.credit_request = ok fin_wait
next_state established VsockOp.shutdown = ok close_wait
next_state fin_wait VsockOp.shutdown = ok closed
next_state fin_wait VsockOp.rst = ok closed
next_state close_wait VsockOp.rst = ok closed
next_state state VsockOp.rst = ok closed
next_state state op = err (invalid_op op state)

unfoldable pub with_state : Connection → Outcome ConnectionError ConnectionState → Answered
with_state c (ok state) = (record c { state = state }, ok tt)
with_state c (err e) = (c, err e)
with_state c Outcome.panic = (c, Outcome.panic)

unfoldable pub recv_header : Connection → VsockHeader → Answered
recv_header c hdr =
    if not (id_eq (incoming hdr) c.id)
    then (c, err (endpoint_mismatch c.id (incoming hdr)))
    else let credited : Connection = record c {
      peer_buf_alloc = hdr.buf_alloc;
      peer_fwd_cnt = hdr.fwd_cnt;
    } in
      with_state credited (next_state credited.state hdr.op)

unfoldable pub record_send : Connection → ℕ → Answered
record_send c bytes =
    if not (is_established c.state)
    then (c, err (not_writable c.state))
    else (record c { tx_cnt = wrapping_add 32 c.tx_cnt bytes }, ok tt)

unfoldable pub record_recv : Connection → ℕ → Connection
record_recv c bytes = record c { fwd_cnt = wrapping_add 32 c.fwd_cnt bytes }

unfoldable pub send_credit : Connection → ℕ
send_credit c = wrapping_sub 32 c.peer_buf_alloc (wrapping_sub 32 c.tx_cnt c.peer_fwd_cnt)

unfoldable pub shutdown : Connection → Answered
shutdown c =
    if not (is_established c.state)
    then (c, err (invalid_state_transition c.state))
    else (record c { state = fin_wait }, ok tt)

unfoldable pub rst : Connection → Connection
rst c = record c { state = closed }
