-- ===== src/Vsock/Table.antt =====
-- crates/virtio-vsock/src/conn_table.rs: the host's table of connections. A method of `&mut self`
-- gives the table back beside its result.
pub mod Spec
pub mod Shapes
pub mod Live
pub mod Refines
pub mod Isolation
pub mod Sending
use rust_nano_vm.Prelude.{
  ℕ, Bool, true, false, not, Option, none, some, List, [], ◌∷◌, Outcome, ok, err, ◌==◌,
  if◌then◌else◌,
}
use rust_nano_vm.Maps.{Map, nat_key, get, insert, remove, is_some}
use rust_nano_vm.Vsock.Header.{VsockHeader, VsockOp, stream}
use rust_nano_vm.Vsock.Endpoint.{ConnectionId, incoming, id_key}
use rust_nano_vm.Vsock.Reply.{Reply, send, deliver_payload, TableConfig}
use rust_nano_vm.Vsock.Connection.{Connection, Answered, is_established, recv_header, record_send}
use rust_nano_vm.Vsock.Connection

-- The listening ports are a set: a map to nothing.
pub record ConnectionTable : Type 0 where
  pub cfg : TableConfig
  pub listening : Map ℕ (Unit {0})
  pub connections : Map ConnectionId Connection

unfoldable pub new : TableConfig → ConnectionTable
new cfg = record { cfg = cfg; listening = []; connections = [] }

abbrev pub is_listening : ConnectionTable → ℕ → Bool
is_listening t port = is_some (get port t.listening)

abbrev pub connection : ConnectionTable → ConnectionId → Option Connection
connection t id = get id t.connections

-- `insert`, or a change through `get_mut`.
abbrev pub put : ConnectionTable → ConnectionId → Connection → ConnectionTable
put t id c = record t { connections = insert id c t.connections }

abbrev pub evict : ConnectionTable → ConnectionId → ConnectionTable
evict t id = record t { connections = remove id t.connections }

-- The source leaves open which one is found.
unfoldable pub first_established : ConnectionTable → Option ConnectionId
first_established t = find t.connections
  where
    find : Map ConnectionId Connection → Option ConnectionId
    find [] = none
    find ((id, c) ∷ m) = let rest = find m in if is_established c.state then some id else rest

unfoldable pub listen : ConnectionTable → ℕ → ConnectionTable × Bool
listen t port =
    (record t { listening = insert port tt t.listening }, not (is_some (get port t.listening)))

unfoldable pub unlisten : ConnectionTable → ℕ → ConnectionTable × Bool
unlisten t port = (record t { listening = remove port t.listening }, is_some (get port t.listening))

unfoldable pub drop_connection : ConnectionTable → ConnectionId → ConnectionTable × Bool
drop_connection t id = (evict t id, is_some (connection t id))

unfoldable pub rst_static : ℕ → ConnectionId → ℕ → VsockHeader
rst_static _local_cid id flags = record {
  src_cid = id.local.cid;
  dst_cid = id.remote.cid;
  src_port = id.local.port;
  dst_port = id.remote.port;
  len = 0;
  vtype = stream;
  op = VsockOp.rst;
  flags = flags;
  buf_alloc = 0;
  fwd_cnt = 0;
}

unfoldable pub rst_for : ConnectionTable → ConnectionId → VsockHeader → VsockHeader
rst_for t id src_hdr = rst_static t.cfg.local_cid id src_hdr.flags

abbrev pub counts_of : ConnectionTable → Option Connection → ℕ × ℕ
counts_of t none = (t.cfg.default_buf_alloc, 0)
counts_of t (some c) = (c.local_buf_alloc, c.fwd_cnt)

unfoldable pub reply_header : ConnectionTable → ConnectionId → VsockOp → VsockHeader
reply_header t id op =
    let (buf_alloc, fwd_cnt) = counts_of t (connection t id) in
    record {
      src_cid = id.local.cid;
      dst_cid = id.remote.cid;
      src_port = id.local.port;
      dst_port = id.remote.port;
      len = 0;
      vtype = stream;
      op = op;
      flags = 0;
      buf_alloc = buf_alloc;
      fwd_cnt = fwd_cnt;
    }

abbrev pub is_err {ℓ κ} : {E : Type ℓ} {A : Type κ} → Outcome E A → Bool
is_err (ok a) = false
is_err _ = true

unfoldable pub handle_request :
    ConnectionTable → ConnectionId → VsockHeader → ConnectionTable × Reply
handle_request t id hdr =
    if not (is_some (get hdr.dst_port t.listening))
    then (t, send (rst_for t id hdr))
    else if is_some (connection t id)
    then (t, send (rst_for t id hdr))
    else let (conn, listened) = Connection.listen (Connection.new id t.cfg.default_buf_alloc) in
      let (conn', received) = recv_header conn hdr in
      if is_err listened
      then (t, send (rst_for t id hdr))
      else if is_err received
      then (t, send (rst_for t id hdr))
      else (put t id conn', send (reply_header (put t id conn') id VsockOp.response))

-- `handle_data` on the connection that it finds.
unfoldable pub data_on :
    ConnectionTable → ConnectionId → VsockHeader → Connection → ConnectionTable × Reply
data_on t id hdr conn =
    let (conn', received) = recv_header conn hdr in
    if not (is_established conn.state)
    then (t, send (rst_for t id hdr))
    else if is_err received
    then (evict (put t id conn') id, send (rst_static t.cfg.local_cid id hdr.flags))
    else (put t id conn', if hdr.len == 0 then Reply.none else deliver_payload id hdr.len)

unfoldable pub handle_data : ConnectionTable → ConnectionId → VsockHeader → ConnectionTable × Reply
handle_data t id hdr = elim (connection t id) [
  | none ↦ (t, send (rst_for t id hdr))
  | some conn ↦ data_on t id hdr conn
]

unfoldable pub handle_rst : ConnectionTable → ConnectionId → VsockHeader → ConnectionTable × Reply
handle_rst t id hdr = elim (connection t id) [
  | none ↦ (t, Reply.none)
  | some conn ↦ let (conn', _) = recv_header conn hdr in (evict (put t id conn') id, Reply.none)
]

-- The body of `handle_shutdown`, and that of `handle_response`, on the connection found.
unfoldable pub control_on :
    ConnectionTable → ConnectionId → VsockHeader → Connection → ConnectionTable × Reply
control_on t id hdr conn =
    let (conn', received) = recv_header conn hdr in
    if is_err received
    then (evict (put t id conn') id, send (rst_static t.cfg.local_cid id hdr.flags))
    else (put t id conn', Reply.none)

unfoldable pub handle_shutdown :
    ConnectionTable → ConnectionId → VsockHeader → ConnectionTable × Reply
handle_shutdown t id hdr = elim (connection t id) [
  | none ↦ (t, send (rst_for t id hdr))
  | some conn ↦ control_on t id hdr conn
]

unfoldable pub handle_response :
    ConnectionTable → ConnectionId → VsockHeader → ConnectionTable × Reply
handle_response t id hdr = elim (connection t id) [
  | none ↦ (t, send (rst_for t id hdr))
  | some conn ↦ control_on t id hdr conn
]

unfoldable pub handle_credit :
    ConnectionTable → ConnectionId → VsockHeader → ConnectionTable × Reply
handle_credit t id hdr = elim (connection t id) [
  | none ↦ (t, send (rst_for t id hdr))
  | some conn ↦ let (conn', _) = recv_header conn hdr in (put t id conn', Reply.none)
]

unfoldable pub handle :
    VsockOp → ConnectionTable → ConnectionId → VsockHeader → ConnectionTable × Reply
handle VsockOp.request t id hdr = handle_request t id hdr
handle VsockOp.rw t id hdr = handle_data t id hdr
handle VsockOp.rst t id hdr = handle_rst t id hdr
handle VsockOp.shutdown t id hdr = handle_shutdown t id hdr
handle VsockOp.response t id hdr = handle_response t id hdr
handle VsockOp.credit_update t id hdr = handle_credit t id hdr
handle VsockOp.credit_request t id hdr = handle_credit t id hdr
handle VsockOp.invalid t id hdr = (t, send (rst_for t id hdr))

unfoldable pub dispatch : ConnectionTable → VsockHeader → ConnectionTable × Reply
dispatch t hdr = handle hdr.op t (incoming hdr) hdr

-- `prepare_data` on the connection found: a refused send leaves it as it is.
unfoldable pub data_header : ConnectionId → ℕ → Answered → Option VsockHeader
data_header id len (conn, ok _) = some (record {
  src_cid = id.local.cid;
  dst_cid = id.remote.cid;
  src_port = id.local.port;
  dst_port = id.remote.port;
  len = len;
  vtype = stream;
  op = VsockOp.rw;
  flags = 0;
  buf_alloc = conn.local_buf_alloc;
  fwd_cnt = conn.fwd_cnt;
})
data_header id len (conn, _) = none

unfoldable pub prepare_data :
    ConnectionTable → ConnectionId → ℕ → ConnectionTable × Option VsockHeader
prepare_data t id len = elim (connection t id) [
  | none ↦ (t, none)
  | some conn ↦
      let answered = record_send conn len in (put t id answered.0, data_header id len answered)
]
