-- ===== src/Vsock/Header.antt =====
-- crates/virtio-vsock/src/lib.rs: `VsockHeader`, the packet header, with its operation codes.
pub mod Wire
pub mod RoundTrip
use rust_nano_vm.Prelude.{
  ℕ, ◌+◌, ◌≡◌, List, length, replicate, ltb, ◌==◌, if◌then◌else◌, Outcome, ok, err, ◌>>=◌,
}
use rust_nano_vm.Bytes.Endian.{to_le, IsU32, IsU64}
use rust_nano_vm.Bytes.Buffer.{read_le, write_slice}

abbrev pub vsock_hdr_len : ℕ
vsock_hdr_len = 44

abbrev pub hypervisor_cid : ℕ
hypervisor_cid = 0

pub data VsockType : Type 0 where
  stream : VsockType

pub data VsockOp : Type 0 where
  invalid request response rst shutdown rw credit_update credit_request : VsockOp

pub data VsockError : Type 0 where
  short_header : (have need : ℕ) → VsockError
  short_buffer : (have need : ℕ) → VsockError
  unknown_op : (raw : ℕ) → VsockError
  unknown_type : (raw : ℕ) → VsockError

unfoldable pub type_from_raw : ℕ → Outcome VsockError VsockType
type_from_raw raw = if raw == 1 then ok stream else err (unknown_type raw)

unfoldable pub type_as_raw : VsockType → ℕ
type_as_raw stream = 1

unfoldable pub op_from_raw : ℕ → Outcome VsockError VsockOp
op_from_raw raw =
    if raw == 0
    then ok invalid
    else if raw == 1
    then ok request
    else if raw == 2
    then ok response
    else if raw == 3
    then ok rst
    else if raw == 4
    then ok shutdown
    else if raw == 5
    then ok rw
    else if raw == 6
    then ok credit_update
    else if raw == 7
    then ok credit_request
    else err (unknown_op raw)

unfoldable pub op_as_raw : VsockOp → ℕ
op_as_raw invalid = 0
op_as_raw request = 1
op_as_raw response = 2
op_as_raw rst = 3
op_as_raw shutdown = 4
op_as_raw rw = 5
op_as_raw credit_update = 6
op_as_raw credit_request = 7

pub record VsockHeader : Type 0 where
  pub src_cid : ℕ
  pub dst_cid : ℕ
  pub src_port : ℕ
  pub dst_port : ℕ
  pub len : ℕ
  pub vtype : VsockType
  pub op : VsockOp
  pub flags : ℕ
  pub buf_alloc : ℕ
  pub fwd_cnt : ℕ

-- Each field fits its Rust type.
pub record IsHeader (h : VsockHeader) : Type 0 where
  pub src_cid_fits : IsU64 h.src_cid
  pub dst_cid_fits : IsU64 h.dst_cid
  pub src_port_fits : IsU32 h.src_port
  pub dst_port_fits : IsU32 h.dst_port
  pub len_fits : IsU32 h.len
  pub flags_fits : IsU32 h.flags
  pub buf_alloc_fits : IsU32 h.buf_alloc
  pub fwd_cnt_fits : IsU32 h.fwd_cnt

unfoldable pub from_bytes : List ℕ → Outcome VsockError VsockHeader
from_bytes buf =
    if ltb (length buf) vsock_hdr_len then err (short_header (length buf) vsock_hdr_len) else do
      src_cid ← read_le 8 0 buf
      dst_cid ← read_le 8 8 buf
      src_port ← read_le 4 16 buf
      dst_port ← read_le 4 20 buf
      len ← read_le 4 24 buf
      type_raw ← read_le 2 28 buf
      op_raw ← read_le 2 30 buf
      flags ← read_le 4 32 buf
      buf_alloc ← read_le 4 36 buf
      fwd_cnt ← read_le 4 40 buf
      vtype ← type_from_raw type_raw
      op ← op_from_raw op_raw
      ok (record {
        src_cid = src_cid;
        dst_cid = dst_cid;
        src_port = src_port;
        dst_port = dst_port;
        len = len;
        vtype = vtype;
        op = op;
        flags = flags;
        buf_alloc = buf_alloc;
        fwd_cnt = fwd_cnt;
      })

-- The buffer after the writes, and the count that is returned.
unfoldable pub write_to : VsockHeader → List ℕ → Outcome VsockError (List ℕ × ℕ)
write_to h buf =
    if ltb (length buf) vsock_hdr_len then err (short_buffer (length buf) vsock_hdr_len) else do
      buf ← write_slice 0 (to_le 8 h.src_cid) buf
      buf ← write_slice 8 (to_le 8 h.dst_cid) buf
      buf ← write_slice 16 (to_le 4 h.src_port) buf
      buf ← write_slice 20 (to_le 4 h.dst_port) buf
      buf ← write_slice 24 (to_le 4 h.len) buf
      buf ← write_slice 28 (to_le 2 (type_as_raw h.vtype)) buf
      buf ← write_slice 30 (to_le 2 (op_as_raw h.op)) buf
      buf ← write_slice 32 (to_le 4 h.flags) buf
      buf ← write_slice 36 (to_le 4 h.buf_alloc) buf
      buf ← write_slice 40 (to_le 4 h.fwd_cnt) buf
      ok (buf, vsock_hdr_len)

-- Into a fresh array of zeros; a copy out of range would panic.
unfoldable pub to_bytes : VsockHeader → Outcome VsockError (List ℕ)
to_bytes h = do
  out ← write_slice 0 (to_le 8 h.src_cid) (replicate vsock_hdr_len 0)
  out ← write_slice 8 (to_le 8 h.dst_cid) out
  out ← write_slice 16 (to_le 4 h.src_port) out
  out ← write_slice 20 (to_le 4 h.dst_port) out
  out ← write_slice 24 (to_le 4 h.len) out
  out ← write_slice 28 (to_le 2 (type_as_raw h.vtype)) out
  out ← write_slice 30 (to_le 2 (op_as_raw h.op)) out
  out ← write_slice 32 (to_le 4 h.flags) out
  out ← write_slice 36 (to_le 4 h.buf_alloc) out
  out ← write_slice 40 (to_le 4 h.fwd_cnt) out
  ok out
