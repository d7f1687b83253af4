-- ===== src/Vsock/Header/Wire.antt =====
-- crates/virtio-vsock/src/lib.rs: the forty-four bytes of a `VsockHeader`, written and read.
use rust_nano_vm.Prelude.{
  ℕ, zero, suc, ◌^◌, ◌≤◌, ◌<◌, ◌≡◌, refl, ap, ◌∙◌, sym, arith, List, [], ◌∷◌, ◌++◌, length, take,
  drop, replicate, All, le→not-ltb, ne→not-==, ok, err,
}
use rust_nano_vm.Bytes.Endian.{IsByte, to_le, of_le, of_le-to_le}
use rust_nano_vm.Bytes.Buffer.{slice, splice-zero, read_le_in}
use rust_nano_vm.Bytes.Fields.{joined, write_fields_in, joined-reread}
use rust_nano_vm.Vsock.Header.{
  VsockHeader, IsHeader, VsockOp, VsockType, VsockError, invalid, request, response, rst, shutdown,
  credit_update, credit_request, stream, type_from_raw, type_as_raw, op_from_raw, op_as_raw,
  from_bytes, write_to, to_bytes, unknown_op, unknown_type,
}

-- The fields in the order of the wire format.
abbrev pub fields : VsockHeader → List (List ℕ)
fields h =
    to_le 8 h.src_cid
    ∷ to_le 8 h.dst_cid
    ∷ to_le 4 h.src_port
    ∷ to_le 4 h.dst_port
    ∷ to_le 4 h.len
    ∷ to_le 2 (type_as_raw h.vtype)
    ∷ to_le 2 (op_as_raw h.op)
    ∷ to_le 4 h.flags
    ∷ to_le 4 h.buf_alloc
    ∷ to_le 4 h.fwd_cnt
    ∷ []

abbrev pub wire : VsockHeader → List ℕ
wire h = joined (fields h)

pub write_to-wire :
    (h : VsockHeader) (buf : List ℕ)
    → 44 ≤ length buf
    → write_to h buf ≡ ok (wire h ++ drop 44 buf, 44)
unfolding write_to
write_to-wire h buf room = rw (le→not-ltb (length buf) 44 room) (
    write_fields_in 0 (fields h) buf (λ b. ok (b, 44)) (omega arith)
    ∙ ap (λ b. ok (b, 44)) (splice-zero (wire h) buf (omega arith)))

pub to_bytes-wire : (h : VsockHeader) → to_bytes h ≡ ok (wire h)
unfolding to_bytes
to_bytes-wire h = write_fields_in 0 (fields h) (replicate 44 0) ok (omega arith)

pub op_from_raw-op_as_raw : (o : VsockOp) → op_from_raw (op_as_raw o) ≡ ok o
unfolding op_from_raw op_as_raw
op_from_raw-op_as_raw invalid = refl
op_from_raw-op_as_raw _ = refl

-- The header whose fields stand at their offsets, once its type and operation are known.
abbrev pub decoded : List ℕ → VsockOp → VsockHeader
decoded buf o = record {
  src_cid = of_le (slice 0 8 buf);
  dst_cid = of_le (slice 8 8 buf);
  src_port = of_le (slice 16 4 buf);
  dst_port = of_le (slice 20 4 buf);
  len = of_le (slice 24 4 buf);
  vtype = stream;
  op = o;
  flags = of_le (slice 32 4 buf);
  buf_alloc = of_le (slice 36 4 buf);
  fwd_cnt = of_le (slice 40 4 buf);
}

pub from_bytes-decoded :
    (buf : List ℕ) (o : VsockOp)
    → 44 ≤ length buf
    → of_le (slice 28 2 buf) ≡ 1
    → op_from_raw (of_le (slice 30 2 buf)) ≡ ok o
    → from_bytes buf ≡ ok (decoded buf o)
unfolding from_bytes type_from_raw
from_bytes-decoded buf o room is_stream known = rw (
  le→not-ltb (length buf) 44 room,
  read_le_in {E = VsockError} 8 0 buf (omega arith),
  read_le_in {E = VsockError} 8 8 buf (omega arith),
  read_le_in {E = VsockError} 4 16 buf (omega arith),
  read_le_in {E = VsockError} 4 20 buf (omega arith),
  read_le_in {E = VsockError} 4 24 buf (omega arith),
  read_le_in {E = VsockError} 2 28 buf (omega arith),
  read_le_in {E = VsockError} 2 30 buf (omega arith),
  read_le_in {E = VsockError} 4 32 buf (omega arith),
  read_le_in {E = VsockError} 4 36 buf (omega arith),
  read_le_in {E = VsockError} 4 40 buf (omega arith),
  is_stream,
  known,
)

pub from_bytes_bad_type :
    (buf : List ℕ)
    → 44 ≤ length buf
    → ¬ (of_le (slice 28 2 buf) ≡ 1)
    → from_bytes buf ≡ err (unknown_type (of_le (slice 28 2 buf)))
unfolding from_bytes type_from_raw
from_bytes_bad_type buf room other = rw (
  le→not-ltb (length buf) 44 room,
  read_le_in {E = VsockError} 8 0 buf (omega arith),
  read_le_in {E = VsockError} 8 8 buf (omega arith),
  read_le_in {E = VsockError} 4 16 buf (omega arith),
  read_le_in {E = VsockError} 4 20 buf (omega arith),
  read_le_in {E = VsockError} 4 24 buf (omega arith),
  read_le_in {E = VsockError} 2 28 buf (omega arith),
  read_le_in {E = VsockError} 2 30 buf (omega arith),
  read_le_in {E = VsockError} 4 32 buf (omega arith),
  read_le_in {E = VsockError} 4 36 buf (omega arith),
  read_le_in {E = VsockError} 4 40 buf (omega arith),
  ne→not-== (of_le (slice 28 2 buf)) 1 other,
)

pub op_from_raw_known :
    (raw : ℕ) → raw < 8 → (o : VsockOp) × (op_from_raw raw ≡ ok o) × (op_as_raw o ≡ raw)
unfolding op_from_raw op_as_raw
op_from_raw_known zero h = (invalid, refl, refl)
op_from_raw_known (suc zero) h = (request, refl, refl)
op_from_raw_known (suc (suc zero)) h = (response, refl, refl)
op_from_raw_known (suc (suc (suc zero))) h = (rst, refl, refl)
op_from_raw_known (suc (suc (suc (suc zero)))) h = (shutdown, refl, refl)
op_from_raw_known (suc (suc (suc (suc (suc zero))))) h = (VsockOp.rw, refl, refl)
op_from_raw_known (suc (suc (suc (suc (suc (suc zero)))))) h = (credit_update, refl, refl)
op_from_raw_known (suc (suc (suc (suc (suc (suc (suc zero))))))) h = (credit_request, refl, refl)
op_from_raw_known (suc (suc (suc (suc (suc (suc (suc (suc n)))))))) h = absurd (omega arith)

pub op_from_raw_unknown : (raw : ℕ) → 8 ≤ raw → op_from_raw raw ≡ err (unknown_op raw)
unfolding op_from_raw
op_from_raw_unknown raw h = ground arith

pub from_bytes_bad_op :
    (buf : List ℕ)
    → 44 ≤ length buf
    → of_le (slice 28 2 buf) ≡ 1
    → 8 ≤ of_le (slice 30 2 buf)
    → from_bytes buf ≡ err (unknown_op (of_le (slice 30 2 buf)))
unfolding from_bytes type_from_raw
from_bytes_bad_op buf room is_stream big = rw (
  le→not-ltb (length buf) 44 room,
  read_le_in {E = VsockError} 8 0 buf (omega arith),
  read_le_in {E = VsockError} 8 8 buf (omega arith),
  read_le_in {E = VsockError} 4 16 buf (omega arith),
  read_le_in {E = VsockError} 4 20 buf (omega arith),
  read_le_in {E = VsockError} 4 24 buf (omega arith),
  read_le_in {E = VsockError} 2 28 buf (omega arith),
  read_le_in {E = VsockError} 2 30 buf (omega arith),
  read_le_in {E = VsockError} 4 32 buf (omega arith),
  read_le_in {E = VsockError} 4 36 buf (omega arith),
  read_le_in {E = VsockError} 4 40 buf (omega arith),
  is_stream,
  op_from_raw_unknown (of_le (slice 30 2 buf)) big,
)

pub op_as_raw_fits : (o : VsockOp) → op_as_raw o < 256 ^ 2
unfolding op_as_raw
op_as_raw_fits invalid = omega arith
op_as_raw_fits _ = omega arith

pub type_is_stream : (t : VsockType) → stream ≡ t
type_is_stream stream = refl

pub type_as_raw_stream : (t : VsockType) → of_le (to_le 2 (type_as_raw t)) ≡ 1
unfolding type_as_raw
type_as_raw_stream stream = refl

pub decoded-wire :
    (h : VsockHeader) (rest : List ℕ) → IsHeader h → decoded (wire h ++ rest) h.op ≡ h
decoded-wire h rest v = λ i. record {
  src_cid = of_le-to_le 8 h.src_cid (omega (arith, v.src_cid_fits)) i;
  dst_cid = of_le-to_le 8 h.dst_cid (omega (arith, v.dst_cid_fits)) i;
  src_port = of_le-to_le 4 h.src_port (omega (arith, v.src_port_fits)) i;
  dst_port = of_le-to_le 4 h.dst_port (omega (arith, v.dst_port_fits)) i;
  len = of_le-to_le 4 h.len (omega (arith, v.len_fits)) i;
  vtype = type_is_stream h.vtype i;
  op = h.op;
  flags = of_le-to_le 4 h.flags (omega (arith, v.flags_fits)) i;
  buf_alloc = of_le-to_le 4 h.buf_alloc (omega (arith, v.buf_alloc_fits)) i;
  fwd_cnt = of_le-to_le 4 h.fwd_cnt (omega (arith, v.fwd_cnt_fits)) i;
}

pub from_bytes-wire :
    (h : VsockHeader) (rest : List ℕ) → IsHeader h → from_bytes (wire h ++ rest) ≡ ok h
from_bytes-wire h rest v =
    from_bytes-decoded (wire h ++ rest) h.op (omega arith) (type_as_raw_stream h.vtype) (
      ap op_from_raw (of_le-to_le 2 (op_as_raw h.op) (op_as_raw_fits h.op))
      ∙ op_from_raw-op_as_raw h.op)
    ∙ ap ok (decoded-wire h rest v)

-- What was read is what stands there.
pub wire-decoded :
    (buf : List ℕ) (o : VsockOp)
    → 44 ≤ length buf
    → All IsByte buf
    → of_le (slice 28 2 buf) ≡ 1
    → op_as_raw o ≡ of_le (slice 30 2 buf)
    → wire (decoded buf o) ≡ take 44 buf
unfolding type_as_raw
wire-decoded buf o room bytes is_stream is_op =
    ap (λ t. wire_with t (op_as_raw o)) (sym is_stream)
    ∙ ap (wire_with (of_le (slice 28 2 buf))) is_op
    ∙ joined-reread 0 (8 ∷ 8 ∷ 4 ∷ 4 ∷ 4 ∷ 2 ∷ 2 ∷ 4 ∷ 4 ∷ 4 ∷ []) buf (omega arith) bytes
  where
    wire_with : ℕ → ℕ → List ℕ
    wire_with t c = joined (
        to_le 8 (of_le (slice 0 8 buf))
        ∷ to_le 8 (of_le (slice 8 8 buf))
        ∷ to_le 4 (of_le (slice 16 4 buf))
        ∷ to_le 4 (of_le (slice 20 4 buf))
        ∷ to_le 4 (of_le (slice 24 4 buf))
        ∷ to_le 2 t
        ∷ to_le 2 c
        ∷ to_le 4 (of_le (slice 32 4 buf))
        ∷ to_le 4 (of_le (slice 36 4 buf))
        ∷ to_le 4 (of_le (slice 40 4 buf))
        ∷ [])
