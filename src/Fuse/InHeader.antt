-- ===== src/Fuse/InHeader.antt =====
-- crates/virtio-fs/src/lib.rs: `FuseInHeader`, the header of a request.
use rust_nano_vm.Prelude.{
  ℕ, ◌≤◌, ◌<◌, ◌≡◌, refl, ap, ◌∙◌, arith, ◌⊎◌, inl, inr, List, [], ◌∷◌, ◌++◌, length, drop,
  replicate, ltb, lt→ltb, lt_or_le, le→not-ltb, if◌then◌else◌, Outcome, ok, err, ◌>>=◌,
}
use rust_nano_vm.Maps.{nat_key}
use rust_nano_vm.Bytes.Endian.{to_le, of_le}
use rust_nano_vm.Bytes.Buffer.{slice, splice-zero, read_le, read_le_in, write_slice}
use rust_nano_vm.Bytes.Fields.{write_fields_in}
use rust_nano_vm.Bytes.Wire.{AllFit, encoded, values_at-append, nth}
use rust_nano_vm.Fuse.Error.{FuseError, short_header, short_buffer, unknown_opcode, as_array}
use rust_nano_vm.Fuse.Opcode.{FuseOpcode, from_raw, as_raw, from_raw-as_raw, from_raw_known}

abbrev pub fuse_in_hdr_len : ℕ
fuse_in_hdr_len = 40

pub record FuseInHeader : Type 0 where
  pub len : ℕ
  pub opcode : FuseOpcode
  pub unique : ℕ
  pub nodeid : ℕ
  pub uid : ℕ
  pub gid : ℕ
  pub pid : ℕ
  pub total_extlen : ℕ
  pub padding : ℕ

unfoldable pub from_bytes : List ℕ → Outcome FuseError FuseInHeader
from_bytes buf =
    if ltb (length buf) fuse_in_hdr_len then err (short_header (length buf) fuse_in_hdr_len) else do
      len ← read_le 4 0 buf
      opcode_raw ← read_le 4 4 buf
      unique ← read_le 8 8 buf
      nodeid ← read_le 8 16 buf
      uid ← read_le 4 24 buf
      gid ← read_le 4 28 buf
      pid ← read_le 4 32 buf
      total_extlen ← read_le 2 36 buf
      padding ← read_le 2 38 buf
      opcode ← from_raw opcode_raw
      ok (record {
        len = len;
        opcode = opcode;
        unique = unique;
        nodeid = nodeid;
        uid = uid;
        gid = gid;
        pid = pid;
        total_extlen = total_extlen;
        padding = padding;
      })

unfoldable pub write_to : FuseInHeader → List ℕ → Outcome FuseError (List ℕ × ℕ)
write_to s buf =
    if ltb (length buf) fuse_in_hdr_len then err (short_buffer (length buf) fuse_in_hdr_len) else do
      buf ← write_slice 0 (to_le 4 s.len) buf
      buf ← write_slice 4 (to_le 4 (as_raw s.opcode)) buf
      buf ← write_slice 8 (to_le 8 s.unique) buf
      buf ← write_slice 16 (to_le 8 s.nodeid) buf
      buf ← write_slice 24 (to_le 4 s.uid) buf
      buf ← write_slice 28 (to_le 4 s.gid) buf
      buf ← write_slice 32 (to_le 4 s.pid) buf
      buf ← write_slice 36 (to_le 2 s.total_extlen) buf
      buf ← write_slice 38 (to_le 2 s.padding) buf
      ok (buf, fuse_in_hdr_len)

unfoldable pub to_bytes : FuseInHeader → Outcome FuseError (List ℕ)
to_bytes s = as_array (write_to s (replicate fuse_in_hdr_len 0))

abbrev pub widths : List ℕ
widths = 4 ∷ 4 ∷ 8 ∷ 8 ∷ 4 ∷ 4 ∷ 4 ∷ 2 ∷ 2 ∷ []

abbrev pub values : FuseInHeader → List ℕ
values s =
    s.len
    ∷ as_raw s.opcode
    ∷ s.unique
    ∷ s.nodeid
    ∷ s.uid
    ∷ s.gid
    ∷ s.pid
    ∷ s.total_extlen
    ∷ s.padding
    ∷ []

writes_wire :
    (s : FuseInHeader) (buf : List ℕ)
    → fuse_in_hdr_len ≤ length buf
    → write_to s buf ≡ ok (encoded widths (values s) ++ drop fuse_in_hdr_len buf, fuse_in_hdr_len)
unfolding write_to
writes_wire s buf room = rw (le→not-ltb (length buf) fuse_in_hdr_len room) (
    write_fields_in 0
      (to_le 4 s.len
        ∷ to_le 4 (as_raw s.opcode)
        ∷ to_le 8 s.unique
        ∷ to_le 8 s.nodeid
        ∷ to_le 4 s.uid
        ∷ to_le 4 s.gid
        ∷ to_le 4 s.pid
        ∷ to_le 2 s.total_extlen
        ∷ to_le 2 s.padding
        ∷ [])
      buf (λ b. ok (b, fuse_in_hdr_len)) (omega arith)
    ∙ ap (λ b. ok (b, fuse_in_hdr_len)) (splice-zero (encoded widths (values s)) buf (omega arith)))

abbrev decoded : List ℕ → FuseOpcode → FuseInHeader
decoded buf op = record {
  len = of_le (slice 0 4 buf);
  opcode = op;
  unique = of_le (slice 8 8 buf);
  nodeid = of_le (slice 16 8 buf);
  uid = of_le (slice 24 4 buf);
  gid = of_le (slice 28 4 buf);
  pid = of_le (slice 32 4 buf);
  total_extlen = of_le (slice 36 2 buf);
  padding = of_le (slice 38 2 buf);
}

reads_wire :
    (buf : List ℕ) (op : FuseOpcode)
    → fuse_in_hdr_len ≤ length buf
    → from_raw (of_le (slice 4 4 buf)) ≡ ok op
    → from_bytes buf ≡ ok (decoded buf op)
unfolding from_bytes
reads_wire buf op room known =
    rw
      (
        le→not-ltb (length buf) fuse_in_hdr_len room,
        read_le_in {E = FuseError} 4 0 buf (omega arith),
        read_le_in {E = FuseError} 4 4 buf (omega arith),
        read_le_in {E = FuseError} 8 8 buf (omega arith),
        read_le_in {E = FuseError} 8 16 buf (omega arith),
        read_le_in {E = FuseError} 4 24 buf (omega arith),
        read_le_in {E = FuseError} 4 28 buf (omega arith),
        read_le_in {E = FuseError} 4 32 buf (omega arith),
        read_le_in {E = FuseError} 2 36 buf (omega arith),
        read_le_in {E = FuseError} 2 38 buf (omega arith),
        known,
      )
      refl

reads_unknown :
    (buf : List ℕ) (raw : ℕ)
    → fuse_in_hdr_len ≤ length buf
    → from_raw (of_le (slice 4 4 buf)) ≡ err (unknown_opcode raw)
    → from_bytes buf ≡ err (unknown_opcode raw)
unfolding from_bytes
reads_unknown buf raw room unknown =
    rw
      (
        le→not-ltb (length buf) fuse_in_hdr_len room,
        read_le_in {E = FuseError} 4 0 buf (omega arith),
        read_le_in {E = FuseError} 4 4 buf (omega arith),
        read_le_in {E = FuseError} 8 8 buf (omega arith),
        read_le_in {E = FuseError} 8 16 buf (omega arith),
        read_le_in {E = FuseError} 4 24 buf (omega arith),
        read_le_in {E = FuseError} 4 28 buf (omega arith),
        read_le_in {E = FuseError} 4 32 buf (omega arith),
        read_le_in {E = FuseError} 2 36 buf (omega arith),
        read_le_in {E = FuseError} 2 38 buf (omega arith),
        unknown,
      )
      refl

-- A header whose fields fit, at the front of any bytes, is read.
pub from_bytes-front :
    (s : FuseInHeader) (rest : List ℕ)
    → AllFit widths (values s)
    → from_bytes (encoded widths (values s) ++ rest) ≡ ok s
from_bytes-front s rest fit =
    let same = values_at-append [] widths (values s) rest fit in
    reads_wire (encoded widths (values s) ++ rest) s.opcode (omega arith)
      (ap (λ e. from_raw (nth 1 e)) same ∙ from_raw-as_raw s.opcode)
    ∙ ap ok (λ k. record {
      len = nth 0 (same k);
      opcode = s.opcode;
      unique = nth 2 (same k);
      nodeid = nth 3 (same k);
      uid = nth 4 (same k);
      gid = nth 5 (same k);
      pid = nth 6 (same k);
      total_extlen = nth 7 (same k);
      padding = nth 8 (same k);
    })

pub to_bytes-encoded : (s : FuseInHeader) → to_bytes s ≡ ok (encoded widths (values s))
unfolding to_bytes
to_bytes-encoded s = ap as_array (writes_wire s (replicate fuse_in_hdr_len 0) (omega arith))

-- Any bytes are read, or refused as too few or for their operation.
pub from_bytes-cases :
    (buf : List ℕ)
    → ((length buf < fuse_in_hdr_len)
        × (from_bytes buf ≡ err (short_header (length buf) fuse_in_hdr_len)))
      ⊎ ((fuse_in_hdr_len ≤ length buf)
          × ((op : FuseOpcode) → ¬ (as_raw op ≡ of_le (slice 4 4 buf)))
          × (from_bytes buf ≡ err (unknown_opcode (of_le (slice 4 4 buf)))))
      ⊎ ((fuse_in_hdr_len ≤ length buf)
          × (s : FuseInHeader) × (from_bytes buf ≡ ok s)
          × (as_raw s.opcode ≡ of_le (slice 4 4 buf)))
unfolding from_bytes
from_bytes-cases buf = elim (lt_or_le (length buf) fuse_in_hdr_len) [
  | inl short ↦ inl (short, rw (lt→ltb (length buf) fuse_in_hdr_len short) refl)
  | inr room ↦ elim (from_raw_known (of_le (slice 4 4 buf))) [
    | inl (op, known, right) ↦ inr (inr (room, decoded buf op, reads_wire buf op room known, right))
    | inr (none_is, unknown) ↦
        inr (inl (room, none_is, reads_unknown buf (of_le (slice 4 4 buf)) room unknown))
  ]
]
