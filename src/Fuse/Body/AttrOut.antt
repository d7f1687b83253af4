-- ===== src/Fuse/Body/AttrOut.antt =====
-- crates/virtio-fs/src/body.rs: `FuseAttrOut`.
use rust_nano_vm.Prelude.{
  ℕ, ◌≤◌, ◌≡◌, ap, ◌∙◌, ◌++◌, drop, refl, arith, List, [], ◌∷◌, length, replicate, ltb, lt→ltb,
  le→not-ltb, if◌then◌else◌, Outcome, ok, err, ◌>>=◌,
}
use rust_nano_vm.Bytes.Endian.{to_le, of_le}
use rust_nano_vm.Bytes.Buffer.{
  slice, splice, splice-zero, splice-append, length-splice, read_le, read_le_in, read_slice,
  write_slice,
}
use rust_nano_vm.Bytes.Fields.{joined, write_fields_in}
use rust_nano_vm.Bytes.Wire.{Wire, IsWire, AllFit, encoded, length-encoded, nth}
use rust_nano_vm.Bytes.Parts.{write_part, write_part_wire, read_part}
use rust_nano_vm.Fuse.Error.{FuseError, short_header, short_buffer, as_array}
use rust_nano_vm.Fuse.Body.Attr.{FuseAttr, fuse_attr_len}
use rust_nano_vm.Fuse.Body.Attr

abbrev pub fuse_attr_out_len : ℕ
fuse_attr_out_len = 104

pub record FuseAttrOut : Type 0 where
  pub attr_valid : ℕ
  pub attr_valid_nsec : ℕ
  pub dummy : ℕ
  pub attr : FuseAttr

unfoldable pub from_bytes : List ℕ → Outcome FuseError FuseAttrOut
from_bytes buf =
    if ltb (length buf) fuse_attr_out_len
    then err (short_header (length buf) fuse_attr_out_len)
    else do
      attr_valid ← read_le 8 0 buf
      attr_valid_nsec ← read_le 4 8 buf
      dummy ← read_le 4 12 buf
      attr ← read_slice 16 fuse_attr_len buf >>= Attr.from_bytes
      ok (record {
        attr_valid = attr_valid;
        attr_valid_nsec = attr_valid_nsec;
        dummy = dummy;
        attr = attr;
      })

unfoldable pub write_to : FuseAttrOut → List ℕ → Outcome FuseError (List ℕ × ℕ)
write_to s buf =
    if ltb (length buf) fuse_attr_out_len
    then err (short_buffer (length buf) fuse_attr_out_len)
    else do
      buf ← write_slice 0 (to_le 8 s.attr_valid) buf
      buf ← write_slice 8 (to_le 4 s.attr_valid_nsec) buf
      buf ← write_slice 12 (to_le 4 s.dummy) buf
      buf ← write_part 16 fuse_attr_len (Attr.write_to s.attr) buf
      ok (buf, fuse_attr_out_len)

unfoldable pub to_bytes : FuseAttrOut → Outcome FuseError (List ℕ)
to_bytes s = as_array (write_to s (replicate fuse_attr_out_len 0))

abbrev pub wire : Wire FuseError FuseAttrOut
wire = record {
  len = fuse_attr_out_len;
  widths = 8 ∷ 4 ∷ 4 ∷ Attr.wire.widths;
  values = λ s. s.attr_valid ∷ s.attr_valid_nsec ∷ s.dummy ∷ Attr.wire.values s.attr;
  short_read = short_header;
  short_write = short_buffer;
  from_bytes = from_bytes;
  write_to = write_to;
  to_bytes = to_bytes;
}

abbrev front : FuseAttrOut → List (List ℕ)
front s = to_le 8 s.attr_valid ∷ to_le 4 s.attr_valid_nsec ∷ to_le 4 s.dummy ∷ []

abbrev back : FuseAttrOut → List ℕ
back s = encoded Attr.wire.widths (Attr.wire.values s.attr)

last_write :
    (s : FuseAttrOut) (buf : List ℕ)
    → AllFit wire.widths (wire.values s)
    → fuse_attr_out_len ≤ length buf
    → write_part 16 fuse_attr_len (Attr.write_to s.attr) buf ≡ ok (splice 16 (back s) buf)
last_write s buf fit room =
    write_part_wire Attr.wire Attr.wire-IsWire 16 s.attr buf fit.1.1.1 (omega arith)

writes_wire :
    (s : FuseAttrOut) (buf : List ℕ)
    → AllFit wire.widths (wire.values s)
    → fuse_attr_out_len ≤ length buf
    → write_to s buf
      ≡ ok (encoded wire.widths (wire.values s) ++ drop fuse_attr_out_len buf, fuse_attr_out_len)
unfolding write_to
writes_wire s buf fit room =
    let size = length-encoded wire.widths (wire.values s) fit in
    let begun = splice 0 (joined (front s)) buf in
    rw (le→not-ltb (length buf) fuse_attr_out_len room) (
      write_fields_in 0 (front s) buf
        (λ b.
          write_part 16 fuse_attr_len (Attr.write_to s.attr) b >>= λ b. ok (b, fuse_attr_out_len))
        (omega arith)
      ∙ ap (λ r. r >>= λ b. ok (b, fuse_attr_out_len))
          (last_write s begun fit (omega (arith, length-splice 0 (joined (front s)) buf)))
      ∙ ap (λ b. ok (b, fuse_attr_out_len))
          (splice-append 0 (joined (front s)) (back s) buf
            ∙ splice-zero (encoded wire.widths (wire.values s)) buf (omega (arith, size))))

pub wire-IsWire : IsWire wire
unfolding from_bytes write_to to_bytes
wire-IsWire = record {
  len_total = refl;
  reads = λ buf room.
      let (attr, read, same) = read_part Attr.wire Attr.wire-IsWire 16 buf (omega arith) in
      (
        record {
          attr_valid = of_le (slice 0 8 buf);
          attr_valid_nsec = of_le (slice 8 4 buf);
          dummy = of_le (slice 12 4 buf);
          attr = attr;
        },
        rw
            (
              le→not-ltb (length buf) fuse_attr_out_len room,
              read_le_in {E = FuseError} 8 0 buf (omega arith),
              read_le_in {E = FuseError} 4 8 buf (omega arith),
              read_le_in {E = FuseError} 4 12 buf (omega arith),
              read,
            )
            refl,
        λ k. of_le (slice 0 8 buf) ∷ of_le (slice 8 4 buf) ∷ of_le (slice 12 4 buf) ∷ same k,
      );
  reads_short = λ buf short. rw (lt→ltb (length buf) fuse_attr_out_len short);
  writes = λ s buf fit room. writes_wire s buf fit room;
  writes_short = λ s buf short. rw (lt→ltb (length buf) fuse_attr_out_len short);
  makes = λ s fit. ap as_array (writes_wire s (replicate fuse_attr_out_len 0) fit (omega arith));
  by_values = λ a b e k. record {
    attr_valid = nth 0 (e k);
    attr_valid_nsec = nth 1 (e k);
    dummy = nth 2 (e k);
    attr = Attr.wire-IsWire.by_values a.attr b.attr (ap (drop 3) e) k;
  };
}
