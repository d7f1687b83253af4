-- ===== src/Fuse/Body/WriteOut.antt =====
-- crates/virtio-fs/src/body.rs: `FuseWriteOut`.
use rust_nano_vm.Prelude.{
  ℕ, refl, List, [], ◌∷◌, length, replicate, ltb, if◌then◌else◌, Outcome, ok, err, ◌>>=◌,
}
use rust_nano_vm.Bytes.Endian.{to_le}
use rust_nano_vm.Bytes.Buffer.{read_le, write_slice}
use rust_nano_vm.Bytes.Wire.{Wire, IsWire}
use rust_nano_vm.Fuse.Flat.{Flat, flat-IsWire}
use rust_nano_vm.Fuse.Error.{FuseError, short_header, short_buffer, as_array}

abbrev pub fuse_write_out_len : ℕ
fuse_write_out_len = 8

pub record FuseWriteOut : Type 0 where
  pub size : ℕ
  pub padding : ℕ

unfoldable pub from_bytes : List ℕ → Outcome FuseError FuseWriteOut
from_bytes buf =
    if ltb (length buf) fuse_write_out_len
    then err (short_header (length buf) fuse_write_out_len)
    else do
      size ← read_le 4 0 buf
      padding ← read_le 4 4 buf
      ok (record { size = size; padding = padding })

unfoldable pub write_to : FuseWriteOut → List ℕ → Outcome FuseError (List ℕ × ℕ)
write_to s buf =
    if ltb (length buf) fuse_write_out_len
    then err (short_buffer (length buf) fuse_write_out_len)
    else do
      buf ← write_slice 0 (to_le 4 s.size) buf
      buf ← write_slice 4 (to_le 4 s.padding) buf
      ok (buf, fuse_write_out_len)

unfoldable pub to_bytes : FuseWriteOut → Outcome FuseError (List ℕ)
to_bytes s = as_array (write_to s (replicate fuse_write_out_len 0))

abbrev pub wire : Wire FuseError FuseWriteOut
wire = record {
  len = fuse_write_out_len;
  widths = 4 ∷ 4 ∷ [];
  values = λ s. s.size ∷ s.padding ∷ [];
  short_read = short_header;
  short_write = short_buffer;
  from_bytes = from_bytes;
  write_to = write_to;
  to_bytes = to_bytes;
}

flat : Flat wire
unfolding from_bytes write_to to_bytes
flat = record {
  build = λ size padding. record { size = size; padding = padding };
  all_fields = refl;
  reading = λ buf. refl;
  writing = λ s buf. refl;
  making = λ s. refl;
  rebuilt = λ s. refl;
  read_back = λ buf. refl;
}

pub wire-IsWire : IsWire wire
wire-IsWire = flat-IsWire flat
