-- ===== src/Fuse/Body/OpenOut.antt =====
-- crates/virtio-fs/src/body.rs: `FuseOpenOut`.
use rust_nano_vm.Prelude.{
  ℕ, refl, List, [], ◌∷◌, length, replicate, ltb, if◌then◌else◌, Outcome, ok, err, ◌>>=◌,
}
use rust_nano_vm.Bytes.Endian.{to_le}
use rust_nano_vm.Bytes.Buffer.{read_le, write_slice}
use rust_nano_vm.Bytes.Wire.{Wire, IsWire}
use rust_nano_vm.Fuse.Flat.{Flat, flat-IsWire}
use rust_nano_vm.Fuse.Error.{FuseError, short_header, short_buffer, as_array}

abbrev pub fuse_open_out_len : ℕ
fuse_open_out_len = 16

pub record FuseOpenOut : Type 0 where
  pub fh : ℕ
  pub open_flags : ℕ
  pub padding : ℕ

unfoldable pub from_bytes : List ℕ → Outcome FuseError FuseOpenOut
from_bytes buf =
    if ltb (length buf) fuse_open_out_len
    then err (short_header (length buf) fuse_open_out_len)
    else do
      fh ← read_le 8 0 buf
      open_flags ← read_le 4 8 buf
      padding ← read_le 4 12 buf
      ok (record { fh = fh; open_flags = open_flags; padding = padding })

unfoldable pub write_to : FuseOpenOut → List ℕ → Outcome FuseError (List ℕ × ℕ)
write_to s buf =
    if ltb (length buf) fuse_open_out_len
    then err (short_buffer (length buf) fuse_open_out_len)
    else do
      buf ← write_slice 0 (to_le 8 s.fh) buf
      buf ← write_slice 8 (to_le 4 s.open_flags) buf
      buf ← write_slice 12 (to_le 4 s.padding) buf
      ok (buf, fuse_open_out_len)

unfoldable pub to_bytes : FuseOpenOut → Outcome FuseError (List ℕ)
to_bytes s = as_array (write_to s (replicate fuse_open_out_len 0))

abbrev pub wire : Wire FuseError FuseOpenOut
wire = record {
  len = fuse_open_out_len;
  widths = 8 ∷ 4 ∷ 4 ∷ [];
  values = λ s. s.fh ∷ s.open_flags ∷ s.padding ∷ [];
  short_read = short_header;
  short_write = short_buffer;
  from_bytes = from_bytes;
  write_to = write_to;
  to_bytes = to_bytes;
}

flat : Flat wire
unfolding from_bytes write_to to_bytes
flat = record {
  build = λ fh open_flags padding. record { fh = fh; open_flags = open_flags; padding = padding };
  all_fields = refl;
  reading = λ buf. refl;
  writing = λ s buf. refl;
  making = λ s. refl;
  rebuilt = λ s. refl;
  read_back = λ buf. refl;
}

pub wire-IsWire : IsWire wire
wire-IsWire = flat-IsWire flat
