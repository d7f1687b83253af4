-- ===== src/Fuse/Body/GetattrIn.antt =====
-- crates/virtio-fs/src/body.rs: `FuseGetattrIn`.
use rust_nano_vm.Prelude.{
  ℕ, refl, List, [], ◌∷◌, length, replicate, ltb, if◌then◌else◌, Outcome, ok, err, ◌>>=◌,
}
use rust_nano_vm.Bytes.Endian.{to_le}
use rust_nano_vm.Bytes.Buffer.{read_le, write_slice}
use rust_nano_vm.Bytes.Wire.{Wire, IsWire}
use rust_nano_vm.Fuse.Flat.{Flat, flat-IsWire}
use rust_nano_vm.Fuse.Error.{FuseError, short_header, short_buffer, as_array}

abbrev pub fuse_getattr_in_len : ℕ
fuse_getattr_in_len = 16

pub record FuseGetattrIn : Type 0 where
  pub getattr_flags : ℕ
  pub dummy : ℕ
  pub fh : ℕ

unfoldable pub from_bytes : List ℕ → Outcome FuseError FuseGetattrIn
from_bytes buf =
    if ltb (length buf) fuse_getattr_in_len
    then err (short_header (length buf) fuse_getattr_in_len)
    else do
      getattr_flags ← read_le 4 0 buf
      dummy ← read_le 4 4 buf
      fh ← read_le 8 8 buf
      ok (record { getattr_flags = getattr_flags; dummy = dummy; fh = fh })

unfoldable pub write_to : FuseGetattrIn → List ℕ → Outcome FuseError (List ℕ × ℕ)
write_to s buf =
    if ltb (length buf) fuse_getattr_in_len
    then err (short_buffer (length buf) fuse_getattr_in_len)
    else do
      buf ← write_slice 0 (to_le 4 s.getattr_flags) buf
      buf ← write_slice 4 (to_le 4 s.dummy) buf
      buf ← write_slice 8 (to_le 8 s.fh) buf
      ok (buf, fuse_getattr_in_len)

unfoldable pub to_bytes : FuseGetattrIn → Outcome FuseError (List ℕ)
to_bytes s = as_array (write_to s (replicate fuse_getattr_in_len 0))

abbrev pub wire : Wire FuseError FuseGetattrIn
wire = record {
  len = fuse_getattr_in_len;
  widths = 4 ∷ 4 ∷ 8 ∷ [];
  values = λ s. s.getattr_flags ∷ s.dummy ∷ s.fh ∷ [];
  short_read = short_header;
  short_write = short_buffer;
  from_bytes = from_bytes;
  write_to = write_to;
  to_bytes = to_bytes;
}

flat : Flat wire
unfolding from_bytes write_to to_bytes
flat = record {
  build =
      λ getattr_flags dummy fh. record { getattr_flags = getattr_flags; dummy = dummy; fh = fh };
  all_fields = refl;
  reading = λ buf. refl;
  writing = λ s buf. refl;
  making = λ s. refl;
  rebuilt = λ s. refl;
  read_back = λ buf. refl;
}

pub wire-IsWire : IsWire wire
wire-IsWire = flat-IsWire flat
