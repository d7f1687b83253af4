-- ===== src/Fuse/Body/MkdirIn.antt =====
-- crates/virtio-fs/src/body.rs: `FuseMkdirIn`.
use rust_nano_vm.Prelude.{
  ℕ, refl, List, [], ◌∷◌, length, replicate, ltb, if◌then◌else◌, Outcome, ok, err, ◌>>=◌,
}
use rust_nano_vm.Bytes.Endian.{to_le}
use rust_nano_vm.Bytes.Buffer.{read_le, write_slice}
use rust_nano_vm.Bytes.Wire.{Wire, IsWire}
use rust_nano_vm.Fuse.Flat.{Flat, flat-IsWire}
use rust_nano_vm.Fuse.Error.{FuseError, short_header, short_buffer, as_array}

abbrev pub fuse_mkdir_in_len : ℕ
fuse_mkdir_in_len = 8

pub record FuseMkdirIn : Type 0 where
  pub mode : ℕ
  pub umask : ℕ

unfoldable pub from_bytes : List ℕ → Outcome FuseError FuseMkdirIn
from_bytes buf =
    if ltb (length buf) fuse_mkdir_in_len
    then err (short_header (length buf) fuse_mkdir_in_len)
    else do
      mode ← read_le 4 0 buf
      umask ← read_le 4 4 buf
      ok (record { mode = mode; umask = umask })

unfoldable pub write_to : FuseMkdirIn → List ℕ → Outcome FuseError (List ℕ × ℕ)
write_to s buf =
    if ltb (length buf) fuse_mkdir_in_len
    then err (short_buffer (length buf) fuse_mkdir_in_len)
    else do
      buf ← write_slice 0 (to_le 4 s.mode) buf
      buf ← write_slice 4 (to_le 4 s.umask) buf
      ok (buf, fuse_mkdir_in_len)

unfoldable pub to_bytes : FuseMkdirIn → Outcome FuseError (List ℕ)
to_bytes s = as_array (write_to s (replicate fuse_mkdir_in_len 0))

abbrev pub wire : Wire FuseError FuseMkdirIn
wire = record {
  len = fuse_mkdir_in_len;
  widths = 4 ∷ 4 ∷ [];
  values = λ s. s.mode ∷ s.umask ∷ [];
  short_read = short_header;
  short_write = short_buffer;
  from_bytes = from_bytes;
  write_to = write_to;
  to_bytes = to_bytes;
}

flat : Flat wire
unfolding from_bytes write_to to_bytes
flat = record {
  build = λ mode umask. record { mode = mode; umask = umask };
  all_fields = refl;
  reading = λ buf. refl;
  writing = λ s buf. refl;
  making = λ s. refl;
  rebuilt = λ s. refl;
  read_back = λ buf. refl;
}

pub wire-IsWire : IsWire wire
wire-IsWire = flat-IsWire flat
