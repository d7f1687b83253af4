-- ===== src/Fuse/Body/InitIn.antt =====
-- crates/virtio-fs/src/body.rs: `FuseInitIn`.
use rust_nano_vm.Prelude.{
  ℕ, refl, List, [], ◌∷◌, length, replicate, ltb, if◌then◌else◌, Outcome, ok, err, ◌>>=◌,
}
use rust_nano_vm.Bytes.Endian.{to_le}
use rust_nano_vm.Bytes.Buffer.{read_le, write_slice}
use rust_nano_vm.Bytes.Wire.{Wire, IsWire}
use rust_nano_vm.Fuse.Flat.{Flat, flat-IsWire}
use rust_nano_vm.Fuse.Error.{FuseError, short_header, short_buffer, as_array}

abbrev pub fuse_init_in_len : ℕ
fuse_init_in_len = 16

pub record FuseInitIn : Type 0 where
  pub major : ℕ
  pub minor : ℕ
  pub max_readahead : ℕ
  pub flags : ℕ

unfoldable pub from_bytes : List ℕ → Outcome FuseError FuseInitIn
from_bytes buf =
    if ltb (length buf) fuse_init_in_len
    then err (short_header (length buf) fuse_init_in_len)
    else do
      major ← read_le 4 0 buf
      minor ← read_le 4 4 buf
      max_readahead ← read_le 4 8 buf
      flags ← read_le 4 12 buf
      ok (record { major = major; minor = minor; max_readahead = max_readahead; flags = flags })

unfoldable pub write_to : FuseInitIn → List ℕ → Outcome FuseError (List ℕ × ℕ)
write_to s buf =
    if ltb (length buf) fuse_init_in_len
    then err (short_buffer (length buf) fuse_init_in_len)
    else do
      buf ← write_slice 0 (to_le 4 s.major) buf
      buf ← write_slice 4 (to_le 4 s.minor) buf
      buf ← write_slice 8 (to_le 4 s.max_readahead) buf
      buf ← write_slice 12 (to_le 4 s.flags) buf
      ok (buf, fuse_init_in_len)

unfoldable pub to_bytes : FuseInitIn → Outcome FuseError (List ℕ)
to_bytes s = as_array (write_to s (replicate fuse_init_in_len 0))

abbrev pub wire : Wire FuseError FuseInitIn
wire = record {
  len = fuse_init_in_len;
  widths = 4 ∷ 4 ∷ 4 ∷ 4 ∷ [];
  values = λ s. s.major ∷ s.minor ∷ s.max_readahead ∷ s.flags ∷ [];
  short_read = short_header;
  short_write = short_buffer;
  from_bytes = from_bytes;
  write_to = write_to;
  to_bytes = to_bytes;
}

flat : Flat wire
unfolding from_bytes write_to to_bytes
flat = record {
  build = λ major minor max_readahead flags. record {
    major = major;
    minor = minor;
    max_readahead = max_readahead;
    flags = flags;
  };
  all_fields = refl;
  reading = λ buf. refl;
  writing = λ s buf. refl;
  making = λ s. refl;
  rebuilt = λ s. refl;
  read_back = λ buf. refl;
}

pub wire-IsWire : IsWire wire
wire-IsWire = flat-IsWire flat
