-- ===== src/Fuse/Body/ReadIn.antt =====
-- crates/virtio-fs/src/body.rs: `FuseReadIn`.
use rust_nano_vm.Prelude.{
  ℕ, refl, List, [], ◌∷◌, length, replicate, ltb, if◌then◌else◌, Outcome, ok, err, ◌>>=◌,
}
use rust_nano_vm.Bytes.Endian.{to_le}
use rust_nano_vm.Bytes.Buffer.{read_le, write_slice}
use rust_nano_vm.Bytes.Wire.{Wire, IsWire}
use rust_nano_vm.Fuse.Flat.{Flat, flat-IsWire}
use rust_nano_vm.Fuse.Error.{FuseError, short_header, short_buffer, as_array}

abbrev pub fuse_read_in_len : ℕ
fuse_read_in_len = 40

pub record FuseReadIn : Type 0 where
  pub fh : ℕ
  pub offset : ℕ
  pub size : ℕ
  pub read_flags : ℕ
  pub lock_owner : ℕ
  pub flags : ℕ
  pub padding : ℕ

unfoldable pub from_bytes : List ℕ → Outcome FuseError FuseReadIn
from_bytes buf =
    if ltb (length buf) fuse_read_in_len
    then err (short_header (length buf) fuse_read_in_len)
    else do
      fh ← read_le 8 0 buf
      offset ← read_le 8 8 buf
      size ← read_le 4 16 buf
      read_flags ← read_le 4 20 buf
      lock_owner ← read_le 8 24 buf
      flags ← read_le 4 32 buf
      padding ← read_le 4 36 buf
      ok (record {
        fh = fh;
        offset = offset;
        size = size;
        read_flags = read_flags;
        lock_owner = lock_owner;
        flags = flags;
        padding = padding;
      })

unfoldable pub write_to : FuseReadIn → List ℕ → Outcome FuseError (List ℕ × ℕ)
write_to s buf =
    if ltb (length buf) fuse_read_in_len
    then err (short_buffer (length buf) fuse_read_in_len)
    else do
      buf ← write_slice 0 (to_le 8 s.fh) buf
      buf ← write_slice 8 (to_le 8 s.offset) buf
      buf ← write_slice 16 (to_le 4 s.size) buf
      buf ← write_slice 20 (to_le 4 s.read_flags) buf
      buf ← write_slice 24 (to_le 8 s.lock_owner) buf
      buf ← write_slice 32 (to_le 4 s.flags) buf
      buf ← write_slice 36 (to_le 4 s.padding) buf
      ok (buf, fuse_read_in_len)

unfoldable pub to_bytes : FuseReadIn → Outcome FuseError (List ℕ)
to_bytes s = as_array (write_to s (replicate fuse_read_in_len 0))

abbrev pub wire : Wire FuseError FuseReadIn
wire = record {
  len = fuse_read_in_len;
  widths = 8 ∷ 8 ∷ 4 ∷ 4 ∷ 8 ∷ 4 ∷ 4 ∷ [];
  values = λ s. s.fh ∷ s.offset ∷ s.size ∷ s.read_flags ∷ s.lock_owner ∷ s.flags ∷ s.padding ∷ [];
  short_read = short_header;
  short_write = short_buffer;
  from_bytes = from_bytes;
  write_to = write_to;
  to_bytes = to_bytes;
}

flat : Flat wire
unfolding from_bytes write_to to_bytes
flat = record {
  build = λ fh offset size read_flags lock_owner flags padding. record {
    fh = fh;
    offset = offset;
    size = size;
    read_flags = read_flags;
    lock_owner = lock_owner;
    flags = flags;
    padding = padding;
  };
  all_fields = refl;
  reading = λ buf. refl;
  writing = λ s buf. refl;
  making = λ s. refl;
  rebuilt = λ s. refl;
  read_back = λ buf. refl;
}

pub wire-IsWire : IsWire wire
wire-IsWire = flat-IsWire flat
