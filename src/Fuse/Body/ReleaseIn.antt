-- ===== src/Fuse/Body/ReleaseIn.antt =====
-- crates/virtio-fs/src/body.rs: `FuseReleaseIn`.
use rust_nano_vm.Prelude.{
  ℕ, refl, List, [], ◌∷◌, length, replicate, ltb, if◌then◌else◌, Outcome, ok, err, ◌>>=◌,
}
use rust_nano_vm.Bytes.Endian.{to_le}
use rust_nano_vm.Bytes.Buffer.{read_le, write_slice}
use rust_nano_vm.Bytes.Wire.{Wire, IsWire}
use rust_nano_vm.Fuse.Flat.{Flat, flat-IsWire}
use rust_nano_vm.Fuse.Error.{FuseError, short_header, short_buffer, as_array}

abbrev pub fuse_release_in_len : ℕ
fuse_release_in_len = 24

pub record FuseReleaseIn : Type 0 where
  pub fh : ℕ
  pub flags : ℕ
  pub release_flags : ℕ
  pub lock_owner : ℕ

unfoldable pub from_bytes : List ℕ → Outcome FuseError FuseReleaseIn
from_bytes buf =
    if ltb (length buf) fuse_release_in_len
    then err (short_header (length buf) fuse_release_in_len)
    else do
      fh ← read_le 8 0 buf
      flags ← read_le 4 8 buf
      release_flags ← read_le 4 12 buf
      lock_owner ← read_le 8 16 buf
      ok (record { fh = fh; flags = flags; release_flags = release_flags; lock_owner = lock_owner })

unfoldable pub write_to : FuseReleaseIn → List ℕ → Outcome FuseError (List ℕ × ℕ)
write_to s buf =
    if ltb (length buf) fuse_release_in_len
    then err (short_buffer (length buf) fuse_release_in_len)
    else do
      buf ← write_slice 0 (to_le 8 s.fh) buf
      buf ← write_slice 8 (to_le 4 s.flags) buf
      buf ← write_slice 12 (to_le 4 s.release_flags) buf
      buf ← write_slice 16 (to_le 8 s.lock_owner) buf
      ok (buf, fuse_release_in_len)

unfoldable pub to_bytes : FuseReleaseIn → Outcome FuseError (List ℕ)
to_bytes s = as_array (write_to s (replicate fuse_release_in_len 0))

abbrev pub wire : Wire FuseError FuseReleaseIn
wire = record {
  len = fuse_release_in_len;
  widths = 8 ∷ 4 ∷ 4 ∷ 8 ∷ [];
  values = λ s. s.fh ∷ s.flags ∷ s.release_flags ∷ s.lock_owner ∷ [];
  short_read = short_header;
  short_write = short_buffer;
  from_bytes = from_bytes;
  write_to = write_to;
  to_bytes = to_bytes;
}

flat : Flat wire
unfolding from_bytes write_to to_bytes
flat = record {
  build = λ fh flags release_flags lock_owner. record {
    fh = fh;
    flags = flags;
    release_flags = release_flags;
    lock_owner = lock_owner;
  };
  all_fields = refl;
  reading = λ buf. refl;
  writing = λ s buf. refl;
  making = λ s. refl;
  rebuilt = λ s. refl;
  read_back = λ buf. refl;
}

pub wire-IsWire : IsWire wire
wire-IsWire = flat-IsWire flat
