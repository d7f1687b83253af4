-- ===== src/Fuse/Body/DirentHeader.antt =====
-- crates/virtio-fs/src/body.rs: `FuseDirentHeader`.
use rust_nano_vm.Prelude.{
  ℕ, refl, List, [], ◌∷◌, length, replicate, ltb, if◌then◌else◌, Outcome, ok, err, ◌>>=◌,
}
use rust_nano_vm.Bytes.Endian.{to_le}
use rust_nano_vm.Bytes.Buffer.{read_le, write_slice}
use rust_nano_vm.Bytes.Wire.{Wire, IsWire}
use rust_nano_vm.Fuse.Flat.{Flat, flat-IsWire}
use rust_nano_vm.Fuse.Error.{FuseError, short_header, short_buffer, as_array}

abbrev pub fuse_dirent_hdr_len : ℕ
fuse_dirent_hdr_len = 24

pub record FuseDirentHeader : Type 0 where
  pub ino : ℕ
  pub off : ℕ
  pub namelen : ℕ
  pub ftype : ℕ

unfoldable pub from_bytes : List ℕ → Outcome FuseError FuseDirentHeader
from_bytes buf =
    if ltb (length buf) fuse_dirent_hdr_len
    then err (short_header (length buf) fuse_dirent_hdr_len)
    else do
      ino ← read_le 8 0 buf
      off ← read_le 8 8 buf
      namelen ← read_le 4 16 buf
      ftype ← read_le 4 20 buf
      ok (record { ino = ino; off = off; namelen = namelen; ftype = ftype })

unfoldable pub write_to : FuseDirentHeader → List ℕ → Outcome FuseError (List ℕ × ℕ)
write_to s buf =
    if ltb (length buf) fuse_dirent_hdr_len
    then err (short_buffer (length buf) fuse_dirent_hdr_len)
    else do
      buf ← write_slice 0 (to_le 8 s.ino) buf
      buf ← write_slice 8 (to_le 8 s.off) buf
      buf ← write_slice 16 (to_le 4 s.namelen) buf
      buf ← write_slice 20 (to_le 4 s.ftype) buf
      ok (buf, fuse_dirent_hdr_len)

unfoldable pub to_bytes : FuseDirentHeader → Outcome FuseError (List ℕ)
to_bytes s = as_array (write_to s (replicate fuse_dirent_hdr_len 0))

abbrev pub wire : Wire FuseError FuseDirentHeader
wire = record {
  len = fuse_dirent_hdr_len;
  widths = 8 ∷ 8 ∷ 4 ∷ 4 ∷ [];
  values = λ s. s.ino ∷ s.off ∷ s.namelen ∷ s.ftype ∷ [];
  short_read = short_header;
  short_write = short_buffer;
  from_bytes = from_bytes;
  write_to = write_to;
  to_bytes = to_bytes;
}

flat : Flat wire
unfolding from_bytes write_to to_bytes
flat = record {
  build =
      λ ino off namelen ftype. record { ino = ino; off = off; namelen = namelen; ftype = ftype };
  all_fields = refl;
  reading = λ buf. refl;
  writing = λ s buf. refl;
  making = λ s. refl;
  rebuilt = λ s. refl;
  read_back = λ buf. refl;
}

pub wire-IsWire : IsWire wire
wire-IsWire = flat-IsWire flat
