-- ===== src/Fuse/Body/Attr.antt =====
-- crates/virtio-fs/src/body.rs: `FuseAttr`.
use rust_nano_vm.Prelude.{
  ℕ, refl, List, [], ◌∷◌, length, replicate, ltb, if◌then◌else◌, Outcome, ok, err, ◌>>=◌,
}
use rust_nano_vm.Bytes.Endian.{to_le}
use rust_nano_vm.Bytes.Buffer.{read_le, write_slice}
use rust_nano_vm.Bytes.Wire.{Wire, IsWire}
use rust_nano_vm.Fuse.Flat.{Flat, flat-IsWire}
use rust_nano_vm.Fuse.Error.{FuseError, short_header, short_buffer, as_array}

abbrev pub fuse_attr_len : ℕ
fuse_attr_len = 88

pub record FuseAttr : Type 0 where
  pub ino : ℕ
  pub size : ℕ
  pub blocks : ℕ
  pub atime : ℕ
  pub mtime : ℕ
  pub ctime : ℕ
  pub atimensec : ℕ
  pub mtimensec : ℕ
  pub ctimensec : ℕ
  pub mode : ℕ
  pub nlink : ℕ
  pub uid : ℕ
  pub gid : ℕ
  pub rdev : ℕ
  pub blksize : ℕ
  pub flags : ℕ

unfoldable pub from_bytes : List ℕ → Outcome FuseError FuseAttr
from_bytes buf =
    if ltb (length buf) fuse_attr_len then err (short_header (length buf) fuse_attr_len) else do
      ino ← read_le 8 0 buf
      size ← read_le 8 8 buf
      blocks ← read_le 8 16 buf
      atime ← read_le 8 24 buf
      mtime ← read_le 8 32 buf
      ctime ← read_le 8 40 buf
      atimensec ← read_le 4 48 buf
      mtimensec ← read_le 4 52 buf
      ctimensec ← read_le 4 56 buf
      mode ← read_le 4 60 buf
      nlink ← read_le 4 64 buf
      uid ← read_le 4 68 buf
      gid ← read_le 4 72 buf
      rdev ← read_le 4 76 buf
      blksize ← read_le 4 80 buf
      flags ← read_le 4 84 buf
      ok (record {
        ino = ino;
        size = size;
        blocks = blocks;
        atime = atime;
        mtime = mtime;
        ctime = ctime;
        atimensec = atimensec;
        mtimensec = mtimensec;
        ctimensec = ctimensec;
        mode = mode;
        nlink = nlink;
        uid = uid;
        gid = gid;
        rdev = rdev;
        blksize = blksize;
        flags = flags;
      })

unfoldable pub write_to : FuseAttr → List ℕ → Outcome FuseError (List ℕ × ℕ)
write_to s buf =
    if ltb (length buf) fuse_attr_len then err (short_buffer (length buf) fuse_attr_len) else do
      buf ← write_slice 0 (to_le 8 s.ino) buf
      buf ← write_slice 8 (to_le 8 s.size) buf
      buf ← write_slice 16 (to_le 8 s.blocks) buf
      buf ← write_slice 24 (to_le 8 s.atime) buf
      buf ← write_slice 32 (to_le 8 s.mtime) buf
      buf ← write_slice 40 (to_le 8 s.ctime) buf
      buf ← write_slice 48 (to_le 4 s.atimensec) buf
      buf ← write_slice 52 (to_le 4 s.mtimensec) buf
      buf ← write_slice 56 (to_le 4 s.ctimensec) buf
      buf ← write_slice 60 (to_le 4 s.mode) buf
      buf ← write_slice 64 (to_le 4 s.nlink) buf
      buf ← write_slice 68 (to_le 4 s.uid) buf
      buf ← write_slice 72 (to_le 4 s.gid) buf
      buf ← write_slice 76 (to_le 4 s.rdev) buf
      buf ← write_slice 80 (to_le 4 s.blksize) buf
      buf ← write_slice 84 (to_le 4 s.flags) buf
      ok (buf, fuse_attr_len)

unfoldable pub to_bytes : FuseAttr → Outcome FuseError (List ℕ)
to_bytes s = as_array (write_to s (replicate fuse_attr_len 0))

abbrev pub wire : Wire FuseError FuseAttr
wire = record {
  len = fuse_attr_len;
  widths = 8 ∷ 8 ∷ 8 ∷ 8 ∷ 8 ∷ 8 ∷ 4 ∷ 4 ∷ 4 ∷ 4 ∷ 4 ∷ 4 ∷ 4 ∷ 4 ∷ 4 ∷ 4 ∷ [];
  values = λ s.
      s.ino ∷ s.size ∷ s.blocks ∷ s.atime ∷ s.mtime ∷ s.ctime ∷ s.atimensec ∷ s.mtimensec
      ∷ s.ctimensec ∷ s.mode ∷ s.nlink ∷ s.uid ∷ s.gid ∷ s.rdev ∷ s.blksize ∷ s.flags ∷ [];
  short_read = short_header;
  short_write = short_buffer;
  from_bytes = from_bytes;
  write_to = write_to;
  to_bytes = to_bytes;
}

flat : Flat wire
unfolding from_bytes write_to to_bytes
flat = record {
  build =
      λ ino size blocks atime mtime ctime atimensec mtimensec ctimensec mode nlink uid gid rdev
          blksize flags.
        record {
          ino = ino;
          size = size;
          blocks = blocks;
          atime = atime;
          mtime = mtime;
          ctime = ctime;
          atimensec = atimensec;
          mtimensec = mtimensec;
          ctimensec = ctimensec;
          mode = mode;
          nlink = nlink;
          uid = uid;
          gid = gid;
          rdev = rdev;
          blksize = blksize;
          flags = flags;
        };
  all_fields = refl;
  reading = λ buf. refl;
  writing = λ s buf. refl;
  making = λ s. refl;
  rebuilt = λ s. refl;
  read_back = λ buf. refl;
}

pub wire-IsWire : IsWire wire
wire-IsWire = flat-IsWire flat
