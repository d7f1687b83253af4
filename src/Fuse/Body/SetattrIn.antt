-- ===== src/Fuse/Body/SetattrIn.antt =====
-- crates/virtio-fs/src/body.rs: `FuseSetattrIn`.
use rust_nano_vm.Prelude.{
  ℕ, refl, List, [], ◌∷◌, length, replicate, ltb, if◌then◌else◌, Outcome, ok, err, ◌>>=◌,
}
use rust_nano_vm.Bytes.Endian.{to_le}
use rust_nano_vm.Bytes.Buffer.{read_le, write_slice}
use rust_nano_vm.Bytes.Wire.{Wire, IsWire}
use rust_nano_vm.Fuse.Flat.{Flat, flat-IsWire}
use rust_nano_vm.Fuse.Error.{FuseError, short_header, short_buffer, as_array}

abbrev pub fuse_setattr_in_len : ℕ
fuse_setattr_in_len = 88

pub record FuseSetattrIn : Type 0 where
  pub valid : ℕ
  pub padding : ℕ
  pub fh : ℕ
  pub size : ℕ
  pub lock_owner : ℕ
  pub atime : ℕ
  pub mtime : ℕ
  pub ctime : ℕ
  pub atimensec : ℕ
  pub mtimensec : ℕ
  pub ctimensec : ℕ
  pub mode : ℕ
  pub unused4 : ℕ
  pub uid : ℕ
  pub gid : ℕ
  pub unused5 : ℕ

unfoldable pub from_bytes : List ℕ → Outcome FuseError FuseSetattrIn
from_bytes buf =
    if ltb (length buf) fuse_setattr_in_len
    then err (short_header (length buf) fuse_setattr_in_len)
    else do
      valid ← read_le 4 0 buf
      padding ← read_le 4 4 buf
      fh ← read_le 8 8 buf
      size ← read_le 8 16 buf
      lock_owner ← read_le 8 24 buf
      atime ← read_le 8 32 buf
      mtime ← read_le 8 40 buf
      ctime ← read_le 8 48 buf
      atimensec ← read_le 4 56 buf
      mtimensec ← read_le 4 60 buf
      ctimensec ← read_le 4 64 buf
      mode ← read_le 4 68 buf
      unused4 ← read_le 4 72 buf
      uid ← read_le 4 76 buf
      gid ← read_le 4 80 buf
      unused5 ← read_le 4 84 buf
      ok (record {
        valid = valid;
        padding = padding;
        fh = fh;
        size = size;
        lock_owner = lock_owner;
        atime = atime;
        mtime = mtime;
        ctime = ctime;
        atimensec = atimensec;
        mtimensec = mtimensec;
        ctimensec = ctimensec;
        mode = mode;
        unused4 = unused4;
        uid = uid;
        gid = gid;
        unused5 = unused5;
      })

unfoldable pub write_to : FuseSetattrIn → List ℕ → Outcome FuseError (List ℕ × ℕ)
write_to s buf =
    if ltb (length buf) fuse_setattr_in_len
    then err (short_buffer (length buf) fuse_setattr_in_len)
    else do
      buf ← write_slice 0 (to_le 4 s.valid) buf
      buf ← write_slice 4 (to_le 4 s.padding) buf
      buf ← write_slice 8 (to_le 8 s.fh) buf
      buf ← write_slice 16 (to_le 8 s.size) buf
      buf ← write_slice 24 (to_le 8 s.lock_owner) buf
      buf ← write_slice 32 (to_le 8 s.atime) buf
      buf ← write_slice 40 (to_le 8 s.mtime) buf
      buf ← write_slice 48 (to_le 8 s.ctime) buf
      buf ← write_slice 56 (to_le 4 s.atimensec) buf
      buf ← write_slice 60 (to_le 4 s.mtimensec) buf
      buf ← write_slice 64 (to_le 4 s.ctimensec) buf
      buf ← write_slice 68 (to_le 4 s.mode) buf
      buf ← write_slice 72 (to_le 4 s.unused4) buf
      buf ← write_slice 76 (to_le 4 s.uid) buf
      buf ← write_slice 80 (to_le 4 s.gid) buf
      buf ← write_slice 84 (to_le 4 s.unused5) buf
      ok (buf, fuse_setattr_in_len)

unfoldable pub to_bytes : FuseSetattrIn → Outcome FuseError (List ℕ)
to_bytes s = as_array (write_to s (replicate fuse_setattr_in_len 0))

abbrev pub wire : Wire FuseError FuseSetattrIn
wire = record {
  len = fuse_setattr_in_len;
  widths = 4 ∷ 4 ∷ 8 ∷ 8 ∷ 8 ∷ 8 ∷ 8 ∷ 8 ∷ 4 ∷ 4 ∷ 4 ∷ 4 ∷ 4 ∷ 4 ∷ 4 ∷ 4 ∷ [];
  values = λ s.
      s.valid ∷ s.padding ∷ s.fh ∷ s.size ∷ s.lock_owner ∷ s.atime ∷ s.mtime ∷ s.ctime ∷ s.atimensec
      ∷ s.mtimensec ∷ s.ctimensec ∷ s.mode ∷ s.unused4 ∷ s.uid ∷ s.gid ∷ s.unused5 ∷ [];
  short_read = short_header;
  short_write = short_buffer;
  from_bytes = from_bytes;
  write_to = write_to;
  to_bytes = to_bytes;
}

flat : Flat wire
unfolding from_bytes write_to to_bytes
flat = record {
  build =
      λ valid padding fh size lock_owner atime mtime ctime atimensec mtimensec ctimensec mode
          unused4 uid gid unused5.
        record {
          valid = valid;
          padding = padding;
          fh = fh;
          size = size;
          lock_owner = lock_owner;
          atime = atime;
          mtime = mtime;
          ctime = ctime;
          atimensec = atimensec;
          mtimensec = mtimensec;
          ctimensec = ctimensec;
          mode = mode;
          unused4 = unused4;
          uid = uid;
          gid = gid;
          unused5 = unused5;
        };
  all_fields = refl;
  reading = λ buf. refl;
  writing = λ s buf. refl;
  making = λ s. refl;
  rebuilt = λ s. refl;
  read_back = λ buf. refl;
}

pub wire-IsWire : IsWire wire
wire-IsWire = flat-IsWire flat
