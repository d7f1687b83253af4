-- ===== src/Fuse/Body/StatfsOut.antt =====
-- crates/virtio-fs/src/body.rs: `FuseStatfsOut`.
use rust_nano_vm.Prelude.{
  ℕ, ◌≤◌, ◌≡◌, ap, ◌∙◌, ◌++◌, drop, refl, arith, List, [], ◌∷◌, length, replicate, ltb, lt→ltb,
  le→not-ltb, if◌then◌else◌, Outcome, ok, err, ◌>>=◌,
}
use rust_nano_vm.Bytes.Endian.{to_le, of_le}
use rust_nano_vm.Bytes.Buffer.{
  slice, splice, splice-zero, splice-append, length-splice, read_le, read_le_in, write_slice,
}
use rust_nano_vm.Bytes.Fields.{joined, write_fields_in}
use rust_nano_vm.Bytes.Wire.{Wire, IsWire, AllFit, encoded, length-encoded, values_at, nth}
use rust_nano_vm.Bytes.Parts.{read_words, write_words, read_words_in, write_words_in, append_nil}
use rust_nano_vm.Fuse.Error.{FuseError, short_header, short_buffer, as_array}

abbrev pub fuse_statfs_out_len : ℕ
fuse_statfs_out_len = 80

pub record FuseStatfsOut : Type 0 where
  pub blocks : ℕ
  pub bfree : ℕ
  pub bavail : ℕ
  pub files : ℕ
  pub ffree : ℕ
  pub bsize : ℕ
  pub namelen : ℕ
  pub frsize : ℕ
  pub padding : ℕ
  pub spare : List ℕ

unfoldable pub from_bytes : List ℕ → Outcome FuseError FuseStatfsOut
from_bytes buf =
    if ltb (length buf) fuse_statfs_out_len
    then err (short_header (length buf) fuse_statfs_out_len)
    else do
      blocks ← read_le 8 0 buf
      bfree ← read_le 8 8 buf
      bavail ← read_le 8 16 buf
      files ← read_le 8 24 buf
      ffree ← read_le 8 32 buf
      bsize ← read_le 4 40 buf
      namelen ← read_le 4 44 buf
      frsize ← read_le 4 48 buf
      padding ← read_le 4 52 buf
      spare ← read_words 6 56 buf
      ok (record {
        blocks = blocks;
        bfree = bfree;
        bavail = bavail;
        files = files;
        ffree = ffree;
        bsize = bsize;
        namelen = namelen;
        frsize = frsize;
        padding = padding;
        spare = spare;
      })

unfoldable pub write_to : FuseStatfsOut → List ℕ → Outcome FuseError (List ℕ × ℕ)
write_to s buf =
    if ltb (length buf) fuse_statfs_out_len
    then err (short_buffer (length buf) fuse_statfs_out_len)
    else do
      buf ← write_slice 0 (to_le 8 s.blocks) buf
      buf ← write_slice 8 (to_le 8 s.bfree) buf
      buf ← write_slice 16 (to_le 8 s.bavail) buf
      buf ← write_slice 24 (to_le 8 s.files) buf
      buf ← write_slice 32 (to_le 8 s.ffree) buf
      buf ← write_slice 40 (to_le 4 s.bsize) buf
      buf ← write_slice 44 (to_le 4 s.namelen) buf
      buf ← write_slice 48 (to_le 4 s.frsize) buf
      buf ← write_slice 52 (to_le 4 s.padding) buf
      buf ← write_words 56 s.spare buf
      ok (buf, fuse_statfs_out_len)

unfoldable pub to_bytes : FuseStatfsOut → Outcome FuseError (List ℕ)
to_bytes s = as_array (write_to s (replicate fuse_statfs_out_len 0))

abbrev pub wire : Wire FuseError FuseStatfsOut
wire = record {
  len = fuse_statfs_out_len;
  widths = 8 ∷ 8 ∷ 8 ∷ 8 ∷ 8 ∷ 4 ∷ 4 ∷ 4 ∷ 4 ∷ replicate 6 4;
  values = λ s.
      s.blocks ∷ s.bfree ∷ s.bavail ∷ s.files ∷ s.ffree ∷ s.bsize ∷ s.namelen ∷ s.frsize ∷ s.padding
      ∷ s.spare;
  short_read = short_header;
  short_write = short_buffer;
  from_bytes = from_bytes;
  write_to = write_to;
  to_bytes = to_bytes;
}

abbrev front : FuseStatfsOut → List (List ℕ)
front s =
    to_le 8 s.blocks
    ∷ to_le 8 s.bfree
    ∷ to_le 8 s.bavail
    ∷ to_le 8 s.files
    ∷ to_le 8 s.ffree
    ∷ to_le 4 s.bsize
    ∷ to_le 4 s.namelen
    ∷ to_le 4 s.frsize
    ∷ to_le 4 s.padding
    ∷ []

abbrev back : FuseStatfsOut → List ℕ
back s = encoded (replicate 6 4) s.spare

last_write :
    (s : FuseStatfsOut) (buf : List ℕ)
    → AllFit wire.widths (wire.values s)
    → fuse_statfs_out_len ≤ length buf
    → write_words {E = FuseError} 56 s.spare buf ≡ ok (splice 56 (back s) buf)
last_write s buf fit room = write_words_in 56 s.spare buf 6 fit.1.1.1.1.1.1.1.1.1 (omega arith)

writes_wire :
    (s : FuseStatfsOut) (buf : List ℕ)
    → AllFit wire.widths (wire.values s)
    → fuse_statfs_out_len ≤ length buf
    → write_to s buf
      ≡ ok
          (encoded wire.widths (wire.values s) ++ drop fuse_statfs_out_len buf, fuse_statfs_out_len)
unfolding write_to
writes_wire s buf fit room =
    let size = length-encoded wire.widths (wire.values s) fit in
    let begun = splice 0 (joined (front s)) buf in
    rw (le→not-ltb (length buf) fuse_statfs_out_len room) (
      write_fields_in 0 (front s) buf
        (λ b. write_words 56 s.spare b >>= λ b. ok (b, fuse_statfs_out_len)) (omega arith)
      ∙ ap (λ r. r >>= λ b. ok (b, fuse_statfs_out_len))
          (last_write s begun fit (omega (arith, length-splice 0 (joined (front s)) buf)))
      ∙ ap (λ b. ok (b, fuse_statfs_out_len))
          (splice-append 0 (joined (front s)) (back s) buf
            ∙ splice-zero (encoded wire.widths (wire.values s)) buf (omega (arith, size))
            ∙ ap (λ (n : ℕ). encoded wire.widths (wire.values s) ++ drop n buf) size))

pub wire-IsWire : IsWire wire
unfolding from_bytes write_to to_bytes
wire-IsWire = record {
  len_total = refl;
  reads = λ buf room. (
    record {
      blocks = of_le (slice 0 8 buf);
      bfree = of_le (slice 8 8 buf);
      bavail = of_le (slice 16 8 buf);
      files = of_le (slice 24 8 buf);
      ffree = of_le (slice 32 8 buf);
      bsize = of_le (slice 40 4 buf);
      namelen = of_le (slice 44 4 buf);
      frsize = of_le (slice 48 4 buf);
      padding = of_le (slice 52 4 buf);
      spare = values_at 56 (replicate 6 4) buf;
    },
    rw
        (
          le→not-ltb (length buf) fuse_statfs_out_len room,
          read_le_in {E = FuseError} 8 0 buf (omega arith),
          read_le_in {E = FuseError} 8 8 buf (omega arith),
          read_le_in {E = FuseError} 8 16 buf (omega arith),
          read_le_in {E = FuseError} 8 24 buf (omega arith),
          read_le_in {E = FuseError} 8 32 buf (omega arith),
          read_le_in {E = FuseError} 4 40 buf (omega arith),
          read_le_in {E = FuseError} 4 44 buf (omega arith),
          read_le_in {E = FuseError} 4 48 buf (omega arith),
          read_le_in {E = FuseError} 4 52 buf (omega arith),
          read_words_in {E = FuseError} 6 56 buf (omega arith),
        )
        refl,
    refl,
  );
  reads_short = λ buf short. rw (lt→ltb (length buf) fuse_statfs_out_len short);
  writes = λ s buf fit room. writes_wire s buf fit room;
  writes_short = λ s buf short. rw (lt→ltb (length buf) fuse_statfs_out_len short);
  makes = λ s fit.
      ap as_array (writes_wire s (replicate fuse_statfs_out_len 0) fit (omega arith))
      ∙ ap ok (append_nil (encoded wire.widths (wire.values s)));
  by_values = λ a b e k. record {
    blocks = nth 0 (e k);
    bfree = nth 1 (e k);
    bavail = nth 2 (e k);
    files = nth 3 (e k);
    ffree = nth 4 (e k);
    bsize = nth 5 (e k);
    namelen = nth 6 (e k);
    frsize = nth 7 (e k);
    padding = nth 8 (e k);
    spare = drop 9 (e k);
  };
}
