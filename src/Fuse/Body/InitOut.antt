-- ===== src/Fuse/Body/InitOut.antt =====
-- crates/virtio-fs/src/body.rs: `FuseInitOut`.
use rust_nano_vm.Prelude.{
  ℕ, ◌≤◌, ◌≡◌, ap, ◌∙◌, ◌++◌, drop, refl, arith, List, [], ◌∷◌, length, replicate, ltb, lt→ltb,
  le→not-ltb, if◌then◌else◌, Outcome, ok, err, ◌>>=◌,
}
use rust_nano_vm.Bytes.Endian.{to_le, of_le}
use rust_nano_vm.Bytes.Buffer.{
  slice, splice, splice-zero, splice-append, length-splice, read_le, read_le_in, write_slice,
}
use rust_nano_vm.Bytes.Fields.{joined, write_fields_in}
use rust_nano_vm.Bytes.Wire.{Wire, IsWire, AllFit, encoded, length-encoded, values_at, nth}
use rust_nano_vm.Bytes.Parts.{read_words, write_words, read_words_in, write_words_in, append_nil}
use rust_nano_vm.Fuse.Error.{FuseError, short_header, short_buffer, as_array}

abbrev pub fuse_init_out_len : ℕ
fuse_init_out_len = 64

pub record FuseInitOut : Type 0 where
  pub major : ℕ
  pub minor : ℕ
  pub max_readahead : ℕ
  pub flags : ℕ
  pub max_background : ℕ
  pub congestion_threshold : ℕ
  pub max_write : ℕ
  pub time_gran : ℕ
  pub max_pages : ℕ
  pub map_alignment : ℕ
  pub flags2 : ℕ
  pub unused : List ℕ

unfoldable pub from_bytes : List ℕ → Outcome FuseError FuseInitOut
from_bytes buf =
    if ltb (length buf) fuse_init_out_len
    then err (short_header (length buf) fuse_init_out_len)
    else do
      major ← read_le 4 0 buf
      minor ← read_le 4 4 buf
      max_readahead ← read_le 4 8 buf
      flags ← read_le 4 12 buf
      max_background ← read_le 2 16 buf
      congestion_threshold ← read_le 2 18 buf
      max_write ← read_le 4 20 buf
      time_gran ← read_le 4 24 buf
      max_pages ← read_le 2 28 buf
      map_alignment ← read_le 2 30 buf
      flags2 ← read_le 4 32 buf
      unused ← read_words 7 36 buf
      ok (record {
        major = major;
        minor = minor;
        max_readahead = max_readahead;
        flags = flags;
        max_background = max_background;
        congestion_threshold = congestion_threshold;
        max_write = max_write;
        time_gran = time_gran;
        max_pages = max_pages;
        map_alignment = map_alignment;
        flags2 = flags2;
        unused = unused;
      })

unfoldable pub write_to : FuseInitOut → List ℕ → Outcome FuseError (List ℕ × ℕ)
write_to s buf =
    if ltb (length buf) fuse_init_out_len
    then err (short_buffer (length buf) fuse_init_out_len)
    else do
      buf ← write_slice 0 (to_le 4 s.major) buf
      buf ← write_slice 4 (to_le 4 s.minor) buf
      buf ← write_slice 8 (to_le 4 s.max_readahead) buf
      buf ← write_slice 12 (to_le 4 s.flags) buf
      buf ← write_slice 16 (to_le 2 s.max_background) buf
      buf ← write_slice 18 (to_le 2 s.congestion_threshold) buf
      buf ← write_slice 20 (to_le 4 s.max_write) buf
      buf ← write_slice 24 (to_le 4 s.time_gran) buf
      buf ← write_slice 28 (to_le 2 s.max_pages) buf
      buf ← write_slice 30 (to_le 2 s.map_alignment) buf
      buf ← write_slice 32 (to_le 4 s.flags2) buf
      buf ← write_words 36 s.unused buf
      ok (buf, fuse_init_out_len)

unfoldable pub to_bytes : FuseInitOut → Outcome FuseError (List ℕ)
to_bytes s = as_array (write_to s (replicate fuse_init_out_len 0))

abbrev pub wire : Wire FuseError FuseInitOut
wire = record {
  len = fuse_init_out_len;
  widths = 4 ∷ 4 ∷ 4 ∷ 4 ∷ 2 ∷ 2 ∷ 4 ∷ 4 ∷ 2 ∷ 2 ∷ 4 ∷ replicate 7 4;
  values = λ s.
      s.major ∷ s.minor ∷ s.max_readahead ∷ s.flags ∷ s.max_background ∷ s.congestion_threshold
      ∷ s.max_write ∷ s.time_gran ∷ s.max_pages ∷ s.map_alignment ∷ s.flags2 ∷ s.unused;
  short_read = short_header;
  short_write = short_buffer;
  from_bytes = from_bytes;
  write_to = write_to;
  to_bytes = to_bytes;
}

abbrev front : FuseInitOut → List (List ℕ)
front s =
    to_le 4 s.major
    ∷ to_le 4 s.minor
    ∷ to_le 4 s.max_readahead
    ∷ to_le 4 s.flags
    ∷ to_le 2 s.max_background
    ∷ to_le 2 s.congestion_threshold
    ∷ to_le 4 s.max_write
    ∷ to_le 4 s.time_gran
    ∷ to_le 2 s.max_pages
    ∷ to_le 2 s.map_alignment
    ∷ to_le 4 s.flags2
    ∷ []

abbrev back : FuseInitOut → List ℕ
back s = encoded (replicate 7 4) s.unused

last_write :
    (s : FuseInitOut) (buf : List ℕ)
    → AllFit wire.widths (wire.values s)
    → fuse_init_out_len ≤ length buf
    → write_words {E = FuseError} 36 s.unused buf ≡ ok (splice 36 (back s) buf)
last_write s buf fit room = write_words_in 36 s.unused buf 7 fit.1.1.1.1.1.1.1.1.1.1.1 (omega arith)

writes_wire :
    (s : FuseInitOut) (buf : List ℕ)
    → AllFit wire.widths (wire.values s)
    → fuse_init_out_len ≤ length buf
    → write_to s buf
      ≡ ok (encoded wire.widths (wire.values s) ++ drop fuse_init_out_len buf, fuse_init_out_len)
unfolding write_to
writes_wire s buf fit room =
    let size = length-encoded wire.widths (wire.values s) fit in
    let begun = splice 0 (joined (front s)) buf in
    rw (le→not-ltb (length buf) fuse_init_out_len room) (
      write_fields_in 0 (front s) buf
        (λ b. write_words 36 s.unused b >>= λ b. ok (b, fuse_init_out_len)) (omega arith)
      ∙ ap (λ r. r >>= λ b. ok (b, fuse_init_out_len))
          (last_write s begun fit (omega (arith, length-splice 0 (joined (front s)) buf)))
      ∙ ap (λ b. ok (b, fuse_init_out_len))
          (splice-append 0 (joined (front s)) (back s) buf
            ∙ splice-zero (encoded wire.widths (wire.values s)) buf (omega (arith, size))
            ∙ ap (λ (n : ℕ). encoded wire.widths (wire.values s) ++ drop n buf) size))

pub wire-IsWire : IsWire wire
unfolding from_bytes write_to to_bytes
wire-IsWire = record {
  len_total = refl;
  reads = λ buf room. (
    record {
      major = of_le (slice 0 4 buf);
      minor = of_le (slice 4 4 buf);
      max_readahead = of_le (slice 8 4 buf);
      flags = of_le (slice 12 4 buf);
      max_background = of_le (slice 16 2 buf);
      congestion_threshold = of_le (slice 18 2 buf);
      max_write = of_le (slice 20 4 buf);
      time_gran = of_le (slice 24 4 buf);
      max_pages = of_le (slice 28 2 buf);
      map_alignment = of_le (slice 30 2 buf);
      flags2 = of_le (slice 32 4 buf);
      unused = values_at 36 (replicate 7 4) buf;
    },
    rw
        (
          le→not-ltb (length buf) fuse_init_out_len room,
          read_le_in {E = FuseError} 4 0 buf (omega arith),
          read_le_in {E = FuseError} 4 4 buf (omega arith),
          read_le_in {E = FuseError} 4 8 buf (omega arith),
          read_le_in {E = FuseError} 4 12 buf (omega arith),
          read_le_in {E = FuseError} 2 16 buf (omega arith),
          read_le_in {E = FuseError} 2 18 buf (omega arith),
          read_le_in {E = FuseError} 4 20 buf (omega arith),
          read_le_in {E = FuseError} 4 24 buf (omega arith),
          read_le_in {E = FuseError} 2 28 buf (omega arith),
          read_le_in {E = FuseError} 2 30 buf (omega arith),
          read_le_in {E = FuseError} 4 32 buf (omega arith),
          read_words_in {E = FuseError} 7 36 buf (omega arith),
        )
        refl,
    refl,
  );
  reads_short = λ buf short. rw (lt→ltb (length buf) fuse_init_out_len short);
  writes = λ s buf fit room. writes_wire s buf fit room;
  writes_short = λ s buf short. rw (lt→ltb (length buf) fuse_init_out_len short);
  makes = λ s fit.
      ap as_array (writes_wire s (replicate fuse_init_out_len 0) fit (omega arith))
      ∙ ap ok (append_nil (encoded wire.widths (wire.values s)));
  by_values = λ a b e k. record {
    major = nth 0 (e k);
    minor = nth 1 (e k);
    max_readahead = nth 2 (e k);
    flags = nth 3 (e k);
    max_background = nth 4 (e k);
    congestion_threshold = nth 5 (e k);
    max_write = nth 6 (e k);
    time_gran = nth 7 (e k);
    max_pages = nth 8 (e k);
    map_alignment = nth 9 (e k);
    flags2 = nth 10 (e k);
    unused = drop 11 (e k);
  };
}
