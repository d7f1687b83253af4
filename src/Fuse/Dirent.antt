-- ===== src/Fuse/Dirent.antt =====
-- crates/virtio-fs/src/body.rs: the records of a directory listing, written and read.
pub mod Record
pub mod RoundTrip
use rust_nano_vm.Prelude.{
  ℕ, zero, suc, ◌+◌, ◌-◌, ◌*◌, ◌/◌, ◌^◌, Bool, true, false, ◌||◌, Option, none, some, List, [], ◌∷◌,
  ◌++◌, length, take, drop, replicate, ltb, leb, if◌then◌else◌, Outcome, ok, err,
}
use rust_nano_vm.Bytes.Buffer.{slice}
use rust_nano_vm.Fuse.Error.{FuseError, short_header}
use rust_nano_vm.Fuse.Body.DirentHeader.{
  FuseDirentHeader, fuse_dirent_hdr_len, from_bytes, to_bytes,
}

abbrev pub fuse_dirent_align : ℕ
fuse_dirent_align = 8

-- The mask clears the bits below the alignment.
unfoldable pub fuse_dirent_padded_size : ℕ → ℕ
fuse_dirent_padded_size name_len =
    (fuse_dirent_hdr_len + name_len + fuse_dirent_align - 1) / fuse_dirent_align * fuse_dirent_align

pub data DirentWriteError : Type 0 where
  buffer_full : (need remaining : ℕ) → DirentWriteError
  name_too_long : (len : ℕ) → DirentWriteError

pub record FuseDirentWriter : Type 0 where
  pub buf : List ℕ
  pub cap : ℕ

unfoldable pub with_capacity : ℕ → FuseDirentWriter
with_capacity cap = record { buf = []; cap = cap }

abbrev pub remaining : FuseDirentWriter → ℕ
remaining w = w.cap - length w.buf

abbrev pub Pushed : Type 0
Pushed = FuseDirentWriter × Outcome DirentWriteError (Unit {0})

-- The bytes of the header, the name and the padding, at the end of the buffer.
abbrev append_record : FuseDirentWriter → ℕ → List ℕ → Outcome FuseError (List ℕ) → Pushed
append_record w need name (ok header) =
    let pad = need - fuse_dirent_hdr_len - length name in
    (record w { buf = w.buf ++ (header ++ (name ++ replicate pad 0)) }, ok tt)
append_record w need name _ = (w, Outcome.panic)

unfoldable pub push : FuseDirentWriter → ℕ → ℕ → ℕ → List ℕ → Pushed
push w ino off ftype name =
    let need = fuse_dirent_padded_size (length name) in
    if leb (2 ^ 32) (length name)
    then (w, err (name_too_long (length name)))
    else if ltb w.cap (length w.buf + need)
    then (w, err (buffer_full need (remaining w)))
    else append_record w need name
        (to_bytes (record { ino = ino; off = off; namelen = length name; ftype = ftype }))

pub record FuseDirentIter : Type 0 where
  pub rest : List ℕ
  pub failed : Bool

unfoldable pub new : List ℕ → FuseDirentIter
new buf = record { rest = buf; failed = false }

abbrev pub Item : Type 0
Item = Option (Outcome FuseError (FuseDirentHeader × List ℕ))

abbrev is_empty : List ℕ → Bool
is_empty [] = true
is_empty (b ∷ bs) = false

-- `next` once a header is read.
unfoldable pub after_header :
    FuseDirentIter → Outcome FuseError FuseDirentHeader → Item × FuseDirentIter
after_header it (err e) = (some (err e), record it { failed = true })
after_header it Outcome.panic = (some Outcome.panic, it)
after_header it (ok hdr) =
    let total = fuse_dirent_padded_size hdr.namelen in
    if ltb (length it.rest) total
    then (some (err (short_header (length it.rest) total)), record it { failed = true })
    else (
      some (ok (hdr, slice fuse_dirent_hdr_len hdr.namelen it.rest)),
      record it { rest = drop total it.rest },
    )

unfoldable pub next_item : FuseDirentIter → Item × FuseDirentIter
next_item it =
    if it.failed || is_empty it.rest
    then (none, it)
    else if ltb (length it.rest) fuse_dirent_hdr_len
    then (
      some (err (short_header (length it.rest) fuse_dirent_hdr_len)),
      record it { failed = true },
    )
    else after_header it (from_bytes (take fuse_dirent_hdr_len it.rest))
