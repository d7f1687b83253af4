-- ===== src/Fuse/Dirent/Record.antt =====
-- crates/virtio-fs/src/body.rs: one record of a directory listing, pushed and read back.
use rust_nano_vm.Prelude.{
  ℕ, ◌+◌, ◌-◌, ◌^◌, ◌≤◌, ◌<◌, ◌≡◌, refl, ap, sym, ◌∙◌, ◌⊎◌, inl, inr, arith, false, some, List, [],
  ◌++◌, length, take, drop, replicate, length-append, length-replicate, ltb, leb, leb→le, ltb→lt,
  le→not-ltb, Bool-cases, ok, err,
}
use rust_nano_vm.Bytes.Endian.{IsU32, IsU64}
use rust_nano_vm.Bytes.Buffer.{slice}
use rust_nano_vm.Bytes.Wire.{
  AllFit, encoded, from_bytes-encoded, drop-append, take-append, append_assoc,
}
use rust_nano_vm.Fuse.Body.DirentHeader.{FuseDirentHeader, wire, wire-IsWire}
use rust_nano_vm.Fuse.Dirent.{
  fuse_dirent_padded_size, name_too_long, buffer_full, FuseDirentWriter, remaining, push, new,
  after_header, next_item,
}

-- What is asked to be listed.
pub record Entry : Type 0 where
  pub ino : ℕ
  pub off : ℕ
  pub ftype : ℕ
  pub name : List ℕ

abbrev pub IsEntry : Entry → Type 0
IsEntry e = IsU64 e.ino × IsU64 e.off × IsU32 e.ftype

abbrev pub header_of : Entry → FuseDirentHeader
header_of e = record { ino = e.ino; off = e.off; namelen = length e.name; ftype = e.ftype }

abbrev pub bytes_of : Entry → List ℕ
bytes_of e = encoded wire.widths (wire.values (header_of e))

abbrev padding : Entry → List ℕ
padding e = replicate (fuse_dirent_padded_size (length e.name) - 24 - length e.name) 0

abbrev pub one : Entry → List ℕ
one e = bytes_of e ++ (e.name ++ padding e)

header-AllFit :
    (e : Entry)
    → IsEntry e
    → length e.name < 2 ^ 32
    → AllFit wire.widths (wire.values (header_of e))
header-AllFit e (ino, off, ftype) small = (ino, (off, (small, (ftype, tt))))

padded : (n : ℕ) → 24 + n ≤ fuse_dirent_padded_size n
unfolding fuse_dirent_padded_size
padded n = omega arith

pub length-one : (e : Entry) → length (one e) ≡ fuse_dirent_padded_size (length e.name)
length-one e = omega (
  arith,
  padded (length e.name),
  length-append e.name (padding e),
  length-replicate {A = ℕ} (fuse_dirent_padded_size (length e.name) - 24 - length e.name) 0,
)

-- A push adds the record's bytes within the cap, or leaves the writer as it is.
pub push_lem :
    (w : FuseDirentWriter) (e : Entry)
    → IsEntry e
    → ((length e.name < 2 ^ 32)
        × (length w.buf + fuse_dirent_padded_size (length e.name) ≤ w.cap)
        × (push w e.ino e.off e.ftype e.name ≡ (record w { buf = w.buf ++ one e }, ok tt)))
      ⊎ ((2 ^ 32 ≤ length e.name)
          × (push w e.ino e.off e.ftype e.name ≡ (w, err (name_too_long (length e.name)))))
      ⊎ ((w.cap < length w.buf + fuse_dirent_padded_size (length e.name))
          × (push w e.ino e.off e.ftype e.name
              ≡ (w, err (buffer_full (fuse_dirent_padded_size (length e.name)) (remaining w)))))
unfolding push
push_lem w e h = elim (Bool-cases (leb (2 ^ 32) (length e.name))) [
  | inl big ↦ inr (inl (leb→le _ _ big, rw (push, big) refl))
  | inr small ↦
      elim (Bool-cases (ltb w.cap (length w.buf + fuse_dirent_padded_size (length e.name)))) [
        | inl full ↦ inr (inr (ltb→lt _ _ full, rw (push, small, full) refl))
        | inr fits ↦
            let short : length e.name < 2 ^ 32 = ground (arith, small) in
            inl (
              short,
              ground (arith, fits),
              rw (push, small, fits, wire-IsWire.makes (header_of e) (header-AllFit e h short))
                  refl,
            )
      ]
]

-- The record at the front of a listing is its next item.
pub next_item-one :
    (e : Entry) (rest : List ℕ)
    → IsEntry e
    → length e.name < 2 ^ 32
    → next_item (new (one e ++ rest)) ≡ (some (ok (header_of e, e.name)), new rest)
unfolding next_item after_header new
next_item-one e rest h small =
    let size = length-one e in
    let room : ltb (length (one e ++ rest)) 24 ≡ false =
      le→not-ltb (length (one e ++ rest)) 24 (omega arith) in
    let enough : ltb (length (one e ++ rest)) (fuse_dirent_padded_size (length e.name)) ≡ false =
      le→not-ltb (length (one e ++ rest)) (fuse_dirent_padded_size (length e.name))
        (omega (arith, size, length-append (one e) rest)) in
    let name : slice 24 (length e.name) (one e ++ rest) ≡ e.name =
      ap (take (length e.name)) (append_assoc e.name (padding e) rest)
      ∙ take-append e.name (padding e ++ rest) (length e.name) refl in
    let behind : drop (fuse_dirent_padded_size (length e.name)) (one e ++ rest) ≡ rest =
      drop-append (one e) rest (fuse_dirent_padded_size (length e.name)) (sym size) in
    rw
      (
        room,
        from_bytes-encoded wire wire-IsWire (header_of e) [] (header-AllFit e h small),
        after_header,
        enough,
      )
      (λ k. (some (ok (header_of e, name k)), record { rest = behind k; failed = false }))
