-- ===== src/Fuse/Dirent/RoundTrip.antt =====
-- crates/virtio-fs/src/body.rs: a client that reads what a directory listing was written as.
use rust_nano_vm.Prelude.{
  ℕ, zero, suc, ◌+◌, ◌^◌, ◌≤◌, ◌<◌, ◌≡◌, refl, ap, sym, ◌∙◌, ◌⊎◌, inl, inr, arith, Bool, true,
  false, ◌||◌, none, some, List, [], ◌∷◌, ◌++◌, length, length-append, ltb, leb, lt→ltb, le→not-ltb,
  if◌then◌else◌, Outcome, ok, All, subst, le→leb,
}
use rust_nano_vm.Bytes.Wire.{append_assoc}
use rust_nano_vm.Fuse.Body.DirentHeader.{FuseDirentHeader}
use rust_nano_vm.Fuse.Dirent.{
  fuse_dirent_padded_size, DirentWriteError, FuseDirentWriter, with_capacity, push, FuseDirentIter,
  new, Item, next_item,
}
use rust_nano_vm.Bytes.Parts.{append_nil}
use rust_nano_vm.Fuse.Dirent.Record.{
  Entry, IsEntry, header_of, one, length-one, push_lem, next_item-one,
}

abbrev if_taken : Outcome DirentWriteError (Unit {0}) → Entry → List Entry → List Entry
if_taken (ok u) e taken = e ∷ taken
if_taken _ e taken = taken

-- A server that pushes one entry after the other: the writer, and the entries that were taken.
unfoldable pub push_all : FuseDirentWriter → List Entry → FuseDirentWriter × List Entry
push_all w [] = (w, [])
push_all w (e ∷ es) =
    let (w', r) = push w e.ino e.off e.ftype e.name in
    let (w'', taken) = push_all w' es in (w'', if_taken r e taken)

-- What a client has read, and whether it came to the end of the listing.
abbrev pub Reading : Type 0
Reading = List (FuseDirentHeader × List ℕ) × Bool

abbrev with_item : Item × FuseDirentIter → (FuseDirentIter → Reading) → Reading
with_item (none, it) onward = ([], true)
with_item (some (ok entry), it) onward =
    let (entries, ended) = onward it in (entry ∷ entries, ended)
with_item (some _, it) onward = ([], false)

-- A client that reads at most a number of items.
unfoldable pub read_all : ℕ → FuseDirentIter → Reading
read_all zero it = ([], false)
read_all (suc n) it = with_item (next_item it) (read_all n)

abbrev listing : List Entry → List ℕ
listing [] = []
listing (e ∷ es) = one e ++ listing es

abbrev pub seen : List Entry → List (FuseDirentHeader × List ℕ)
seen [] = []
seen (e ∷ es) = (header_of e, e.name) ∷ seen es

abbrev Fit : List Entry → Type 0
Fit [] = Unit {0}
Fit (e ∷ es) = IsEntry e × (length e.name < 2 ^ 32) × Fit es

at_end : next_item (new []) ≡ (none, new [])
unfolding next_item new
at_end = refl

read_all-listing :
    (es : List Entry) → Fit es → read_all (suc (length es)) (new (listing es)) ≡ (seen es, true)
unfolding read_all
read_all-listing [] h = ap (λ item. with_item item (read_all 0)) at_end
read_all-listing (e ∷ es) (fits, small, h) =
    ap (λ item. with_item item (read_all (suc (length es))))
      (next_item-one e (listing es) fits small)
    ∙ ap (λ (r : Reading). ((header_of e, e.name) ∷ r.0, r.1)) (read_all-listing es h)

-- The entries that there is room for, in a buffer of which some is used.
abbrev pub chosen : ℕ → ℕ → List Entry → List Entry
chosen cap used [] = []
chosen cap used (e ∷ es) =
    let size = fuse_dirent_padded_size (length e.name) in
    let skipped = chosen cap used es in
    let more = chosen cap (used + size) es in
    if leb (2 ^ 32) (length e.name) || ltb cap (used + size) then skipped else e ∷ more

-- What a server has written: the entries it has taken, in their order and within the cap.
record Written (w w' : FuseDirentWriter) (es taken : List Entry) : Type 0 where
  pub bytes : w'.buf ≡ w.buf ++ listing taken
  pub cap_same : w'.cap ≡ w.cap
  pub within : length w'.buf ≤ w'.cap
  pub fit : Fit taken
  pub all_chosen : taken ≡ chosen w.cap (length w.buf) es

-- An entry that the writer takes, and what is written behind it.
taken_first :
    (w : FuseDirentWriter) (e : Entry) (es : List Entry)
    → IsEntry e
    → length e.name < 2 ^ 32
    → length w.buf + fuse_dirent_padded_size (length e.name) ≤ w.cap
    → {w' : FuseDirentWriter} {taken : List Entry}
    → Written (record w { buf = w.buf ++ one e }) w' es taken
    → Written w w' (e ∷ es) (e ∷ taken)
taken_first w e es h small fits {w'} {taken} rest =
    let size : length (w.buf ++ one e) ≡ length w.buf + fuse_dirent_padded_size (length e.name) =
      omega (arith, length-one e, length-append w.buf (one e)) in
    let short : leb (2 ^ 32) (length e.name) ≡ false = ground (arith, small) in
    let there = le→not-ltb w.cap (length w.buf + fuse_dirent_padded_size (length e.name)) fits in
    record {
      bytes = rest.bytes ∙ append_assoc w.buf (one e) (listing taken);
      cap_same = rest.cap_same;
      within = rest.within;
      fit = (h, small, rest.fit);
      all_chosen =
          rw (short, there) (ap (◌∷◌ e) (rest.all_chosen ∙ ap (λ (n : ℕ). chosen w.cap n es) size));
    }

-- An entry that the writer refuses.
passed_over :
    (w : FuseDirentWriter) (e : Entry) (es : List Entry)
    → (2 ^ 32 ≤ length e.name) ⊎ (w.cap < length w.buf + fuse_dirent_padded_size (length e.name))
    → {w' : FuseDirentWriter} {taken : List Entry} → Written w w' es taken
    → Written w w' (e ∷ es) taken
passed_over w e es why p = record {
  bytes = p.bytes;
  cap_same = p.cap_same;
  within = p.within;
  fit = p.fit;
  all_chosen = p.all_chosen ∙ skipped why;
}
  where
    skip :
        (b : Bool)
        → chosen w.cap (length w.buf) es ≡ (
            if b || true
            then chosen w.cap (length w.buf) es
            else e ∷ chosen w.cap (length w.buf + fuse_dirent_padded_size (length e.name)) es)
    skip true = refl
    skip false = refl

    skipped :
        (2 ^ 32 ≤ length e.name) ⊎ (w.cap < length w.buf + fuse_dirent_padded_size (length e.name))
        → chosen w.cap (length w.buf) es ≡ chosen w.cap (length w.buf) (e ∷ es)
    skipped (inl big) = rw (le→leb (2 ^ 32) (length e.name) big) refl
    skipped (inr full) =
        rw (lt→ltb w.cap (length w.buf + fuse_dirent_padded_size (length e.name)) full)
          (skip (leb (2 ^ 32) (length e.name)))

push_all-Written :
    (w : FuseDirentWriter) (es : List Entry)
    → All IsEntry es
    → length w.buf ≤ w.cap
    → Written w (push_all w es).0 es (push_all w es).1
unfolding push_all
push_all-Written w [] h room = record {
  bytes = sym (append_nil w.buf);
  cap_same = refl;
  within = room;
  fit = tt;
  all_chosen = refl;
}
push_all-Written w (e ∷ es) (h, hs) room = elim (push_lem w e h) [
  | inl (small, fits, pushed) ↦ rw pushed (
      taken_first w e es h small fits (
        push_all-Written (record w { buf = w.buf ++ one e }) es hs
          (omega (arith, fits, length-one e, length-append w.buf (one e)))))
  | inr (inl (big, refused)) ↦
      rw refused (passed_over w e es (inl big) (push_all-Written w es hs room))
  | inr (inr (full, refused)) ↦
      rw refused (passed_over w e es (inr full) (push_all-Written w es hs room))
]

-- A server pushes any entries whose numbers fit their fields into a new writer. The writer takes
-- each that there is still room for and whose name is shorter than 2 ^ 32 bytes, and what it has
-- written is within its cap. A client that reads one item more than were taken reads exactly those,
-- in their order and with their names, and comes to the end.
pub read_all-push_all :
    (cap : ℕ) (es : List Entry)
    → All IsEntry es
    → (length (push_all (with_capacity cap) es).0.buf ≤ cap)
      × (read_all (suc (length (chosen cap 0 es))) (new (push_all (with_capacity cap) es).0.buf)
          ≡ (seen (chosen cap 0 es), true))
unfolding with_capacity
read_all-push_all cap es h =
    let w = push_all-Written (with_capacity cap) es h (omega arith) in
    let taken = (push_all (with_capacity cap) es).1 in
    (
      omega (arith, w.within, w.cap_same),
      subst
          (λ taken.
            read_all (suc (length taken)) (new (push_all (with_capacity cap) es).0.buf)
            ≡ (seen taken, true))
          w.all_chosen
          (ap (λ bytes. read_all (suc (length taken)) (new bytes)) w.bytes
            ∙ read_all-listing taken w.fit),
    )
