-- ===== src/VirtQueue/Table/Parsed.antt =====
-- crates/virtio-queue/src/lib.rs: what the table parsers return.
use rust_nano_vm.Prelude.{
  ℕ, zero, suc, ◌+◌, ◌*◌, ◌≤◌, ◌<◌, ◌≡◌, refl, ap, ◌∙◌, arith, ◌⊎◌, inl, inr, List, [], ◌∷◌, length,
  some, get_elem?, lt→ltb, le→not-ltb, lt_or_le, ok, err,
}
use rust_nano_vm.Bytes.Buffer.{slice, read_slice_in, length-slice}
use rust_nano_vm.VirtQueue.Error.{
  QueueError, short_table, short_packed_ring, bad_queue_size, max_queue_size,
}
use rust_nano_vm.VirtQueue.Size.{IsSize, validate_qsize_cases}
use rust_nano_vm.VirtQueue.Desc.{Descriptor}
use rust_nano_vm.VirtQueue.Desc.RoundTrip.{decoded, from_bytes-decoded}
use rust_nano_vm.VirtQueue.Packed.RoundTrip
use rust_nano_vm.VirtQueue.Table.{
  descriptors_from, parse_descriptor_table, packed_from, parse_packed_ring,
}

-- The entries `i .. i + n` of the table, each read at its own offset.
abbrev pub entries {ℓ} : {A : Type ℓ} → (List ℕ → A) → ℕ → ℕ → List ℕ → List A
entries f zero i buf = []
entries f (suc n) i buf = f (slice (i * 16) 16 buf) ∷ entries f n (i + 1) buf

length-entries {ℓ} :
    {A : Type ℓ} (f : List ℕ → A) (n i : ℕ) (buf : List ℕ) → length (entries f n i buf) ≡ n
length-entries f zero i buf = refl
length-entries f (suc n) i buf = ap suc (length-entries f n (i + 1) buf)

get_elem?-entries {ℓ} :
    {A : Type ℓ} (f : List ℕ → A) (n i k : ℕ) (buf : List ℕ)
    → k < n
    → get_elem? (entries f n i buf) k ≡ some (f (slice ((i + k) * 16) 16 buf))
get_elem?-entries f zero i k buf h = elim h [ ]
get_elem?-entries f (suc n) i zero buf h =
    ap (λ (j : ℕ). some (f (slice (j * 16) 16 buf))) (omega arith)
get_elem?-entries f (suc n) i (suc k) buf h =
    get_elem?-entries f n (i + 1) k buf (omega arith)
    ∙ ap (λ (j : ℕ). some (f (slice (j * 16) 16 buf))) (omega arith)

descriptors_from-entries :
    (n i : ℕ) (buf : List ℕ)
    → (i + n) * 16 ≤ length buf
    → descriptors_from n i buf ≡ ok (entries decoded n i buf)
unfolding descriptors_from
descriptors_from-entries zero i buf h = refl
descriptors_from-entries (suc n) i buf h =
    let room : i * 16 + 16 ≤ length buf = omega arith in
    let whole : 16 ≤ length (slice (i * 16) 16 buf) =
      omega (arith, length-slice (i * 16) 16 buf room) in
    rw (
      read_slice_in {E = QueueError} (i * 16) 16 buf room,
      from_bytes-decoded (slice (i * 16) 16 buf) whole,
      descriptors_from-entries n (i + 1) buf (omega arith),
    )

packed_from-entries :
    (n i : ℕ) (buf : List ℕ)
    → (i + n) * 16 ≤ length buf
    → packed_from n i buf ≡ ok (entries RoundTrip.decoded n i buf)
unfolding packed_from
packed_from-entries zero i buf h = refl
packed_from-entries (suc n) i buf h =
    let room : i * 16 + 16 ≤ length buf = omega arith in
    let whole : 16 ≤ length (slice (i * 16) 16 buf) =
      omega (arith, length-slice (i * 16) 16 buf room) in
    rw (
      read_slice_in {E = QueueError} (i * 16) 16 buf room,
      RoundTrip.from_bytes-decoded (slice (i * 16) 16 buf) whole,
      packed_from-entries n (i + 1) buf (omega arith),
    )

-- The parser of the descriptor table refuses a size that is no power of two up to 32768, refuses a
-- buffer shorter than the table, and of any other buffer gives as many descriptors as the size,
-- each read at its own offset, with no index out of range.
pub parse_descriptor_table_lem :
    (buf : List ℕ) (q : ℕ)
    → ((IsSize q → ⊥) × (parse_descriptor_table buf q ≡ err (bad_queue_size q max_queue_size)))
      ⊎ (IsSize q
          × (length buf < q * 16)
          × (parse_descriptor_table buf q ≡ err (short_table (length buf) (q * 16) q)))
      ⊎ (IsSize q
          × (q * 16 ≤ length buf)
          × (parse_descriptor_table buf q ≡ ok (entries decoded q 0 buf)))
unfolding parse_descriptor_table
parse_descriptor_table_lem buf q = elim (validate_qsize_cases q) [
  | inr (bad, e) ↦ inl (bad, rw e)
  | inl (size, e) ↦ elim (lt_or_le (length buf) (q * 16)) [
    | inl short ↦ inr (inl (size, short, rw (e, lt→ltb (length buf) (q * 16) short)))
    | inr room ↦ inr (
        inr (
          size,
          room,
          rw (e, le→not-ltb (length buf) (q * 16) room)
              (descriptors_from-entries q 0 buf (omega arith)),
        ))
  ]
]

-- The parser of a packed ring refuses a size that is no power of two up to 32768, refuses a buffer
-- shorter than the ring, and of any other buffer gives as many packed descriptors as the size, each
-- read at its own offset, with no index out of range.
pub parse_packed_ring_lem :
    (buf : List ℕ) (q : ℕ)
    → ((IsSize q → ⊥) × (parse_packed_ring buf q ≡ err (bad_queue_size q max_queue_size)))
      ⊎ (IsSize q
          × (length buf < q * 16)
          × (parse_packed_ring buf q ≡ err (short_packed_ring (length buf) (q * 16) q)))
      ⊎ (IsSize q
          × (q * 16 ≤ length buf)
          × (parse_packed_ring buf q ≡ ok (entries RoundTrip.decoded q 0 buf)))
unfolding parse_packed_ring
parse_packed_ring_lem buf q = elim (validate_qsize_cases q) [
  | inr (bad, e) ↦ inl (bad, rw e)
  | inl (size, e) ↦ elim (lt_or_le (length buf) (q * 16)) [
    | inl short ↦ inr (inl (size, short, rw (e, lt→ltb (length buf) (q * 16) short)))
    | inr room ↦ inr (
        inr (
          size,
          room,
          rw (e, le→not-ltb (length buf) (q * 16) room) (packed_from-entries q 0 buf (omega arith)),
        ))
  ]
]

-- The entry at an index of the table, wherever the parser succeeds.
pub parse_descriptor_table_entry :
    (buf : List ℕ) (q k : ℕ)
    → IsSize q
    → q * 16 ≤ length buf
    → k < q
    → (ds : List Descriptor) × (parse_descriptor_table buf q ≡ ok ds)
      × (length ds ≡ q)
      × (get_elem? ds k ≡ some (decoded (slice (k * 16) 16 buf)))
parse_descriptor_table_entry buf q k size room lt = elim (parse_descriptor_table_lem buf q) [
  | inl (bad, _) ↦ absurd (bad size)
  | inr (inl (_, short, _)) ↦ absurd (omega arith)
  | inr (inr (_, _, e)) ↦ (
    entries decoded q 0 buf,
    e,
    length-entries decoded q 0 buf,
    get_elem?-entries decoded q 0 k buf lt
        ∙ ap (λ (j : ℕ). some (decoded (slice (j * 16) 16 buf))) (omega arith),
  )
]
