-- ===== src/VirtQueue/Packed/RoundTrip.antt =====
-- crates/virtio-queue/src/lib.rs: reading a `PackedDesc` from its wire form, and writing it.
use rust_nano_vm.Prelude.{
  ℕ, ◌≤◌, ◌<◌, ◌≡◌, refl, ap, ◌∙◌, arith, List, ◌++◌, length, take, drop, All, le→not-ltb, lt→ltb,
  lt_or_le, ◌⊎◌, inl, inr, ok, err,
}
use rust_nano_vm.Bytes.Endian.{IsByte, of_le}
use rust_nano_vm.Bytes.Buffer.{slice, read_le_in}
use rust_nano_vm.VirtQueue.Entry.{write_entry, entry_fields, entry_rebuilt}
use rust_nano_vm.VirtQueue.Error.{QueueError, short_descriptor, short_buffer}
use rust_nano_vm.VirtQueue.Packed.{PackedDesc, IsPackedDesc, from_bytes, write_to, to_bytes}

-- The fields at their offsets.
abbrev pub decoded : List ℕ → PackedDesc
decoded buf = record {
  addr = of_le (slice 0 8 buf);
  len = of_le (slice 8 4 buf);
  id = of_le (slice 12 2 buf);
  flags = of_le (slice 14 2 buf);
}

pub from_bytes-decoded : (buf : List ℕ) → 16 ≤ length buf → from_bytes buf ≡ ok (decoded buf)
unfolding from_bytes
from_bytes-decoded buf h = rw (
  le→not-ltb (length buf) 16 h,
  read_le_in {E = QueueError} 8 0 buf (omega arith),
  read_le_in {E = QueueError} 4 8 buf (omega arith),
  read_le_in {E = QueueError} 2 12 buf (omega arith),
  read_le_in {E = QueueError} 2 14 buf (omega arith),
)

decoded-to_bytes :
    (d : PackedDesc) (rest : List ℕ) → IsPackedDesc d → decoded (to_bytes d ++ rest) ≡ d
unfolding to_bytes
decoded-to_bytes d rest v =
    let (a, l, f, n) =
      entry_fields d.addr d.len d.id d.flags rest v.addr_fits v.len_fits v.id_fits v.flags_fits in
    λ i. record { addr = a i; len = l i; id = f i; flags = n i }

pub from_bytes-entry :
    (d : PackedDesc) (rest : List ℕ) → IsPackedDesc d → from_bytes (to_bytes d ++ rest) ≡ ok d
unfolding to_bytes
from_bytes-entry d rest v =
    from_bytes-decoded (to_bytes d ++ rest) (omega arith) ∙ ap ok (decoded-to_bytes d rest v)

pub write_to-to_bytes :
    (d : PackedDesc) (buf : List ℕ)
    → 16 ≤ length buf
    → write_to d buf ≡ ok (to_bytes d ++ drop 16 buf, 16)
unfolding write_to to_bytes
write_to-to_bytes d buf h =
    rw (le→not-ltb (length buf) 16 h)
      (write_entry d.addr d.len d.id d.flags buf h (λ b. ok (b, 16)))

-- A packed descriptor that `write_to` put at the front of a buffer with room for it is read back as it
-- was, and the bytes behind it stay; a buffer of fewer than sixteen bytes is refused.
pub packed_from_bytes-write_to :
    (d : PackedDesc) (buf : List ℕ)
    → IsPackedDesc d
    → ((16 ≤ length buf)
        × (out : List ℕ) × (write_to d buf ≡ ok (out, 16))
        × (from_bytes out ≡ ok d)
        × (drop 16 out ≡ drop 16 buf))
      ⊎ ((length buf < 16) × (write_to d buf ≡ err (short_buffer (length buf) 16)))
unfolding write_to to_bytes
packed_from_bytes-write_to d buf v = elim (lt_or_le (length buf) 16) [
  | inl short ↦ inr (short, rw (lt→ltb (length buf) 16 short))
  | inr room ↦ inl (
    room,
    to_bytes d ++ drop 16 buf,
    write_to-to_bytes d buf room,
    from_bytes-entry d (drop 16 buf) v,
    refl,
  )
]

-- `from_bytes` reads any sixteen bytes as a packed descriptor: it never panics, refuses exactly the shorter
-- buffers, and what it read is written as the bytes that it was read from.
pub packed_to_bytes-from_bytes :
    (buf : List ℕ)
    → All IsByte buf
    → ((16 ≤ length buf) × (d : PackedDesc) × (from_bytes buf ≡ ok d) × (to_bytes d ≡ take 16 buf))
      ⊎ ((length buf < 16) × (from_bytes buf ≡ err (short_descriptor (length buf) 16)))
unfolding to_bytes from_bytes
packed_to_bytes-from_bytes buf bytes = elim (lt_or_le (length buf) 16) [
  | inl short ↦ inr (short, rw (lt→ltb (length buf) 16 short))
  | inr room ↦ inl (room, decoded buf, from_bytes-decoded buf room, entry_rebuilt buf room bytes)
]
