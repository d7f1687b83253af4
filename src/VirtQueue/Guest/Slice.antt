-- ===== src/VirtQueue/Guest/Slice.antt =====
-- crates/virtio-queue/src/lib.rs: `SliceGuestMemory`, a window of contiguous memory.
use rust_nano_vm.Prelude.{
  ℕ, ◌+◌, ◌-◌, ◌^◌, ◌≤◌, ◌<◌, ◌≡◌, ap, ◌∙◌, arith, ◌⊎◌, inl, inr, List, length, ltb, leb, ◌||◌, min,
  Bool-cases, if◌then◌else◌, Outcome, ok, err, ◌>>=◌,
}
use rust_nano_vm.Bytes.Buffer.{
  slice, splice, read_slice, write_slice, read_slice_in, write_slice_in, length-splice,
  slice-splice_self, slice-splice_below, slice-splice_above,
}
use rust_nano_vm.VirtQueue.Error.{QueueError, address_overflow, guest_memory_out_of_bounds}
use rust_nano_vm.VirtQueue.Guest.{GuestMemory, IsMemory}

pub record SliceGuestMemory : Type 0 where
  pub base_addr : ℕ
  pub bytes : List ℕ

-- `u32::try_from(n).unwrap_or(u32::MAX)`
abbrev u32_or_max : ℕ → ℕ
u32_or_max n = min n (2 ^ 32 - 1)

unfoldable pub checked_bounds : SliceGuestMemory → ℕ → ℕ → Outcome QueueError (ℕ × ℕ)
checked_bounds m addr len =
    if leb (2 ^ 64) (addr + len)
    then err (address_overflow addr (u32_or_max len))
    else if leb (2 ^ 64) (m.base_addr + length m.bytes)
    then err (address_overflow m.base_addr (u32_or_max (length m.bytes)))
    else if ltb addr m.base_addr || ltb (m.base_addr + length m.bytes) (addr + len)
    then err (guest_memory_out_of_bounds addr (u32_or_max len) m.base_addr (length m.bytes))
    else ok (addr - m.base_addr, addr - m.base_addr + len)

unfoldable pub read : SliceGuestMemory → ℕ → ℕ → Outcome QueueError (List ℕ)
read m addr len = do
  (start, end) ← checked_bounds m addr len
  read_slice start (end - start) m.bytes

unfoldable pub write : SliceGuestMemory → ℕ → List ℕ → Outcome QueueError SliceGuestMemory
write m addr src = do
  (start, end) ← checked_bounds m addr (length src)
  bytes ← write_slice start src m.bytes
  ok (record m { bytes = bytes })

abbrev pub slice_memory : GuestMemory
slice_memory = record { Mem = SliceGuestMemory; read = read; write = write }

-- The access lies in the window, and no address in it overflows.
abbrev pub InWindow : SliceGuestMemory → ℕ → ℕ → Type 0
InWindow m addr len =
    (addr + len < 2 ^ 64)
    × (m.base_addr + length m.bytes < 2 ^ 64)
    × (m.base_addr ≤ addr)
    × (addr + len ≤ m.base_addr + length m.bytes)

pub checked_bounds_cases :
    (m : SliceGuestMemory) (addr len : ℕ)
    → (InWindow m addr len
        × (checked_bounds m addr len ≡ ok (addr - m.base_addr, addr - m.base_addr + len)))
      ⊎ ((InWindow m addr len → ⊥) × (e : QueueError) × (checked_bounds m addr len ≡ err e))
unfolding checked_bounds
checked_bounds_cases m addr len = elim (Bool-cases (leb (2 ^ 64) (addr + len))) [
  | inl over ↦ inr (ground arith, address_overflow addr (u32_or_max len), rw over)
  | inr fits ↦ elim (Bool-cases (leb (2 ^ 64) (m.base_addr + length m.bytes))) [
    | inl over ↦
        inr (
          ground arith,
          address_overflow m.base_addr (u32_or_max (length m.bytes)),
          rw (fits, over),
        )
    | inr fits' ↦
        elim (Bool-cases
          (ltb addr m.base_addr || ltb (m.base_addr + length m.bytes) (addr + len))) [
            | inl out ↦ inr (
              ground arith,
              guest_memory_out_of_bounds addr (u32_or_max len) m.base_addr (length m.bytes),
              rw (fits, fits', out),
            )
            | inr inside ↦ inl (ground arith, rw (fits, fits', inside))
          ]
  ]
]

-- An access in the window is made, and no index of it is out of range.
pub read_in :
    (m : SliceGuestMemory) (addr len : ℕ)
    → InWindow m addr len
    → read m addr len ≡ ok (slice (addr - m.base_addr) len m.bytes)
unfolding read
read_in m addr len h = elim (checked_bounds_cases m addr len) [
  | inl (_, e) ↦
      let n : addr - m.base_addr + len - (addr - m.base_addr) ≡ len = omega arith in
      rw (e, n, read_slice_in {E = QueueError} (addr - m.base_addr) len m.bytes (omega arith))
  | inr (out, _, _) ↦ absurd (out h)
]

pub write_in :
    (m : SliceGuestMemory) (addr : ℕ) (src : List ℕ)
    → InWindow m addr (length src)
    → write m addr src ≡ ok (record m { bytes = splice (addr - m.base_addr) src m.bytes })
unfolding write
write_in m addr src h = elim (checked_bounds_cases m addr (length src)) [
  | inl (_, e) ↦
      rw (e, write_slice_in {E = QueueError} (addr - m.base_addr) src m.bytes (omega arith))
  | inr (out, _, _) ↦ absurd (out h)
]

-- An access that is not in the window is refused with an error.
pub read_out :
    (m : SliceGuestMemory) (addr len : ℕ)
    → (InWindow m addr len → ⊥)
    → (e : QueueError) × (read m addr len ≡ err e)
unfolding read
read_out m addr len h = elim (checked_bounds_cases m addr len) [
  | inl (w, _) ↦ absurd (h w)
  | inr (_, e, p) ↦ (e, rw p)
]

pub write_out :
    (m : SliceGuestMemory) (addr : ℕ) (src : List ℕ)
    → (InWindow m addr (length src) → ⊥)
    → (e : QueueError) × (write m addr src ≡ err e)
unfolding write
write_out m addr src h = elim (checked_bounds_cases m addr (length src)) [
  | inl (w, _) ↦ absurd (h w)
  | inr (_, e, p) ↦ (e, rw p)
]

-- What a write that succeeds has done.
write-eq-ok :
    (m : SliceGuestMemory) (addr : ℕ) (src : List ℕ) {m' : SliceGuestMemory}
    → write m addr src ≡ ok m'
    → InWindow m addr (length src)
      × (m' ≡ record m { bytes = splice (addr - m.base_addr) src m.bytes })
write-eq-ok m addr src {m'} h = elim (checked_bounds_cases m addr (length src)) [
  | inl (w, _) ↦ (w, cc (write_in m addr src w))
  | inr (out, _, _) ↦ let (e, p) = write_out m addr src out in cc p
]

after : SliceGuestMemory → ℕ → List ℕ → SliceGuestMemory
after m addr src = record m { bytes = splice (addr - m.base_addr) src m.bytes }

checked_bounds-after :
    (m : SliceGuestMemory) (addr : ℕ) (src : List ℕ) (b n : ℕ)
    → checked_bounds (after m addr src) b n ≡ checked_bounds m b n
unfolding checked_bounds after
checked_bounds-after m addr src b n = rw (length-splice (addr - m.base_addr) src m.bytes)

after_self :
    (m : SliceGuestMemory) (addr : ℕ) (src : List ℕ)
    → InWindow m addr (length src)
    → read (after m addr src) addr (length src) ≡ ok src
unfolding after
after_self m addr src w =
    let len = length-splice (addr - m.base_addr) src m.bytes in
    read_in (after m addr src) addr (length src) (omega (arith, len))
    ∙ rw (slice-splice_self (addr - m.base_addr) src m.bytes (omega arith))

after_apart :
    (m : SliceGuestMemory) (addr : ℕ) (src : List ℕ) (b n : ℕ)
    → InWindow m addr (length src)
    → (b + n ≤ addr) ⊎ (addr + length src ≤ b)
    → read (after m addr src) b n ≡ read m b n
after_apart m addr src b n w apart = elim (checked_bounds_cases m b n) [
  | inl (v, _) ↦
      let len = length-splice (addr - m.base_addr) src m.bytes in
      rw (read_in m b n v, read_in (after m addr src) b n (unfold after in omega (arith, len)))
        (unfold after in ap ok (untouched apart v))
  | inr (_, e, p) ↦ unfold read in rw (checked_bounds-after m addr src b n, p)
]
  where
    untouched :
        (b + n ≤ addr) ⊎ (addr + length src ≤ b)
        → InWindow m b n
        → slice (b - m.base_addr) n (splice (addr - m.base_addr) src m.bytes)
          ≡ slice (b - m.base_addr) n m.bytes
    untouched (inl below) v = slice-splice_below _ n _ src m.bytes (omega arith)
    untouched (inr above) v = slice-splice_above _ n _ src m.bytes (omega arith)

-- `SliceGuestMemory` is a memory: what a write put at an address is read back from it, and no read
-- of another range sees the write, whether the range lies in the window or not.
pub slice_memory-IsMemory : IsMemory slice_memory
slice_memory-IsMemory = record {
  read-write_self = λ m a src h.
      let (w, e) = write-eq-ok m a src h in rw e (unfold after in after_self m a src w);
  read-write_apart = λ m a src b n h apart.
      let (w, e) = write-eq-ok m a src h in rw e (unfold after in after_apart m a src b n w apart);
}
