-- ===== src/VirtQueue/Avail/Produced.antt =====
-- crates/virtio-queue/src/lib.rs: the device sees each head that the driver produced, once and in
-- order.
use rust_nano_vm.Prelude.{
  ℕ, zero, suc, ◌+◌, ◌*◌, ◌%◌, ◌^◌, ◌≤◌, ◌<◌, ◌≡◌, refl, ap, sym, ◌∙◌, arith, ◌⊎◌, inl, inr, true,
  false, List, [], ◌∷◌, length, lt→ltb, le→not-ltb, lt_or_le, ◌==◌, eq→==, ne→not-==, All, Outcome,
  ok, err,
}
use mathlib.Core.Path.{ap₂}
use native.Mathlib.Nat.{mod-lt, mod-add-mod}
use rust_nano_vm.Words.{wrapping_add, wrapping_sub, is_power_of_two-pos, wrap-mod}
use rust_nano_vm.Bytes.Endian.{IsByte, IsU16, of_le, of_le-lt}
use rust_nano_vm.Bytes.Buffer.{slice, read_le_in, length-slice, slice-All}
use rust_nano_vm.VirtQueue.Error.{
  QueueError, short_ring, bad_queue_size, max_queue_size, avail_ring_size,
}
use rust_nano_vm.VirtQueue.Size.{IsSize, validate_qsize_cases}
use rust_nano_vm.VirtQueue.Avail.{
  AvailRing, AvailIter, new, flags, idx, head, used_event, iter_new, next_head, heads,
}

-- What `new` makes sure of.
pub record IsRing (r : AvailRing) : Type 0 where
  pub size : IsSize r.qsize
  pub room : avail_ring_size r.qsize ≤ length r.bytes

-- `new` accepts exactly the sizes and buffers of a ring.
pub avail_new_lem :
    (bytes : List ℕ) (q : ℕ)
    → (IsSize q
        × (avail_ring_size q ≤ length bytes)
        × (new bytes q ≡ ok (record { bytes = bytes; qsize = q })))
      ⊎ (IsSize q
          × (length bytes < avail_ring_size q)
          × (new bytes q ≡ err (short_ring (length bytes) (avail_ring_size q) q)))
      ⊎ ((IsSize q → ⊥) × (new bytes q ≡ err (bad_queue_size q max_queue_size)))
unfolding new
avail_new_lem bytes q = elim (validate_qsize_cases q) [
  | inr (bad, e) ↦ inr (inr (bad, rw e))
  | inl (size, e) ↦ elim (lt_or_le (length bytes) (avail_ring_size q)) [
    | inl short ↦ inr (inl (size, short, rw (e, lt→ltb _ _ short)))
    | inr room ↦ inl (size, room, rw (e, le→not-ltb _ _ room))
  ]
]

-- The slot of a counter, and the number that stands in it.
abbrev pub slot_value : AvailRing → ℕ → ℕ
slot_value r slot = of_le (slice (4 + 2 * (slot % r.qsize)) 2 r.bytes)

pub head_in : (r : AvailRing) (slot : ℕ) → IsRing r → head r slot ≡ ok (slot_value r slot)
unfolding head
head_in r slot v =
    let lt = mod-lt slot (is_power_of_two-pos 16 r.qsize v.size.1) in
    read_le_in {E = QueueError} 2 (4 + 2 * (slot % r.qsize)) r.bytes (omega (arith, v.room))

-- The accessors of a ring that `new` accepted read inside it: none panics.
pub accessors_in :
    (r : AvailRing)
    → IsRing r
    → (flags r ≡ ok (of_le (slice 0 2 r.bytes)))
      × (idx r ≡ ok (of_le (slice 2 2 r.bytes)))
      × (used_event r ≡ ok (of_le (slice (4 + 2 * r.qsize) 2 r.bytes)))
unfolding flags idx used_event
accessors_in r v = (
  read_le_in {E = QueueError} 2 0 r.bytes (omega (arith, v.room)),
  read_le_in {E = QueueError} 2 2 r.bytes (omega (arith, v.room)),
  read_le_in {E = QueueError} 2 (4 + 2 * r.qsize) r.bytes (omega (arith, v.room)),
)

-- The `n` heads from the counter `next` on, for a counter that does not wrap.
abbrev pub produced : AvailRing → ℕ → ℕ → List (Outcome QueueError ℕ)
produced r next zero = []
produced r next (suc n) = ok (slot_value r next) ∷ produced r (next + 1) n

produced_cong :
    (r : AvailRing) (a b n : ℕ) → a % r.qsize ≡ b % r.qsize → produced r a n ≡ produced r b n
produced_cong r a b zero e = refl
produced_cong r a b (suc n) e =
    ap₂ ◌∷◌ (ap (λ (i : ℕ). ok (of_le (slice (4 + 2 * i) 2 r.bytes))) e) (
      produced_cong r (a + 1) (b + 1) n (
        sym (mod-add-mod a r.qsize 1)
        ∙ ap (λ (i : ℕ). (i + 1) % r.qsize) e
        ∙ mod-add-mod b r.qsize 1))

heads-produced :
    (r : AvailRing) (n fuel next end : ℕ)
    → IsRing r
    → next < 2 ^ 16
    → end < 2 ^ 16
    → wrapping_sub 16 end next ≡ n
    → n < fuel
    → heads fuel (record { ring = r; next = next; end = end }) ≡ (produced r next n, true)
unfolding heads next_head
heads-produced r n zero next end v hn he p h = elim h [ ]
heads-produced r zero (suc fuel) next end v hn he p h =
    let same : (next == end) ≡ true = eq→== next end (omega arith) in rw (same, heads)
heads-produced r (suc n) (suc fuel) next end v hn he p h =
    let other : (next == end) ≡ false = ne→not-== next end (λ e. omega arith) in
    let rest =
      heads-produced r n fuel (wrapping_add 16 next 1) end v (omega arith) he (omega arith)
        (omega arith) in
    let wrapped = wrap-mod r.qsize (next + 1) v.size.1 in
    rw (
      other,
      heads,
      head_in r next v,
      rest,
      produced_cong r (wrapping_add 16 next 1) (next + 1) n wrapped,
    )

-- A device that has seen the available ring up to a counter is given every head that the driver
-- has produced since, in order and each once, also where the 16-bit counters have wrapped; the
-- iterator ends, and no access is out of range.
pub iter_new_lem :
    (r : AvailRing) (last_seen : ℕ)
    → IsRing r
    → All IsByte r.bytes
    → IsU16 last_seen
    → let end = of_le (slice 2 2 r.bytes) in
      (it : AvailIter) × (iter_new r last_seen ≡ ok it)
      × (heads (2 ^ 16) it ≡ (produced r last_seen (wrapping_sub 16 end last_seen), true))
unfolding iter_new
iter_new_lem r last_seen v bytes hl =
    let end = of_le (slice 2 2 r.bytes) in
    let len = length-slice 2 2 r.bytes (omega (arith, v.room)) in
    let he : end < 2 ^ 16 =
      rw len at (of_le-lt (slice 2 2 r.bytes) (slice-All IsByte 2 2 r.bytes bytes)) in
    (
      record { ring = r; next = last_seen; end = end },
      rw ((accessors_in r v).1),
      heads-produced r (wrapping_sub 16 end last_seen) (2 ^ 16) last_seen end v hl he refl
          (omega arith),
    )
