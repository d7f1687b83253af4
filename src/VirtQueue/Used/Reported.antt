-- ===== src/VirtQueue/Used/Reported.antt =====
-- crates/virtio-queue/src/lib.rs: what the driver finds in the used ring after pushes.
use rust_nano_vm.Prelude.{ℕ, ◌+◌, ◌*◌, ◌≤◌, ◌≡◌, refl, ap, sym, ◌∙◌, arith, inl, inr, ok}
use rust_nano_vm.Words.{wrapping_add}
use rust_nano_vm.Bytes.Endian.{IsU32, to_le, of_le, of_le-to_le}
use rust_nano_vm.Bytes.Buffer.{
  slice, splice, read_le_in, length-splice, slice-splice_self, slice-splice_below,
  slice-splice_above,
}
use rust_nano_vm.VirtQueue.Error.{QueueError}
use rust_nano_vm.VirtQueue.Used.{UsedRing, flags, idx, avail_event, elem, push}
use rust_nano_vm.VirtQueue.Used.Push.{
  IsRing, counter, offset, offset-le, pushed_bytes, pushed, pushed-IsRing, idx_in, push_in,
  untouched,
}

pub elem_in :
    (u : UsedRing) (slot : ℕ)
    → IsRing u
    → elem u slot
      ≡ ok (of_le (slice (offset u slot) 4 u.bytes), of_le (slice (offset u slot + 4) 4 u.bytes))
unfolding elem
elem_in u slot v =
    let bound = offset-le u slot v in
    rw (
      read_le_in {E = QueueError} 4 (offset u slot) u.bytes (omega (arith, v.room)),
      read_le_in {E = QueueError} 4 (offset u slot + 4) u.bytes (omega (arith, v.room)),
    )

module _ (u : UsedRing) (id len : ℕ) (v : IsRing u) (id_fits : IsU32 id)
    (len_fits : IsU32 len) where
  written_id : of_le (slice (offset u (counter u)) 4 (pushed_bytes u id len)) ≡ id
  written_id =
      let bound = offset-le u (counter u) v in
      ap of_le (
        slice-splice_above (offset u (counter u)) 4 2 _ _ (omega arith)
        ∙ slice-splice_below (offset u (counter u)) 4 (offset u (counter u) + 4) _ _ (omega arith)
        ∙ slice-splice_self (offset u (counter u)) (to_le 4 id) u.bytes (omega (arith, v.room)))
      ∙ of_le-to_le 4 id id_fits

  written_len : of_le (slice (offset u (counter u) + 4) 4 (pushed_bytes u id len)) ≡ len
  written_len =
      let bound = offset-le u (counter u) v in
      ap of_le (
        slice-splice_above (offset u (counter u) + 4) 4 2 _ _ (omega arith)
        ∙ slice-splice_self (offset u (counter u) + 4) (to_le 4 len)
            (splice (offset u (counter u)) (to_le 4 id) u.bytes)
            (omega (arith, v.room, length-splice {0})))
      ∙ of_le-to_le 4 len len_fits

pub counter-pushed :
    (u : UsedRing) (id len : ℕ)
    → IsRing u
    → counter (pushed u id len) ≡ wrapping_add 16 (counter u) 1
counter-pushed u id len v =
    ap of_le (
      slice-splice_self 2 (to_le 2 (wrapping_add 16 (counter u) 1)) _
        (omega (arith, v.room, length-splice {0})))
    ∙ of_le-to_le 2 (wrapping_add 16 (counter u) 1) (omega arith)

-- A push into a ring that `new` accepted does not panic. It returns the old counter, the slot of
-- that counter holds the chain's head and length, the counter has gone up by one modulo 2 ^ 16,
-- the flags and the event index are as they were, and the ring has its size and room.
pub push_lem :
    (u : UsedRing) (id len : ℕ)
    → IsRing u
    → IsU32 id
    → IsU32 len
    → (u' : UsedRing) × (push u id len ≡ ok (u', counter u))
      × (elem u' (counter u) ≡ ok (id, len))
      × (idx u' ≡ ok (wrapping_add 16 (counter u) 1))
      × (flags u' ≡ flags u)
      × (avail_event u' ≡ avail_event u)
      × (u'.qsize ≡ u.qsize)
      × IsRing u'
unfolding flags avail_event
push_lem u id len v hi hl =
    let kept = pushed-IsRing u id len v in
    let bound = offset-le u (counter u) v in
    let tail : offset u (counter u) + 8 ≤ 4 + 8 * u.qsize = omega arith in
    (
      pushed u id len,
      push_in u id len v,
      elem_in (pushed u id len) (counter u) kept
          ∙ rw (written_id u id len v hi hl, written_len u id len v hi hl),
      idx_in (pushed u id len) id len kept ∙ ap ok (counter-pushed u id len v),
      read_le_in {E = QueueError} 2 0 (pushed_bytes u id len) (omega (arith, kept.room))
          ∙ ap (λ b. ok (of_le b))
              (untouched u id len v 0 2 (inl (omega arith)) (inl (omega arith)))
          ∙ sym (read_le_in {E = QueueError} 2 0 u.bytes (omega (arith, v.room))),
      read_le_in {E = QueueError} 2 (4 + 8 * u.qsize) (pushed_bytes u id len)
            (omega (arith, kept.room))
          ∙ ap (λ b. ok (of_le b))
              (untouched u id len v (4 + 8 * u.qsize) 2 (inr (omega arith)) (inr tail))
          ∙ sym (read_le_in {E = QueueError} 2 (4 + 8 * u.qsize) u.bytes (omega (arith, v.room))),
      refl,
      kept,
    )
