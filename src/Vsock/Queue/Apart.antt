-- ===== src/Vsock/Queue/Apart.antt =====
-- crates/virtio-vsock/src/queue.rs: what `push_used` leaves alone.
use rust_nano_vm.Prelude.{
  ℕ, ◌+◌, ◌*◌, ◌%◌, ◌≤◌, ◌<◌, ◌≡◌, refl, ap, sym, ◌∙◌, ◌⊎◌, arith, Outcome, ok, err, bind-Succeeded,
  length,
}
use native.Mathlib.Nat.{mod-lt}
use rust_nano_vm.Words.{wrapping_add}
use rust_nano_vm.Bytes.Endian.{to_le}
use rust_nano_vm.Vsock.Queue.{
  QueueError, GuestRam, SplitQueue, at, elem_at, write_int, publish, write_elem, push_used,
}
use rust_nano_vm.Vsock.Queue.Stores.{IsRam}
use rust_nano_vm.Vsock.Queue.Reported.{HasUsedRing, elem_at_lem}

-- A used ring that is apart from a range.
abbrev pub RingApart : SplitQueue → ℕ → ℕ → Type 0
RingApart q b k = (b + k ≤ q.used) ⊎ (q.used + 4 + 8 * q.size ≤ b)

module _ (g : GuestRam) (ram : IsRam g) where
  write_int_apart :
      (n : ℕ) (m m' : g.Mem) (gpa v b k : ℕ)
      → write_int g n m gpa v ≡ ok m'
      → (b + k ≤ gpa) ⊎ (gpa + length (to_le n v) ≤ b)
      → g.read_at m' b k ≡ g.read_at m b k
  unfolding write_int
  write_int_apart n m m' gpa v b k e apart = ram.read-write_apart m gpa (to_le n v) b k e apart

  published_apart :
      (q q' : SplitQueue) (m m' : g.Mem) (b k : ℕ)
      → HasUsedRing q
      → RingApart q b k
      → publish g q (ok m) ≡ (q', ok m')
      → (q' ≡ record q { next_used = wrapping_add 16 q.next_used 1 })
        × (g.read_at m' b k ≡ g.read_at m b k)
  published_apart q q' m m' b k h apart e = (
    sym (ap (λ r. r.0) e),
    write_int_apart 2 m m' (at q.used 2) (wrapping_add 16 q.next_used 1) b k (ap (λ r. r.1) e)
        (ground (arith, apart, h.used_fits, h.size_pos)),
  )

  -- A report that succeeds moves the used cursor and nothing else of the queue, and leaves what is
  -- read of a range that is apart from the used ring.
  pub push_used_apart :
      (q q' : SplitQueue) (m m' : g.Mem) (head len b k : ℕ)
      → HasUsedRing q
      → RingApart q b k
      → push_used g q m head len ≡ (q', ok m')
      → (q' ≡ record q { next_used = wrapping_add 16 q.next_used 1 })
        × (g.read_at m' b k ≡ g.read_at m b k)
  unfolding push_used write_elem
  push_used_apart q q' m m' head len b k h apart e = go (write_elem g q m head len) refl e
    where
      go :
          (r : Outcome QueueError g.Mem)
          → write_elem g q m head len ≡ r
          → publish g q r ≡ (q', ok m')
          → (q' ≡ record q { next_used = wrapping_add 16 q.next_used 1 })
            × (g.read_at m' b k ≡ g.read_at m b k)
      go (err x) w e = cc (ap (λ r. r.1) e)
      go Outcome.panic w e = cc (ap (λ r. r.1) e)
      go (ok m2) w e =
          let s = bind-Succeeded (write_int g 4 m (elem_at q) head) w in
          let place = elem_at_lem q h in
          let slot : q.next_used % q.size < q.size = mod-lt q.next_used h.size_pos in
          let (moved, last) = published_apart q q' m2 m' b k h apart e in
          (
            moved,
            last
                ∙ write_int_apart 4 s.value m2 (at (elem_at q) 4) len b k s.rest
                    (ground (arith, apart, place, slot, h.used_fits))
                ∙ write_int_apart 4 m s.value (elem_at q) head b k s.first
                    (ground (arith, apart, place, slot, h.used_fits)),
          )
