-- ===== src/Vsock/Tests/Queues.antt =====
-- The device's split queue at a concrete guest memory.
use rust_nano_vm.Prelude.{
  map, take, ℕ, ◌+◌, ◌≤◌, ◌≡◌, refl, subst, ◌⊎◌, inl, inr, ◌↔◌, arith, min, true, Option, some,
  none, List, [], ◌∷◌, ◌++◌, replicate, length, leb, leb→le, le→leb, if◌then◌else◌, Bool-cases,
  Outcome, ok, err,
}
use rust_nano_vm.Bytes.Endian.{to_le}
use rust_nano_vm.Bytes.Buffer.{
  slice, splice, length-splice, slice-splice_self, slice-splice_below, slice-splice_above,
}
use rust_nano_vm.Vsock.Queue.{
  QueueError, out_of_bounds, GuestRam, Descriptor, DescChain, SplitQueue, at, read_int,
  collect_chain, pop_avail, push_used, writable_len, write_writable,
}
use rust_nano_vm.Vsock.Queue
use rust_nano_vm.Vsock.Queue.Linked.{Linked, collect_chain-Linked}
use rust_nano_vm.Vsock.Queue.Popped.{Offered, pop_avail_lem}
use rust_nano_vm.Vsock.Queue.Stores.{IsRam}
use rust_nano_vm.Bytes.Fields.{joined}
use rust_nano_vm.Vsock.Queue.Stores.{stores, RefusedAt}
use rust_nano_vm.Vsock.Queue.Scatter.{placed, write_writable-Scattered}
use rust_nano_vm.Vsock.Queue.Reported.{Reported, Failed, reports, push_used-Reported}
use rust_nano_vm.Words.{wrapping_add}

-- Guest memory from address 0 on.
unfoldable pub flat_read : List ℕ → ℕ → ℕ → Outcome QueueError (List ℕ)
flat_read m gpa n =
    if leb (gpa + n) (length m) then ok (slice gpa n m) else err (out_of_bounds gpa n)

unfoldable pub flat_write : List ℕ → ℕ → List ℕ → Outcome QueueError (List ℕ)
flat_write m gpa src =
    if leb (gpa + length src) (length m)
    then ok (splice gpa src m)
    else err (out_of_bounds gpa (length src))

abbrev pub flat : GuestRam
flat = record { Mem = List ℕ; read_at = flat_read; write_at = flat_write }

flat_written :
    (m : List ℕ) (a : ℕ) (src m' : List ℕ)
    → flat_write m a src ≡ ok m'
    → (a + length src ≤ length m) × (splice a src m ≡ m')
unfolding flat_write
flat_written m a src m' h = elim (Bool-cases (leb (a + length src) (length m))) [
  | inl fits ↦ (leb→le _ _ fits, cc (rw fits at h))
  | inr out ↦ absurd (cc (rw out at h))
]

pub flat-IsRam : IsRam flat
unfolding flat_read
flat-IsRam = record {
  read-write_self = λ m a src h.
      let (fits, e) = flat_written m a src _ h in
      subst (λ m'. flat_read m' a (length src) ≡ ok src) e
        (rw (length-splice a src m, le→leb _ _ fits, slice-splice_self a src m fits));
  read-write_apart = λ m a src b n h apart.
      let (fits, e) = flat_written m a src _ h in
      subst (λ m'. flat_read m' b n ≡ flat_read m b n) e
        (elim apart [
          | inl below ↦ rw (length-splice a src m, slice-splice_below b n a src m below)
          | inr above ↦ rw (length-splice a src m, slice-splice_above b n a src m above)
        ]);
}

-- A table of two descriptors, the second of which is the head; an available ring that offers it;
-- a used ring; and the buffers.
abbrev pub memory : List ℕ
memory =
    (to_le 8 70 ++ to_le 4 8 ++ to_le 2 2 ++ to_le 2 0)
    ++ (to_le 8 64 ++ to_le 4 4 ++ to_le 2 3 ++ to_le 2 0)
    ++ (0 ∷ 0 ∷ 1 ∷ 0 ∷ 1 ∷ 0 ∷ 0 ∷ 0 ∷ [])
    ++ replicate 40 0

abbrev pub queue : SplitQueue
queue = record { size = 2; desc = 0; avail = 32; used = 40; next_avail = 0; next_used = 0 }

abbrev buffers : List Descriptor
buffers =
    record { addr = 64; len = 4; writable = true }
    ∷ record { addr = 70; len = 8; writable = true }
    ∷ []

offered_chain :
    (pop_avail flat queue memory).1 ≡ ok (some (record { head = 1; descriptors = buffers }))
unfolding pop_avail Queue.next_chain Queue.chain_at collect_chain Queue.collect_from read_int
    flat_read
offered_chain = refl

pop_avail_lem_example :
    ((read_int flat 2 memory (at 32 2) ≡ ok 0) × (pop_avail flat queue memory ≡ (queue, ok none)))
    ⊎ ((c : DescChain) × Offered flat queue memory c
        × (1 ≤ length c.descriptors)
        × (pop_avail flat queue memory
            ≡ (record queue { next_avail = wrapping_add 16 0 1 }, ok (some c))))
    ⊎ (((pop_avail flat queue memory).0 ≡ queue)
        × ((d : Option DescChain) → ¬ ((pop_avail flat queue memory).1 ≡ ok d))
        × (¬ (read_int flat 2 memory (at 32 2) ≡ ok 0))
        × ((c : DescChain) → ¬ Offered flat queue memory c))
pop_avail_lem_example = pop_avail_lem flat queue memory

collect_chain-Linked_example :
    (collect_chain flat queue memory 1 ≡ ok buffers)
    ↔ (Linked flat queue memory 1 buffers × (length buffers ≤ 2))
collect_chain-Linked_example = collect_chain-Linked flat queue memory 1 buffers

-- Five bytes fill the first buffer, and one is in the second.
abbrev five : List ℕ
five = 7 ∷ 8 ∷ 9 ∷ 10 ∷ 11 ∷ []

two_pieces : placed five buffers ≡ (64, 7 ∷ 8 ∷ 9 ∷ 10 ∷ []) ∷ (70, 11 ∷ []) ∷ []
two_pieces = refl

write_writable-Scattered_example :
    (joined (map (λ w. w.1) (placed five buffers)) ≡ take (writable_len buffers) five)
    × (((m' : List ℕ) × (stores flat memory (placed five buffers) ≡ ok m')
          × (write_writable flat memory buffers five ≡ ok (m', min 5 (writable_len buffers)))
          × (flat_read m' 68 2 ≡ flat_read memory 68 2))
        ⊎ RefusedAt flat memory (placed five buffers) (write_writable flat memory buffers five))
write_writable-Scattered_example =
    write_writable-Scattered flat flat-IsRam memory buffers five 68 2
      (inr (inr (omega arith)), (inr (inl (omega arith)), tt))

push_used-Reported_example :
    ((m' : List ℕ) × (stores flat memory (reports queue 1 5) ≡ ok m')
      × (push_used flat queue memory 1 5 ≡ (record queue { next_used = 1 }, ok m'))
      × Reported flat queue m' 1 5)
    ⊎ Failed flat queue memory (reports queue 1 5) (push_used flat queue memory 1 5)
push_used-Reported_example =
    push_used-Reported flat flat-IsRam queue memory 1 5
      (record { size_pos = omega arith; used_fits = omega arith }) (omega arith) (omega arith)

abbrev bytes_out : Outcome QueueError (List ℕ × ℕ) → Option ℕ
bytes_out (ok (m, n)) = some n
bytes_out _ = none

five_written : bytes_out (write_writable flat memory buffers five) ≡ some 5
unfolding write_writable Queue.scatter flat_write
five_written = refl

reported : (push_used flat queue memory 1 5).0 ≡ record queue { next_used = 1 }
unfolding push_used Queue.write_elem Queue.write_int flat_write
reported = refl
