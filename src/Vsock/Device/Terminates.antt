-- ===== src/Vsock/Device/Terminates.antt =====
-- crates/virtio-vsock/src/device.rs: the loop of `drain_tx` comes to its end.
use rust_nano_vm.Prelude.{
  ℕ, zero, suc, ◌+◌, ◌-◌, ◌%◌, ◌^◌, ◌<◌, ◌≡◌, refl, ap, sym, ◌∙◌, inl, inr, subst, arith, Bool,
  true, false, Option, none, some, List, length, All, Option-cases, Outcome, ok, err, ◌>>=◌,
  bind-Succeeded, Outcome-cases,
}
use rust_nano_vm.Words.{wrapping_add}
use rust_nano_vm.Bytes.Endian.{IsByte, of_le, of_le-lt}
use rust_nano_vm.Vsock.Queue.{
  QueueError, GuestRam, DescChain, SplitQueue, at, read_int, read_readable, pop_avail, push_used,
}
use rust_nano_vm.Vsock.Queue.Popped.{pop_avail_lem}
use rust_nano_vm.Vsock.Queue.Stores.{IsRam}
use rust_nano_vm.Vsock.Queue.Reported.{HasUsedRing}
use rust_nano_vm.Vsock.Queue.Apart.{RingApart, push_used_apart}
use rust_nano_vm.Vsock.Device.{VsockDevice, handle_guest_packet, sync_queues}
use rust_nano_vm.Vsock.Device.Cycle.{
  DrainRound, over, again, drain_pushed, drain_handled, drain_popped, drain_round, drain_loop,
  drain_tx, tx_back, then_flush, Completed, process,
}

-- A read gives as many bytes as were asked for.
pub record GivesBytes (g : GuestRam) : Type 0 where
  pub size_and_bytes :
      (m : g.Mem) (gpa n : ℕ) {bs : List ℕ}
      → g.read_at m gpa n ≡ ok bs
      → (length bs ≡ n) × All IsByte bs

-- Both rings lie in the address space, the available ring's index is not in the used ring, and the
-- cursor is a u16.
pub record HasRings (q : SplitQueue) : Type 0 where
  pub has_used : HasUsedRing q
  pub idx_apart : RingApart q (at q.avail 2) 2
  pub cursor_fits : q.next_avail < 2 ^ 16

-- How many chains there are from the cursor to an index of the available ring.
abbrev pub ahead_of : ℕ → SplitQueue → ℕ
ahead_of idx q = (idx + 2 ^ 16 - q.next_avail) % 2 ^ 16

module _ (g : GuestRam) (ram : IsRam g) (gives : GivesBytes g) where
  abbrev IdxIs : SplitQueue → g.Mem → ℕ → Type 0
  IdxIs q m idx = read_int g 2 m (at q.avail 2) ≡ ok idx

  idx_fits : (q : SplitQueue) (m : g.Mem) (idx : ℕ) → IdxIs q m idx → idx < 2 ^ 16
  unfolding read_int
  idx_fits q m idx e =
      let s = bind-Succeeded (g.read_at m (at q.avail 2) 2) e in
      let (two, bytes) = gives.size_and_bytes m (at q.avail 2) 2 s.first in
      let same : of_le s.value ≡ idx = cc s.rest in
      subst (λ n. n < 2 ^ 16) same
        (subst (λ k. of_le s.value < 256 ^ k) two (of_le-lt s.value bytes))

  reread :
      (q : SplitQueue) (m m' : g.Mem) (idx : ℕ)
      → g.read_at m' (at q.avail 2) 2 ≡ g.read_at m (at q.avail 2) 2
      → IdxIs q m idx
      → IdxIs q m' idx
  unfolding read_int
  reread q m m' idx same there = ap (λ r. r >>= λ b. ok (of_le b)) same ∙ there

  -- A round that goes on leaves the index, and one chain fewer ahead of the cursor.
  abbrev Onward : ℕ → SplitQueue → DrainRound g → Type 0
  Onward idx q (over dev q' r) = Unit {0}
  Onward idx q (again dev q' m') =
      HasRings q' × IdxIs q' m' idx × (ahead_of idx q' < ahead_of idx q)

  pushed-Onward :
      (dev : VsockDevice) (idx head : ℕ) (q : SplitQueue) (m : g.Mem)
      → HasRings q
      → IdxIs q m idx
      → ¬ (q.next_avail ≡ idx)
      → idx < 2 ^ 16
      → (r : SplitQueue × Outcome QueueError g.Mem)
      → push_used g (record q { next_avail = wrapping_add 16 q.next_avail 1 }) m head 0 ≡ r
      → Onward idx q (drain_pushed g dev r)
  pushed-Onward dev idx head q m h there apart fits (q', err e) pushed = tt
  pushed-Onward dev idx head q m h there apart fits (q', Outcome.panic) pushed = tt
  pushed-Onward dev idx head q m h there apart fits (q', ok m') pushed =
      let popped = record q { next_avail = wrapping_add 16 q.next_avail 1 } in
      let ring : HasUsedRing popped = record {
        size_pos = h.has_used.size_pos;
        used_fits = h.has_used.used_fits;
      } in
      let (moved, same) =
        push_used_apart g ram popped q' m m' head 0 (at q.avail 2) 2 ring h.idx_apart pushed in
      subst (λ q'. HasRings q' × IdxIs q' m' idx × (ahead_of idx q' < ahead_of idx q)) (sym moved)
        (
          record {
            has_used = record { size_pos = ring.size_pos; used_fits = ring.used_fits };
            idx_apart = h.idx_apart;
            cursor_fits = omega arith;
          },
          reread q m m' idx same there,
          omega (arith, apart, fits, h.cursor_fits),
        )

  handled-Onward :
      (dev : VsockDevice) (idx head : ℕ) (q : SplitQueue) (m : g.Mem)
      → HasRings q
      → IdxIs q m idx
      → ¬ (q.next_avail ≡ idx)
      → idx < 2 ^ 16
      → (r : Outcome QueueError VsockDevice)
      → Onward idx q
          (drain_handled g dev (record q { next_avail = wrapping_add 16 q.next_avail 1 }) m head r)
  handled-Onward dev idx head q m h there apart fits (ok dev') =
      pushed-Onward dev' idx head q m h there apart fits _ refl
  handled-Onward dev idx head q m h there apart fits (err e) = tt
  handled-Onward dev idx head q m h there apart fits Outcome.panic = tt

  round-Onward :
      (dev : VsockDevice) (idx : ℕ) (q : SplitQueue) (m : g.Mem)
      → HasRings q
      → IdxIs q m idx
      → Onward idx q (drain_round g dev q m)
  unfolding drain_round drain_popped
  round-Onward dev idx q m h there = elim (pop_avail_lem g q m) [
    | inl (_, e) ↦ rw e tt
    | inr (inl (c, o, _, e)) ↦
        let same : o.avail_idx ≡ idx = cc (sym o.idx_there ∙ there) in
        rw e (
          handled-Onward dev idx c.head q m h there (λ eq. o.ahead (eq ∙ sym same))
            (idx_fits q m idx there) (read_readable g m c.descriptors >>= handle_guest_packet dev))
    | inr (inr (_, bad, _, _)) ↦ ended (pop_avail g q m) bad
  ]
    where
      ended :
          (p : SplitQueue × Outcome QueueError (Option DescChain))
          → ((d : Option DescChain) → ¬ (p.1 ≡ ok d))
          → Onward idx q (drain_popped g dev m p)
      ended (q', ok d) bad = absurd (bad d refl)
      ended (q', err e) bad = tt
      ended (q', Outcome.panic) bad = tt

  -- More fuel than there are chains ahead is enough.
  abbrev Answered : Option (VsockDevice × SplitQueue × Completed g) → Type 0
  Answered o = (out : VsockDevice × SplitQueue × Completed g) × (o ≡ some out)

  loop_ends :
      (fuel : ℕ) (completed : Bool) (dev : VsockDevice) (idx : ℕ) (q : SplitQueue) (m : g.Mem)
      → HasRings q
      → IdxIs q m idx
      → ahead_of idx q < fuel
      → Answered (drain_loop g fuel completed dev q m)
  unfolding drain_loop
  loop_ends zero completed dev idx q m h there lt = absurd (omega arith)
  loop_ends (suc fuel) completed dev idx q m h there lt =
      go (drain_round g dev q m) refl (round-Onward dev idx q m h there)
        (λ dev' q' m' h' there' less. loop_ends fuel true dev' idx q' m' h' there' (omega arith))
    where
      go :
          (r : DrainRound g)
          → drain_round g dev q m ≡ r
          → Onward idx q r
          → ((dev' : VsockDevice) (q' : SplitQueue) (m' : g.Mem)
              → HasRings q'
              → IdxIs q' m' idx
              → ahead_of idx q' < ahead_of idx q
              → Answered (drain_loop g fuel true dev' q' m'))
          → Answered (drain_loop g (suc fuel) completed dev q m)
      go (over dev' q' r) e on rest = rw (drain_loop, e) (_, refl)
      go (again dev' q' m') e (h', there', less) rest =
          rw (drain_loop, e) (rest dev' q' m' h' there' less)

  -- Where the index cannot be read, the first round is the last.
  no_idx :
      (fuel : ℕ) (completed : Bool) (dev : VsockDevice) (q : SplitQueue) (m : g.Mem)
      → ((idx : ℕ) → ¬ IdxIs q m idx)
      → Answered (drain_loop g (suc fuel) completed dev q m)
  unfolding drain_loop drain_round drain_popped
  no_idx fuel completed dev q m bad = elim (pop_avail_lem g q m) [
    | inl (e, _) ↦ absurd (bad _ e)
    | inr (inl (c, o, _, _)) ↦ absurd (bad _ o.idx_there)
    | inr (inr (_, none_there, _, _)) ↦ ended (pop_avail g q m) refl none_there
  ]
    where
      ended :
          (p : SplitQueue × Outcome QueueError (Option DescChain))
          → pop_avail g q m ≡ p
          → ((d : Option DescChain) → ¬ (p.1 ≡ ok d))
          → Answered (drain_loop g (suc fuel) completed dev q m)
      ended (q', ok d) e bad = absurd (bad d refl)
      ended (q', err x) e bad = rw (drain_loop, drain_round, e) (_, refl)
      ended (q', Outcome.panic) e bad = rw (drain_loop, drain_round, e) (_, refl)

  enough :
      (completed : Bool) (dev : VsockDevice) (q : SplitQueue) (m : g.Mem)
      → HasRings q
      → Answered (drain_loop g (2 ^ 16) completed dev q m)
  enough completed dev q m h = elim (Outcome-cases (read_int g 2 m (at q.avail 2))) [
    | inl (idx, there) ↦ loop_ends (2 ^ 16) completed dev idx q m h there (omega arith)
    | inr bad ↦ no_idx 65535 completed dev q m bad
  ]

  -- What the device knows of its queue of packets from the guest.
  abbrev pub TxRings : Option SplitQueue → Type 0
  TxRings none = Unit {0}
  TxRings (some q) = HasRings q

  -- In a lawful guest memory, where the rings of the queue from the guest lie in the address space
  -- and the used ring does not cover the available ring's index, a device cycle takes at most
  -- 2 ^ 16 rounds of the loop that drains that queue, whatever the guest has put into the rings:
  -- with that much fuel `process` has a result, which may be an error.
  pub process_ends :
      (dev : VsockDevice) (m : g.Mem)
      → TxRings (sync_queues dev).tx
      → (out : VsockDevice × Completed g) × (process g (2 ^ 16) dev m ≡ some out)
  unfolding process drain_tx sync_queues
  process_ends dev m h = elim (Option-cases (sync_queues dev).tx) [
    | inl e ↦ answered (some (sync_queues dev, ok (false, m))) (rw (drain_tx, e) refl) (_, refl)
    | inr (q, e) ↦
        let (out, ends) = enough false (sync_queues dev) q m (subst TxRings e h) in
        answered (tx_back g (some out)) (rw (drain_tx, e, ends) refl) (_, refl)
  ]
    where
      answered :
          (o : Option (VsockDevice × Completed g))
          → drain_tx g (2 ^ 16) (sync_queues dev) m ≡ o
          → ((out : VsockDevice × Completed g) × (o ≡ some out))
          → (out : VsockDevice × Completed g) × (process g (2 ^ 16) dev m ≡ some out)
      answered none e (out, bad) = absurd (cc bad)
      answered (some (dev', ok (drained, m'))) e there = (_, ap (then_flush g) e)
      answered (some (dev', err x)) e there = (_, ap (then_flush g) e)
      answered (some (dev', Outcome.panic)) e there = (_, ap (then_flush g) e)
