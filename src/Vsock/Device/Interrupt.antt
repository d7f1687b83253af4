-- ===== src/Vsock/Device/Interrupt.antt =====
-- crates/virtio-vsock/src/device.rs: when a cycle asserts the device's interrupt.
use rust_nano_vm.Prelude.{
  ℕ, zero, suc, ◌≡◌, refl, ap, ◌∙◌, Bool, true, false, not, Option, none, some, List, Outcome, ok,
  err, Option-cases, inl, inr, ◌==◌, ◌⊎◌, subst,
}
use rust_nano_vm.Vsock.Queue.{QueueError, GuestRam, DescChain, SplitQueue, pop_avail}
use rust_nano_vm.Vsock.Mmio.Shape.{IsTransport, raised}
use rust_nano_vm.Vsock.Mmio.{MmioTransport, raise_interrupt}
use rust_nano_vm.Vsock.Mmio
use rust_nano_vm.Vsock.Device.{OutPacket, VsockDevice, interrupt_asserted, sync_queues}
use rust_nano_vm.Vsock.Device.Cycle.{
  DrainRound, over, again, drain_pushed, drain_handled, drain_popped, drain_round, drain_loop,
  drain_tx, tx_back, flush_rx, interrupting, then_flush, Completed, process,
}
use rust_nano_vm.Vsock.Device.Invariant.{Kept, drain_tx-Kept, flush_rx-IsDevice}
use rust_nano_vm.Vsock.Device.Calls.{IsDevice, sync_queues-IsDevice}
use rust_nano_vm.Vsock.Device.Flushing.{
  AllDelivered, nothing, one_more, Ended, all_sent, no_buffer, failed_before, failed_after,
  flush_loop-Flushed, done_after,
}

module _ (g : GuestRam) where
  -- A part of a cycle that says it completed nothing has left the memory.
  abbrev Quiet : g.Mem → Completed g → Type 0
  Quiet m (ok (false, m')) = m' ≡ m
  Quiet m _ = Unit {0}

  abbrev QuietLoop : g.Mem → Option (VsockDevice × SplitQueue × Completed g) → Type 0
  QuietLoop m none = Unit {0}
  QuietLoop m (some (dev, q, r)) = Quiet m r

  abbrev QuietTx : g.Mem → Option (VsockDevice × Completed g) → Type 0
  QuietTx m none = Unit {0}
  QuietTx m (some (dev, r)) = Quiet m r

  -- A round that breaks has left the memory.
  abbrev QuietRound : g.Mem → DrainRound g → Type 0
  QuietRound m (over dev q (ok m')) = m' ≡ m
  QuietRound m _ = Unit {0}

  pushed-QuietRound :
      (dev : VsockDevice) (m : g.Mem) (r : SplitQueue × Outcome QueueError g.Mem)
      → QuietRound m (drain_pushed g dev r)
  pushed-QuietRound dev m (q, ok m') = tt
  pushed-QuietRound dev m (q, err e) = tt
  pushed-QuietRound dev m (q, Outcome.panic) = tt

  handled-QuietRound :
      (dev : VsockDevice) (q : SplitQueue) (m : g.Mem) (head : ℕ)
      (r : Outcome QueueError VsockDevice)
      → QuietRound m (drain_handled g dev q m head r)
  handled-QuietRound dev q m head (ok dev') = pushed-QuietRound dev' m _
  handled-QuietRound dev q m head (err e) = tt
  handled-QuietRound dev q m head Outcome.panic = tt

  popped-QuietRound :
      (dev : VsockDevice) (m : g.Mem) (p : SplitQueue × Outcome QueueError (Option DescChain))
      → QuietRound m (drain_popped g dev m p)
  unfolding drain_popped
  popped-QuietRound dev m (q, ok none) = refl
  popped-QuietRound dev m (q, ok (some chain)) = handled-QuietRound dev q m chain.head _
  popped-QuietRound dev m (q, err e) = tt
  popped-QuietRound dev m (q, Outcome.panic) = tt

  -- Once a buffer is completed the loop says so.
  abbrev Told : Option (VsockDevice × SplitQueue × Completed g) → Type 0
  Told (some (dev, q, ok (false, m))) = ⊥
  Told _ = Unit {0}

  told : (m : g.Mem) (o : Option (VsockDevice × SplitQueue × Completed g)) → Told o → QuietLoop m o
  told m none h = tt
  told m (some (dev, q, ok (true, m'))) h = tt
  told m (some (dev, q, ok (false, m'))) h = absurd h
  told m (some (dev, q, err e)) h = tt
  told m (some (dev, q, Outcome.panic)) h = tt

  loop-Told :
      (fuel : ℕ) (dev : VsockDevice) (q : SplitQueue) (m : g.Mem)
      → Told (drain_loop g fuel true dev q m)
  unfolding drain_loop
  loop-Told zero dev q m = tt
  loop-Told (suc fuel) dev q m =
      go (drain_round g dev q m) refl (λ dev' q' m'. loop-Told fuel dev' q' m')
    where
      go :
          (r : DrainRound g)
          → drain_round g dev q m ≡ r
          → ((dev' : VsockDevice) (q' : SplitQueue) (m' : g.Mem)
              → Told (drain_loop g fuel true dev' q' m'))
          → Told (drain_loop g (suc fuel) true dev q m)
      go (over dev' q' (ok m')) e rest = rw (drain_loop, e) tt
      go (over dev' q' (err x)) e rest = rw (drain_loop, e) tt
      go (over dev' q' Outcome.panic) e rest = rw (drain_loop, e) tt
      go (again dev' q' m') e rest = rw (drain_loop, e) (rest dev' q' m')

  loop-QuietLoop :
      (fuel : ℕ) (dev : VsockDevice) (q : SplitQueue) (m : g.Mem)
      → QuietLoop m (drain_loop g fuel false dev q m)
  unfolding drain_loop drain_round
  loop-QuietLoop zero dev q m = tt
  loop-QuietLoop (suc fuel) dev q m =
      go (drain_round g dev q m) refl (popped-QuietRound dev m (pop_avail g q m))
    where
      go :
          (r : DrainRound g)
          → drain_round g dev q m ≡ r
          → QuietRound m r
          → QuietLoop m (drain_loop g (suc fuel) false dev q m)
      go (over dev' q' (ok m')) e same = rw (drain_loop, e) same
      go (over dev' q' (err x)) e same = rw (drain_loop, e) tt
      go (over dev' q' Outcome.panic) e same = rw (drain_loop, e) tt
      go (again dev' q' m') e same = rw (drain_loop, e) (told m _ (loop-Told fuel dev' q' m'))

  back-QuietTx :
      (m : g.Mem) (o : Option (VsockDevice × SplitQueue × Completed g))
      → QuietLoop m o
      → QuietTx m (tx_back g o)
  back-QuietTx m none h = tt
  back-QuietTx m (some (dev, q, r)) h = h

  drain_tx-QuietTx : (fuel : ℕ) (dev : VsockDevice) (m : g.Mem) → QuietTx m (drain_tx g fuel dev m)
  unfolding drain_tx
  drain_tx-QuietTx fuel dev m = elim (Option-cases dev.tx) [
    | inl e ↦ simp (drain_tx, e) refl
    | inr (q, e) ↦ simp (drain_tx, e) (back-QuietTx m _ (loop-QuietLoop fuel dev q m))
  ]

  refused-Quiet :
      (m : g.Mem) (r : Completed g) → ((out : Bool × g.Mem) → ¬ (r ≡ ok out)) → Quiet m r
  refused-Quiet m (ok out) bad = absurd (bad out refl)
  refused-Quiet m (err e) bad = tt
  refused-Quiet m Outcome.panic bad = tt

  Ended-Quiet :
      {q q1 : SplitQueue} {m m1 : g.Mem} {delivered rest : List OutPacket}
      {out : List OutPacket × SplitQueue × Completed g}
      → AllDelivered g delivered q m q1 m1
      → Ended g q1 m1 (done_after g false delivered) rest out
      → Quiet m out.2
  Ended-Quiet nothing all_sent = refl
  Ended-Quiet nothing (no_buffer rest e) = refl
  Ended-Quiet {m = m} each (failed_before rest q' r bad) = refused-Quiet m r bad
  Ended-Quiet {m = m} each (failed_after p rest q' r bad) = refused-Quiet m r bad
  Ended-Quiet (one_more d each) all_sent = tt
  Ended-Quiet (one_more d each) (no_buffer rest e) = tt

  flush_rx-Quiet : (dev : VsockDevice) (m : g.Mem) → Quiet m (flush_rx g dev m).1
  unfolding flush_rx
  flush_rx-Quiet dev m = elim (Option-cases dev.rx) [
    | inl e ↦ simp (flush_rx, e) refl
    | inr (q, e) ↦
        simp (flush_rx, e)
          (let f = flush_loop-Flushed g dev.outbound false q m in Ended-Quiet f.each f.ended)
  ]

  -- A cycle that succeeds says whether it completed a buffer.
  abbrev Signalled : g.Mem → Option (VsockDevice × Completed g) → Type 0
  Signalled m none = Unit {0}
  Signalled m (some (dev, ok (true, m'))) = interrupt_asserted dev ≡ true
  Signalled m (some (dev, ok (false, m'))) = m' ≡ m
  Signalled m (some (dev, r)) = Unit {0}

  asserted :
      (dev : VsockDevice)
      → IsTransport dev.transport
      → interrupt_asserted (record dev { transport = raise_interrupt dev.transport }) ≡ true
  unfolding interrupt_asserted Mmio.interrupt_asserted raise_interrupt
  asserted dev (_, _, _, _, _, one) = ap (λ (i : ℕ). not (i == 0)) (raised _ one)

  interrupting-Signalled :
      (m m1 : g.Mem) (drained : Bool) (d : VsockDevice × Completed g)
      → Quiet m (ok (drained, m1))
      → Quiet m1 d.1
      → IsDevice d.0
      → Signalled m (some (interrupting g d drained))
  interrupting-Signalled m m1 true (dev, ok (flushed, m2)) q1 q2 h = asserted dev h.0
  interrupting-Signalled m m1 false (dev, ok (true, m2)) q1 q2 h = asserted dev h.0
  interrupting-Signalled m m1 false (dev, ok (false, m2)) q1 q2 h = q2 ∙ q1
  interrupting-Signalled m m1 drained (dev, err e) q1 q2 h = tt
  interrupting-Signalled m m1 drained (dev, Outcome.panic) q1 q2 h = tt

  flushed-Signalled :
      (m : g.Mem) (o : Option (VsockDevice × Completed g))
      → QuietTx m o
      → Kept g o
      → Signalled m (then_flush g o)
  flushed-Signalled m none quiet h = tt
  flushed-Signalled m (some (dev, ok (drained, m1))) quiet h =
      interrupting-Signalled m m1 drained (flush_rx g dev m1) quiet (flush_rx-Quiet dev m1)
        (flush_rx-IsDevice g dev m1 h)
  flushed-Signalled m (some (dev, err e)) quiet h = tt
  flushed-Signalled m (some (dev, Outcome.panic)) quiet h = tt

  process-Signalled :
      (fuel : ℕ) (dev : VsockDevice) (m : g.Mem) → IsDevice dev → Signalled m (process g fuel dev m)
  unfolding process
  process-Signalled fuel dev m h =
      flushed-Signalled m _ (drain_tx-QuietTx fuel (sync_queues dev) m)
        (drain_tx-Kept g fuel _ m (sync_queues-IsDevice dev h))

  -- A device cycle that succeeds either says that it completed a buffer, and the device's interrupt
  -- is asserted, or says that it did not, and the guest's memory is as it was.
  pub process_lem :
      (fuel : ℕ) (dev dev' : VsockDevice) (m m' : g.Mem) (completed : Bool)
      → IsDevice dev
      → process g fuel dev m ≡ some (dev', ok (completed, m'))
      → ((completed ≡ true) × (interrupt_asserted dev' ≡ true)) ⊎ ((completed ≡ false) × (m' ≡ m))
  process_lem fuel dev dev' m m' completed h e =
      split completed (subst (Signalled m) e (process-Signalled fuel dev m h))
    where
      split :
          (completed : Bool)
          → Signalled m (some (dev', ok (completed, m')))
          → ((completed ≡ true) × (interrupt_asserted dev' ≡ true))
            ⊎ ((completed ≡ false) × (m' ≡ m))
      split true s = inl (refl, s)
      split false s = inr (refl, s)
