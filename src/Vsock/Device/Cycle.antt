-- ===== src/Vsock/Device/Cycle.antt =====
-- crates/virtio-vsock/src/device.rs: `process`, with the two loops over the queues. While a loop
-- runs, the queue that it has taken out of the device is beside it.
use rust_nano_vm.Prelude.{
  ℕ, zero, suc, ◌%◌, ◌^◌, Bool, true, false, ◌||◌, Option, none, some, List, [], ◌∷◌, ◌++◌,
  if◌then◌else◌, Outcome, ok, err, ◌>>=◌,
}
use rust_nano_vm.Vsock.Header.{to_bytes}
use rust_nano_vm.Vsock.Queue.{
  QueueError, GuestRam, DescChain, SplitQueue, read_readable, write_writable, pop_avail, push_used,
}
use rust_nano_vm.Vsock.Mmio.{raise_interrupt}
use rust_nano_vm.Vsock.Device.{OutPacket, VsockDevice, handle_guest_packet, sync_queues}

-- A round of the loop of `drain_tx`: it breaks with a result, or has completed a buffer.
pub data DrainRound (g : GuestRam) : Type 0 where
  over : VsockDevice → SplitQueue → Outcome QueueError g.Mem → DrainRound g
  again : VsockDevice → SplitQueue → g.Mem → DrainRound g

-- A round of the loop of `flush_rx` on the packet at the front: it breaks before the packet is
-- taken, or after, or has delivered it.
pub data FlushRound (g : GuestRam) : Type 0 where
  kept : SplitQueue → Outcome QueueError g.Mem → FlushRound g
  lost : SplitQueue → Outcome QueueError g.Mem → FlushRound g
  sent : SplitQueue → g.Mem → FlushRound g

-- The header and the payload of a packet, as a buffer.
unfoldable pub packet_bytes : OutPacket → Outcome QueueError (List ℕ)
packet_bytes p = elim (to_bytes p.header) [
  | ok header ↦ ok (header ++ p.payload)
  | _ ↦ Outcome.panic
]

module _ (g : GuestRam) where
  -- Whether a buffer was completed, and the memory.
  abbrev pub Completed : Type 0
  Completed = Outcome QueueError (Bool × g.Mem)

  abbrev pub completing : Bool → Outcome QueueError g.Mem → Completed
  completing completed r = r >>= λ m. ok (completed, m)

  abbrev pub drain_pushed : VsockDevice → SplitQueue × Outcome QueueError g.Mem → DrainRound g
  drain_pushed dev (q, ok m) = again dev q m
  drain_pushed dev (q, err e) = over dev q (err e)
  drain_pushed dev (q, Outcome.panic) = over dev q Outcome.panic

  abbrev pub drain_handled :
      VsockDevice → SplitQueue → g.Mem → ℕ → Outcome QueueError VsockDevice → DrainRound g
  drain_handled dev q m head (ok dev') = drain_pushed dev' (push_used g q m head 0)
  drain_handled dev q m head (err e) = over dev q (err e)
  drain_handled dev q m head Outcome.panic = over dev q Outcome.panic

  unfoldable pub drain_popped :
      VsockDevice → g.Mem → SplitQueue × Outcome QueueError (Option DescChain) → DrainRound g
  drain_popped dev m (q, ok (some chain)) =
      drain_handled dev q m chain.head
        (read_readable g m chain.descriptors >>= handle_guest_packet dev)
  drain_popped dev m (q, ok none) = over dev q (ok m)
  drain_popped dev m (q, err e) = over dev q (err e)
  drain_popped dev m (q, Outcome.panic) = over dev q Outcome.panic

  unfoldable pub drain_round : VsockDevice → SplitQueue → g.Mem → DrainRound g
  drain_round dev q m = drain_popped dev m (pop_avail g q m)

  -- The loop of `drain_tx` on fuel: none where the fuel runs out.
  unfoldable pub drain_loop :
      ℕ → Bool → VsockDevice → SplitQueue → g.Mem → Option (VsockDevice × SplitQueue × Completed)
  drain_loop zero completed dev q m = none
  drain_loop (suc fuel) completed dev q m = elim (drain_round dev q m) [
    | over dev' q' r ↦ some (dev', q', completing completed r)
    | again dev' q' m' ↦ drain_loop fuel true dev' q' m'
  ]

  abbrev pub tx_back :
      Option (VsockDevice × SplitQueue × Completed) → Option (VsockDevice × Completed)
  tx_back none = none
  tx_back (some (dev, q, r)) = some (record dev { tx = some q }, r)

  unfoldable pub drain_tx : ℕ → VsockDevice → g.Mem → Option (VsockDevice × Completed)
  drain_tx fuel dev m = elim dev.tx [
    | none ↦ some (dev, ok (false, m))
    | some q ↦ tx_back (drain_loop fuel false dev q m)
  ]

  abbrev pub flush_pushed : SplitQueue × Outcome QueueError g.Mem → FlushRound g
  flush_pushed (q, ok m) = sent q m
  flush_pushed (q, err e) = lost q (err e)
  flush_pushed (q, Outcome.panic) = lost q Outcome.panic

  -- `written as u32`
  abbrev pub flush_written : SplitQueue → ℕ → Outcome QueueError (g.Mem × ℕ) → FlushRound g
  flush_written q head (ok (m, written)) = flush_pushed (push_used g q m head (written % 2 ^ 32))
  flush_written q head (err e) = lost q (err e)
  flush_written q head Outcome.panic = lost q Outcome.panic

  unfoldable pub flush_popped :
      OutPacket → g.Mem → SplitQueue × Outcome QueueError (Option DescChain) → FlushRound g
  flush_popped p m (q, ok (some chain)) =
      flush_written q chain.head (packet_bytes p >>= write_writable g m chain.descriptors)
  flush_popped p m (q, ok none) = kept q (ok m)
  flush_popped p m (q, err e) = kept q (err e)
  flush_popped p m (q, Outcome.panic) = kept q Outcome.panic

  unfoldable pub flush_round : OutPacket → SplitQueue → g.Mem → FlushRound g
  flush_round p q m = flush_popped p m (pop_avail g q m)

  -- The loop of `flush_rx`, with the packets that are left after it.
  unfoldable pub flush_loop :
      List OutPacket → Bool → SplitQueue → g.Mem → List OutPacket × SplitQueue × Completed
  flush_loop [] completed q m = ([], q, ok (completed, m))
  flush_loop (p ∷ ps) completed q m = elim (flush_round p q m) [
    | kept q' r ↦ (p ∷ ps, q', completing completed r)
    | lost q' r ↦ (ps, q', completing completed r)
    | sent q' m' ↦ flush_loop ps true q' m'
  ]

  unfoldable pub flush_rx : VsockDevice → g.Mem → VsockDevice × Completed
  flush_rx dev m = elim dev.rx [
    | none ↦ (dev, ok (false, m))
    | some q ↦
        let (left, q', r) = flush_loop dev.outbound false q m in
        (record dev { rx = some q'; outbound = left }, r)
  ]

  abbrev pub interrupting : VsockDevice × Completed → Bool → VsockDevice × Completed
  interrupting (dev, ok (flushed, m)) drained =
      let completed = drained || flushed in
      (
        if completed then record dev { transport = raise_interrupt dev.transport } else dev,
        ok (completed, m),
      )
  interrupting (dev, r) drained = (dev, r)

  abbrev pub then_flush : Option (VsockDevice × Completed) → Option (VsockDevice × Completed)
  then_flush none = none
  then_flush (some (dev, ok (drained, m))) = some (interrupting (flush_rx dev m) drained)
  then_flush (some (dev, r)) = some (dev, r)

  unfoldable pub process : ℕ → VsockDevice → g.Mem → Option (VsockDevice × Completed)
  process fuel dev m = then_flush (drain_tx fuel (sync_queues dev) m)
