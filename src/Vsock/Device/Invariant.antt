-- ===== src/Vsock/Device/Invariant.antt =====
-- crates/virtio-vsock/src/device.rs: what holds of the device whatever its guest and its host do.
use rust_nano_vm.Prelude.{
  ℕ, zero, suc, ◌≡◌, refl, Bool, true, false, Option, none, some, List, [], ◌∷◌, Outcome, ok, err,
  ◌>>=◌, Option-cases, inl, inr,
}
use rust_nano_vm.Vsock.Header.{VsockHeader, VsockError, from_bytes}
use rust_nano_vm.Vsock.Endpoint.{ConnectionId}
use rust_nano_vm.Vsock.Reply.{TableConfig}
use rust_nano_vm.Vsock.Table.Sending.{happens-IsTable}
use rust_nano_vm.Vsock.Table
use rust_nano_vm.Vsock.Queue.{
  QueueError, GuestRam, DescChain, SplitQueue, read_readable, pop_avail, push_used,
}
use rust_nano_vm.Vsock.Mmio.Shape.{new_vsock-IsTransport, raise_interrupt-IsTransport}
use rust_nano_vm.Vsock.Device.{
  VsockDevice, new, mmio_write, listen, unlisten, send, recv, handle_guest_packet,
}
use rust_nano_vm.Vsock.Device.Cycle.{
  DrainRound, over, again, drain_pushed, drain_handled, drain_popped, drain_round, drain_loop,
  drain_tx, tx_back, flush_rx, interrupting, then_flush, Completed, process,
}
use rust_nano_vm.Vsock.Device.Calls.{
  IsDevice, handle_header-IsDevice, listen-IsDevice, mmio_write-IsDevice, recv-IsDevice,
  send-IsDevice, sync_queues-IsDevice, unlisten-IsDevice,
}

module _ (g : GuestRam) where
  abbrev KeptBy : Outcome QueueError VsockDevice → Type 0
  KeptBy (ok dev) = IsDevice dev
  KeptBy _ = Unit {0}

  handled-KeptBy :
      (dev : VsockDevice)
      → IsDevice dev
      → (raw : Outcome QueueError (List ℕ)) → KeptBy (raw >>= handle_guest_packet dev)
  unfolding handle_guest_packet
  handled-KeptBy dev h (ok raw) = go (from_bytes raw) refl
    where
      go :
          (r : Outcome VsockError VsockHeader)
          → from_bytes raw ≡ r
          → KeptBy (handle_guest_packet dev raw)
      go (ok hdr) e = rw (handle_guest_packet, e) (handle_header-IsDevice dev raw hdr h)
      go (err x) e = rw (handle_guest_packet, e) h
      go Outcome.panic e = rw (handle_guest_packet, e) tt
  handled-KeptBy dev h (err e) = tt
  handled-KeptBy dev h Outcome.panic = tt

  abbrev device_of : DrainRound g → VsockDevice
  device_of (over dev q r) = dev
  device_of (again dev q m) = dev

  pushed-IsDevice :
      (dev : VsockDevice)
      → IsDevice dev
      → (r : SplitQueue × Outcome QueueError g.Mem) → IsDevice (device_of (drain_pushed g dev r))
  pushed-IsDevice dev h (q, ok m) = h
  pushed-IsDevice dev h (q, err e) = h
  pushed-IsDevice dev h (q, Outcome.panic) = h

  served-IsDevice :
      (dev : VsockDevice) (q : SplitQueue) (m : g.Mem) (head : ℕ)
      → IsDevice dev
      → (r : Outcome QueueError VsockDevice) → KeptBy r
      → IsDevice (device_of (drain_handled g dev q m head r))
  served-IsDevice dev q m head h (ok dev') h' = pushed-IsDevice dev' h' (push_used g q m head 0)
  served-IsDevice dev q m head h (err e) h' = h
  served-IsDevice dev q m head h Outcome.panic h' = h

  popped-IsDevice :
      (dev : VsockDevice) (m : g.Mem)
      → IsDevice dev
      → (p : SplitQueue × Outcome QueueError (Option DescChain))
      → IsDevice (device_of (drain_popped g dev m p))
  unfolding drain_popped
  popped-IsDevice dev m h (q, ok none) = h
  popped-IsDevice dev m h (q, ok (some chain)) =
      served-IsDevice dev q m chain.head h _
        (handled-KeptBy dev h (read_readable g m chain.descriptors))
  popped-IsDevice dev m h (q, err e) = h
  popped-IsDevice dev m h (q, Outcome.panic) = h

  -- What has a result has kept the device.
  abbrev pub Kept : Option (VsockDevice × Completed g) → Type 0
  Kept none = Unit {0}
  Kept (some (dev, r)) = IsDevice dev

  abbrev LoopKept : Option (VsockDevice × SplitQueue × Completed g) → Type 0
  LoopKept none = Unit {0}
  LoopKept (some (dev, q, r)) = IsDevice dev

  loop-Kept :
      (fuel : ℕ) (completed : Bool) (dev : VsockDevice) (q : SplitQueue) (m : g.Mem)
      → IsDevice dev
      → LoopKept (drain_loop g fuel completed dev q m)
  unfolding drain_loop drain_round
  loop-Kept zero completed dev q m h = tt
  loop-Kept (suc fuel) completed dev q m h =
      go (drain_round g dev q m) refl (popped-IsDevice dev m h (pop_avail g q m))
        (λ dev' q' m' h'. loop-Kept fuel true dev' q' m' h')
    where
      go :
          (r : DrainRound g)
          → drain_round g dev q m ≡ r
          → IsDevice (device_of r)
          → ((dev' : VsockDevice) (q' : SplitQueue) (m' : g.Mem)
              → IsDevice dev'
              → LoopKept (drain_loop g fuel true dev' q' m'))
          → LoopKept (drain_loop g (suc fuel) completed dev q m)
      go (over dev' q' r) e h' rest = rw (drain_loop, e) h'
      go (again dev' q' m') e h' rest = rw (drain_loop, e) (rest dev' q' m' h')

  back-Kept :
      (o : Option (VsockDevice × SplitQueue × Completed g)) → LoopKept o → Kept (tx_back g o)
  back-Kept none h = tt
  back-Kept (some (dev, q, r)) h = h

  pub drain_tx-Kept :
      (fuel : ℕ) (dev : VsockDevice) (m : g.Mem) → IsDevice dev → Kept (drain_tx g fuel dev m)
  unfolding drain_tx
  drain_tx-Kept fuel dev m h = elim (Option-cases dev.tx) [
    | inl e ↦ simp (drain_tx, e) h
    | inr (q, e) ↦ simp (drain_tx, e) (back-Kept _ (loop-Kept fuel false dev q m h))
  ]

  pub flush_rx-IsDevice :
      (dev : VsockDevice) (m : g.Mem) → IsDevice dev → IsDevice (flush_rx g dev m).0
  unfolding flush_rx
  flush_rx-IsDevice dev m h = elim (Option-cases dev.rx) [
    | inl e ↦ simp (flush_rx, e) h
    | inr (q, e) ↦ simp (flush_rx, e) h
  ]

  interrupting-IsDevice :
      (d : VsockDevice × Completed g) (drained : Bool)
      → IsDevice d.0
      → IsDevice (interrupting g d drained).0
  interrupting-IsDevice (dev, ok (true, m)) false h =
      (raise_interrupt-IsTransport dev.transport h.0, h.1)
  interrupting-IsDevice (dev, ok (flushed, m)) true h =
      (raise_interrupt-IsTransport dev.transport h.0, h.1)
  interrupting-IsDevice (dev, ok (false, m)) false h = h
  interrupting-IsDevice (dev, err e) drained h = h
  interrupting-IsDevice (dev, Outcome.panic) drained h = h

  flushed-Kept : (o : Option (VsockDevice × Completed g)) → Kept o → Kept (then_flush g o)
  flushed-Kept none h = tt
  flushed-Kept (some (dev, ok (drained, m))) h =
      interrupting-IsDevice (flush_rx g dev m) drained (flush_rx-IsDevice dev m h)
  flushed-Kept (some (dev, err e)) h = h
  flushed-Kept (some (dev, Outcome.panic)) h = h

  process-Kept :
      (fuel : ℕ) (dev : VsockDevice) (m : g.Mem) → IsDevice dev → Kept (process g fuel dev m)
  unfolding process
  process-Kept fuel dev m h = flushed-Kept _ (drain_tx-Kept fuel _ m (sync_queues-IsDevice dev h))

-- What a guest and its host do: a write to a register, the calls of the host, and a device cycle.
pub data Event (g : GuestRam) : Type 0 where
  writes : (offset size value : ℕ) → Event g
  starts stops : (port : ℕ) → Event g
  sends_data : (id : ConnectionId) (payload : List ℕ) → Event g
  receives_data : Event g
  cycles : (fuel : ℕ) → g.Mem → Event g

module _ (g : GuestRam) where
  -- The device after a cycle, if that ended.
  abbrev cycled : VsockDevice → Option (VsockDevice × Completed g) → VsockDevice
  cycled dev none = dev
  cycled dev (some (dev', r)) = dev'

  unfoldable pub happen : VsockDevice → Event g → VsockDevice
  happen dev (writes offset size value) = (mmio_write dev offset size value).0
  happen dev (starts port) = (listen dev port).0
  happen dev (stops port) = (unlisten dev port).0
  happen dev (sends_data id payload) = (send dev id payload).0
  happen dev receives_data = (recv dev).0
  happen dev (cycles fuel m) = cycled dev (process g fuel dev m)

  unfoldable pub happens : VsockDevice → List (Event g) → VsockDevice
  happens dev [] = dev
  happens dev (e ∷ es) = happens (happen dev e) es

  cycled-IsDevice :
      (dev : VsockDevice) (o : Option (VsockDevice × Completed g))
      → IsDevice dev
      → Kept g o
      → IsDevice (cycled dev o)
  cycled-IsDevice dev none h kept = h
  cycled-IsDevice dev (some (dev', r)) h kept = kept

  happen-IsDevice : (dev : VsockDevice) (e : Event g) → IsDevice dev → IsDevice (happen dev e)
  unfolding happen
  happen-IsDevice dev (writes offset size value) h = mmio_write-IsDevice dev h offset size value
  happen-IsDevice dev (starts port) h = listen-IsDevice dev h port
  happen-IsDevice dev (stops port) h = unlisten-IsDevice dev h port
  happen-IsDevice dev (sends_data id payload) h = send-IsDevice dev id payload h
  happen-IsDevice dev receives_data h = recv-IsDevice dev h
  happen-IsDevice dev (cycles fuel m) h =
      cycled-IsDevice dev (process g fuel dev m) h (process-Kept g fuel dev m h)

  -- Whatever a guest writes to the registers and into its memory and whatever its host calls, a
  -- device that began as a new one is a vsock device with three queues, its registers, the queues'
  -- addresses and the config space are within their types, no interrupt bit but that of the rings
  -- is set, and each connection of its table is filed under its own pair, established or half
  -- closed, with the configured window and nothing taken out of it.
  pub happens-IsDevice :
      (guest_cid : ℕ) (cfg : TableConfig) (es : List (Event g))
      → IsDevice (happens (new guest_cid cfg) es)
  unfolding happens new Table.Sending.happens
  happens-IsDevice guest_cid cfg es =
      go (new guest_cid cfg) es (new_vsock-IsTransport guest_cid, happens-IsTable cfg [])
    where
      go : (dev : VsockDevice) (es : List (Event g)) → IsDevice dev → IsDevice (happens dev es)
      go dev [] h = h
      go dev (e ∷ es) h = go (happen dev e) es (happen-IsDevice dev e h)
