-- ===== src/Vsock/Device/Flushing.antt =====
-- crates/virtio-vsock/src/device.rs: the packets that wait for the guest.
use rust_nano_vm.Prelude.{
  ℕ, ◌≡◌, refl, ap, sym, ◌∙◌, inl, inr, subst, Bool, true, Option, none, some, List, [], ◌∷◌, ◌++◌,
  ◌%◌, ◌^◌, Outcome, ok, err, ◌>>=◌,
}
use rust_nano_vm.Vsock.Queue.{
  QueueError, GuestRam, DescChain, SplitQueue, pop_avail, push_used, write_writable,
}
use rust_nano_vm.Vsock.Queue.Popped.{pop_avail_lem}
use rust_nano_vm.Vsock.Device.{OutPacket}
use rust_nano_vm.Vsock.Device.Cycle.{
  FlushRound, kept, lost, sent, packet_bytes, flush_written, flush_pushed, flush_popped,
  flush_round, flush_loop, Completed,
}

module _ (g : GuestRam) where
  -- The packet has been delivered: the driver offered a chain, the packet's bytes were written into
  -- it, and the chain was reported with their number.
  pub record Delivered (p : OutPacket) (q : SplitQueue) (m : g.Mem) (q' : SplitQueue) (m' : g.Mem)
      : Type 0 where
    pub popped : SplitQueue
    pub chain : DescChain
    pub bytes : List ℕ
    pub filled : g.Mem
    pub written : ℕ
    pub offered : pop_avail g q m ≡ (popped, ok (some chain))
    pub as_bytes : packet_bytes p ≡ ok bytes
    pub put : write_writable g m chain.descriptors bytes ≡ ok (filled, written)
    pub reported : push_used g popped filled chain.head (written % 2 ^ 32) ≡ (q', ok m')

  -- The packets that were delivered one after the other, between two states of the ring.
  pub data AllDelivered : List OutPacket → SplitQueue → g.Mem → SplitQueue → g.Mem → Type 0 where
    nothing : {q : SplitQueue} {m : g.Mem} → AllDelivered [] q m q m
    one_more :
        {p : OutPacket} {ps : List OutPacket} {q1 q2 q3 : SplitQueue} {m1 m2 m3 : g.Mem}
        → Delivered p q1 m1 q2 m2
        → AllDelivered ps q2 m2 q3 m3
        → AllDelivered (p ∷ ps) q1 m1 q3 m3

  -- How a flush has ended: nothing is left, or the ring offers no chain, or a call failed and took
  -- at most the packet at the front with it.
  pub data Ended (q : SplitQueue) (m : g.Mem) (some_done : Bool)
      : List OutPacket → List OutPacket × SplitQueue × Completed g → Type 0 where
    all_sent : Ended q m some_done [] ([], q, ok (some_done, m))
    no_buffer :
        (rest : List OutPacket)
        → pop_avail g q m ≡ (q, ok none)
        → Ended q m some_done rest (rest, q, ok (some_done, m))
    failed_before :
        (rest : List OutPacket) (q' : SplitQueue) (r : Completed g)
        → ((out : Bool × g.Mem) → ¬ (r ≡ ok out))
        → Ended q m some_done rest (rest, q', r)
    failed_after :
        (p : OutPacket) (rest : List OutPacket) (q' : SplitQueue) (r : Completed g)
        → ((out : Bool × g.Mem) → ¬ (r ≡ ok out))
        → Ended q m some_done (p ∷ rest) (rest, q', r)

  none_kept : (q q' : SplitQueue) (m : g.Mem) → pop_avail g q m ≡ (q', ok none) → q ≡ q'
  none_kept q q' m e = elim (pop_avail_lem g q m) [
    | inl (_, e') ↦ cc (sym e' ∙ e)
    | inr (inl (c, _, _, e')) ↦ absurd (cc (ap (λ r. r.1) (sym e' ∙ e)))
    | inr (inr (_, bad, _, _)) ↦ absurd (bad none (ap (λ r. r.1) e))
  ]

  -- What a round means.
  abbrev Meaning : OutPacket → SplitQueue → g.Mem → FlushRound g → Type 0
  Meaning p q m (kept q' (ok m')) = (pop_avail g q m ≡ (q', ok none)) × (m' ≡ m)
  Meaning p q m (kept q' r) = Unit {0}
  Meaning p q m (lost q' (ok m')) = ⊥
  Meaning p q m (lost q' r) = Unit {0}
  Meaning p q m (sent q' m') = Delivered p q m q' m'

  module _ (p : OutPacket) (q : SplitQueue) (m : g.Mem) (popped : SplitQueue) (chain : DescChain)
      (offered : pop_avail g q m ≡ (popped, ok (some chain))) where
    pushed_means :
        (bytes : List ℕ) (filled : g.Mem) (written : ℕ)
        → packet_bytes p ≡ ok bytes
        → write_writable g m chain.descriptors bytes ≡ ok (filled, written)
        → (r : SplitQueue × Outcome QueueError g.Mem)
        → push_used g popped filled chain.head (written % 2 ^ 32) ≡ r
        → Meaning p q m (flush_pushed g r)
    pushed_means bytes filled written as_bytes put (q', ok m') e = record {
      popped = popped;
      chain = chain;
      bytes = bytes;
      filled = filled;
      written = written;
      offered = offered;
      as_bytes = as_bytes;
      put = put;
      reported = e;
    }
    pushed_means bytes filled written as_bytes put (q', err x) e = tt
    pushed_means bytes filled written as_bytes put (q', Outcome.panic) e = tt

    written_means :
        (bytes : List ℕ)
        → packet_bytes p ≡ ok bytes
        → (r : Outcome QueueError (g.Mem × ℕ)) → write_writable g m chain.descriptors bytes ≡ r
        → Meaning p q m (flush_written g popped chain.head r)
    written_means bytes as_bytes (ok (filled, written)) e =
        pushed_means bytes filled written as_bytes e _ refl
    written_means bytes as_bytes (err x) e = tt
    written_means bytes as_bytes Outcome.panic e = tt

    bytes_means :
        (b : Outcome QueueError (List ℕ))
        → packet_bytes p ≡ b
        → Meaning p q m
            (flush_written g popped chain.head (b >>= write_writable g m chain.descriptors))
    bytes_means (ok bytes) e = written_means bytes e _ refl
    bytes_means (err x) e = tt
    bytes_means Outcome.panic e = tt

  popped_means :
      (p : OutPacket) (q : SplitQueue) (m : g.Mem)
      → (r : SplitQueue × Outcome QueueError (Option DescChain)) → pop_avail g q m ≡ r
      → Meaning p q m (flush_popped g p m r)
  unfolding flush_popped
  popped_means p q m (popped, ok (some chain)) e = bytes_means p q m popped chain e _ refl
  popped_means p q m (popped, ok none) e = (e, refl)
  popped_means p q m (popped, err x) e = tt
  popped_means p q m (popped, Outcome.panic) e = tt

  round-Meaning : (p : OutPacket) (q : SplitQueue) (m : g.Mem) → Meaning p q m (flush_round g p q m)
  unfolding flush_round
  round-Meaning p q m = popped_means p q m (pop_avail g q m) refl

  -- `completed` after some deliveries.
  abbrev pub done_after : Bool → List OutPacket → Bool
  done_after completed [] = completed
  done_after completed (p ∷ ps) = true

  pub record Flushed (ps : List OutPacket) (completed : Bool) (q : SplitQueue) (m : g.Mem)
      (out : List OutPacket × SplitQueue × Completed g) : Type 0 where
    pub delivered : List OutPacket
    pub rest : List OutPacket
    pub queue : SplitQueue
    pub memory : g.Mem
    pub in_order : ps ≡ delivered ++ rest
    pub each : AllDelivered delivered q m queue memory
    pub ended : Ended queue memory (done_after completed delivered) rest out

  stopped :
      (ps : List OutPacket) (completed : Bool) (q : SplitQueue) (m : g.Mem)
      (out : List OutPacket × SplitQueue × Completed g)
      → Ended q m completed ps out
      → Flushed ps completed q m out
  stopped ps completed q m out e = record {
    delivered = [];
    rest = ps;
    queue = q;
    memory = m;
    in_order = refl;
    each = nothing;
    ended = e;
  }

  done_true : (completed : Bool) (ps : List OutPacket) → done_after true ps ≡ true
  done_true completed [] = refl
  done_true completed (p ∷ ps) = refl

  -- The packets that a flush takes off the front are delivered in their order, each in a chain that
  -- the driver offered and that is reported with the number of bytes written, until nothing is
  -- left, or the ring offers no chain, or a call fails; a failure takes at most the packet that was
  -- at the front with it. The flush says that it completed a buffer exactly if it delivered one or
  -- was told so before.
  pub flush_loop-Flushed :
      (ps : List OutPacket) (completed : Bool) (q : SplitQueue) (m : g.Mem)
      → Flushed ps completed q m (flush_loop g ps completed q m)
  unfolding flush_loop
  flush_loop-Flushed [] completed q m = stopped [] completed q m _ all_sent
  flush_loop-Flushed (p ∷ ps) completed q m =
      go (flush_round g p q m) (round-Meaning p q m) refl
        (λ q' m'. flush_loop-Flushed ps true q' m')
    where
      go :
          (r : FlushRound g)
          → Meaning p q m r
          → flush_round g p q m ≡ r
          → ((q' : SplitQueue) (m' : g.Mem) → Flushed ps true q' m' (flush_loop g ps true q' m'))
          → Flushed (p ∷ ps) completed q m (flush_loop g (p ∷ ps) completed q m)
      go (sent q' m') there e onward =
          let f = onward q' m' in
          rw (flush_loop, e)
            (record {
              delivered = p ∷ f.delivered;
              rest = f.rest;
              queue = f.queue;
              memory = f.memory;
              in_order = ap (◌∷◌ p) f.in_order;
              each = one_more there f.each;
              ended =
                  subst (λ b. Ended f.queue f.memory b f.rest (flush_loop g ps true q' m'))
                    (done_true true f.delivered) f.ended;
            })
      go (kept q' (ok m')) (none_there, same) e onward =
          rw (flush_loop, e)
            (subst
              (λ (out : SplitQueue × g.Mem).
                Flushed (p ∷ ps) completed q m (p ∷ ps, out.0, ok (completed, out.1)))
              (λ k. (none_kept q q' m none_there k, sym same k))
              (stopped (p ∷ ps) completed q m _
                (no_buffer (p ∷ ps) (rw (sym (none_kept q q' m none_there)) at none_there))))
      go (kept q' (err x)) there e onward =
          rw (flush_loop, e) (stopped _ _ _ _ _ (failed_before (p ∷ ps) q' _ (λ out h. cc h)))
      go (kept q' Outcome.panic) there e onward =
          rw (flush_loop, e) (stopped _ _ _ _ _ (failed_before (p ∷ ps) q' _ (λ out h. cc h)))
      go (lost q' (ok m')) there e onward = absurd there
      go (lost q' (err x)) there e onward =
          rw (flush_loop, e) (stopped _ _ _ _ _ (failed_after p ps q' _ (λ out h. cc h)))
      go (lost q' Outcome.panic) there e onward =
          rw (flush_loop, e) (stopped _ _ _ _ _ (failed_after p ps q' _ (λ out h. cc h)))
