-- ===== src/Vsock/Queue/Popped.antt =====
-- crates/virtio-vsock/src/queue.rs: what a call of `pop_avail` comes to.
use rust_nano_vm.Prelude.{
  ℕ, subst, ◌*◌, ◌%◌, ◌≤◌, ◌<◌, ◌≡◌, refl, ap, sym, ◌∙◌, ◌⊎◌, inl, inr, arith, true, false, Option,
  none, some, List, length, leb, ◌==◌, ==→eq, Bool-cases, eq→==, Outcome-cases, bind_failed,
  Outcome, ok, err, fail_if, bind-Succeeded,
}
use rust_nano_vm.Words.{wrapping_add}
use rust_nano_vm.Vsock.Queue.{
  QueueError, bad_descriptor, GuestRam, Descriptor, DescChain, SplitQueue, at, read_int,
  collect_chain, chain_at, next_chain, advanced, pop_avail,
}
use rust_nano_vm.Vsock.Queue.Linked.{passed, Linked, last, more, collect_chain-Linked}

ok_inj : {a b : ℕ} → ◌≡◌ {A = Outcome QueueError ℕ} (ok a) (ok b) → a ≡ b
ok_inj h = cc h

module _ (g : GuestRam) where
  Linked-pos :
      {q : SplitQueue} {m : g.Mem} {idx : ℕ} {ds : List Descriptor}
      → Linked g q m idx ds
      → 1 ≤ length ds
  Linked-pos (last e h) = omega arith
  Linked-pos (more e h l) = omega arith

  -- The available ring's slot at the cursor.
  abbrev pub slot_at : SplitQueue → ℕ
  slot_at q = at (at q.avail 4) (2 * (q.next_avail % q.size))

  chain_at-Linked :
      (q : SplitQueue) (m : g.Mem) (c : DescChain)
      → chain_at g q m ≡ ok c
      → (read_int g 2 m (slot_at q) ≡ ok c.head)
        × (c.head < q.size)
        × Linked g q m c.head c.descriptors
        × (length c.descriptors ≤ q.size)
  unfolding chain_at
  chain_at-Linked q m c h =
      let s0 = bind-Succeeded (read_int g 2 m (slot_at q)) h in
      let s1 = bind-Succeeded (fail_if (leb q.size s0.value) (bad_descriptor s0.value)) s0.rest in
      let s2 = bind-Succeeded (collect_chain g q m s0.value) s1.rest in
      let whole : record { head = s0.value; descriptors = s2.value } ≡ c = cc s2.rest in
      let (links, le) = (collect_chain-Linked g q m s0.value s2.value).0 s2.first in
      let not_out = passed _ (leb q.size s0.value) s1.first in
      subst
        (λ c.
          (read_int g 2 m (slot_at q) ≡ ok c.head)
          × (c.head < q.size)
          × Linked g q m c.head c.descriptors
          × (length c.descriptors ≤ q.size))
        whole (s0.first, ground (arith, not_out), links, le)

  module _ (q : SplitQueue) (m : g.Mem) where
    failed :
        ((d : Option DescChain) → ¬ (next_chain g q m ≡ ok d))
        → ((pop_avail g q m).0 ≡ q) × ((d : Option DescChain) → ¬ ((pop_avail g q m).1 ≡ ok d))
    unfolding pop_avail
    failed bad = go (next_chain g q m) bad
      where
        go :
            (r : Outcome QueueError (Option DescChain))
            → ((d : Option DescChain) → ¬ (r ≡ ok d))
            → ((advanced g q r).0 ≡ q) × ((d : Option DescChain) → ¬ ((advanced g q r).1 ≡ ok d))
        go (ok d) no_value = absurd (no_value d refl)
        go (err e) no_value = (refl, no_value)
        go Outcome.panic no_value = (refl, no_value)

    module _ (v : ℕ) (e : read_int g 2 m (at q.avail 2) ≡ ok v) where
      nothing : (q.next_avail == v) ≡ true → pop_avail g q m ≡ (q, ok none)
      unfolding pop_avail next_chain
      nothing same = rw (next_chain, e, same)

      popped :
          (q.next_avail == v) ≡ false
          → (c : DescChain) → chain_at g q m ≡ ok c
          → pop_avail g q m
            ≡ (record q { next_avail = wrapping_add 16 q.next_avail 1 }, ok (some c))
      unfolding pop_avail next_chain
      popped other c there = rw (next_chain, e, other, there)

      no_chain :
          (q.next_avail == v) ≡ false
          → ((c : DescChain) → ¬ (chain_at g q m ≡ ok c))
          → (d : Option DescChain) → ¬ (next_chain g q m ≡ ok d)
      unfolding next_chain
      no_chain other bad d h =
          let s = bind-Succeeded (chain_at g q m) (rw (e, other) at h) in bad s.value s.first

  -- The driver offers a chain: the ring's index is not the cursor, the slot at the cursor holds a
  -- head in the table, and the links join the chain from it, no longer than the queue's size.
  pub record Offered (q : SplitQueue) (m : g.Mem) (c : DescChain) : Type 0 where
    pub avail_idx : ℕ
    pub idx_there : read_int g 2 m (at q.avail 2) ≡ ok avail_idx
    pub ahead : ¬ (q.next_avail ≡ avail_idx)
    pub head_there : read_int g 2 m (slot_at q) ≡ ok c.head
    pub in_table : c.head < q.size
    pub links : Linked g q m c.head c.descriptors
    pub short : length c.descriptors ≤ q.size

  Offered-chain_at :
      (q : SplitQueue) (m : g.Mem) (c : DescChain) → Offered q m c → chain_at g q m ≡ ok c
  unfolding chain_at
  Offered-chain_at q m c o =
      rw
        (
          o.head_there,
          in_range,
          (collect_chain-Linked g q m c.head c.descriptors).1 (o.links, o.short),
        )
        refl
    where
      in_range : leb q.size c.head ≡ false
      in_range = ground (arith, o.in_table)

  -- A call of `pop_avail` ends in one of three ways. The ring's index is the cursor, and there is
  -- nothing. The ring's index is another, the slot at the cursor holds a head in the table, and the
  -- chain is the one that the links join from it, of at least one and at most as many descriptors
  -- as the queue's size; the cursor goes up by one modulo 2 ^ 16 and nothing else of the queue
  -- changes. Or there is an error or a panic, the queue is as it was, and neither of the two holds
  -- of the memory.
  pub pop_avail_lem :
      (q : SplitQueue) (m : g.Mem)
      → ((read_int g 2 m (at q.avail 2) ≡ ok q.next_avail) × (pop_avail g q m ≡ (q, ok none)))
        ⊎ ((c : DescChain) × Offered q m c
            × (1 ≤ length c.descriptors)
            × (pop_avail g q m
                ≡ (record q { next_avail = wrapping_add 16 q.next_avail 1 }, ok (some c))))
        ⊎ (((pop_avail g q m).0 ≡ q)
            × ((d : Option DescChain) → ¬ ((pop_avail g q m).1 ≡ ok d))
            × (¬ (read_int g 2 m (at q.avail 2) ≡ ok q.next_avail))
            × ((c : DescChain) → ¬ Offered q m c))
  unfolding next_chain
  pop_avail_lem q m = elim (Outcome-cases (read_int g 2 m (at q.avail 2))) [
    | inr bad ↦
        let (kept, no_value) = failed q m (bind_failed _ _ bad) in
        inr (inr (kept, no_value, bad q.next_avail, λ c o. bad o.avail_idx o.idx_there))
    | inl (v, e) ↦ elim (Bool-cases (q.next_avail == v)) [
      | inl same ↦ inl (e ∙ ap ok (sym (==→eq _ _ same)), nothing q m v e same)
      | inr other ↦ elim (Outcome-cases (chain_at g q m)) [
        | inr bad ↦
            let (kept, no_value) = failed q m (no_chain q m v e other bad) in
            inr (
              inr (
                kept,
                no_value,
                (λ h. cc (eq→== q.next_avail v (ok_inj (sym h ∙ e)))),
                λ c o. bad c (Offered-chain_at q m c o),
              ))
        | inl (c, there) ↦
            let (slot, in_table, links, le) = chain_at-Linked q m c there in
            inr (
              inl (
                c,
                record {
                  avail_idx = v;
                  idx_there = e;
                  ahead = λ same. cc (eq→== _ _ same);
                  head_there = slot;
                  in_table = in_table;
                  links = links;
                  short = le;
                },
                Linked-pos links,
                popped q m v e other c there,
              ))
      ]
    ]
  ]
