-- ===== src/Vsock/Queue/Linked.antt =====
-- crates/virtio-vsock/src/queue.rs: the loop that collects a chain,
-- against the links in the descriptor table.
use rust_nano_vm.Prelude.{
  ℕ, zero, suc, subst, ◌*◌, ◌≤◌, ◌<◌, ◌≡◌, refl, ◌∙◌, inl, inr, ◌↔◌, arith, Bool, true, false, List,
  [], ◌∷◌, length, leb, if◌then◌else◌, Bool-cases, ok, fail_if, ◌>>=◌, bind-Succeeded,
}
use rust_nano_vm.Vsock.Queue.{
  bad_descriptor, indirect_unsupported, GuestRam, Descriptor, SplitQueue, at, has_next, is_writable,
  is_indirect, read_int, collect_from, collect_chain,
}

pub passed : {E : Type 0} (e : E) (t : Bool) → fail_if t e ≡ ok tt → t ≡ false
passed e true h = cc
passed e false h = refl

module _ (g : GuestRam) where
  -- The table's entry `idx`, as it stands in the guest's memory: in range, and not indirect.
  pub record Entry (q : SplitQueue) (m : g.Mem) (idx : ℕ) (d : Descriptor) (flags next : ℕ)
      : Type 0 where
    pub in_table : idx < q.size
    pub addr_there : read_int g 8 m (at q.desc (16 * idx)) ≡ ok d.addr
    pub len_there : read_int g 4 m (at (at q.desc (16 * idx)) 8) ≡ ok d.len
    pub flags_there : read_int g 2 m (at (at q.desc (16 * idx)) 12) ≡ ok flags
    pub next_there : read_int g 2 m (at (at q.desc (16 * idx)) 14) ≡ ok next
    pub direct : is_indirect flags ≡ false
    pub writable_there : is_writable flags ≡ d.writable

  -- The descriptors that the links join, from an index to one that has no next.
  pub data Linked (q : SplitQueue) (m : g.Mem) : ℕ → List Descriptor → Type 0 where
    last :
        {idx flags next : ℕ} {d : Descriptor}
        → Entry q m idx d flags next
        → has_next flags ≡ false
        → Linked q m idx (d ∷ [])
    more :
        {idx flags next : ℕ} {d : Descriptor} {ds : List Descriptor}
        → Entry q m idx d flags next
        → has_next flags ≡ true
        → Linked q m next ds
        → Linked q m idx (d ∷ ds)

  -- One round of the loop at an entry.
  collect_from-Entry :
      (q : SplitQueue) (m : g.Mem) (rounds idx flags next : ℕ) (d : Descriptor)
      → Entry q m idx d flags next
      → collect_from g q m (suc rounds) idx ≡ (
          (if has_next flags then collect_from g q m rounds next else ok []) >>= λ rest.
          ok (d ∷ rest))
  unfolding collect_from
  collect_from-Entry q m rounds idx flags next d e =
      rw
        (
          in_range, e.addr_there, e.len_there, e.flags_there, e.next_there, e.direct,
          e.writable_there,
        )
        refl
    where
      in_range : leb q.size idx ≡ false
      in_range = ground (arith, e.in_table)

  collect_from-Linked :
      (q : SplitQueue) (m : g.Mem) (rounds idx : ℕ) (ds : List Descriptor)
      → Linked q m idx ds
      → length ds ≤ rounds
      → collect_from g q m rounds idx ≡ ok ds
  collect_from-Linked q m zero idx ds (last e h) le = absurd (omega arith)
  collect_from-Linked q m zero idx ds (more e h l) le = absurd (omega arith)
  collect_from-Linked q m (suc rounds) idx ds (last {flags} {next} {d} e h) le =
      collect_from-Entry q m rounds idx flags next d e ∙ rw h
  collect_from-Linked q m (suc rounds) idx ds (more {flags} {next} {d} e h l) le =
      collect_from-Entry q m rounds idx flags next d e
      ∙ rw (h, collect_from-Linked q m rounds next _ l (omega arith))

  -- A round that succeeded, where the rounds after it are known.
  joined_on :
      (q : SplitQueue) (m : g.Mem) (rounds idx flags next : ℕ) (d : Descriptor)
      (rest ds : List Descriptor)
      → Entry q m idx d flags next
      → (if has_next flags then collect_from g q m rounds next else ok []) ≡ ok rest
      → (collect_from g q m rounds next ≡ ok rest → Linked q m next rest × (length rest ≤ rounds))
      → d ∷ rest ≡ ds
      → Linked q m idx ds × (length ds ≤ suc rounds)
  joined_on q m rounds idx flags next d rest ds entry h later whole =
      subst (λ ds. Linked q m idx ds × (length ds ≤ suc rounds)) whole
        (elim (Bool-cases (has_next flags)) [
          | inl goes_on ↦
              let (links, le) = later (rw goes_on at h) in (more entry goes_on links, omega arith)
          | inr ends ↦
              let none_left : [] ≡ rest = cc (rw ends at h) in
              subst (λ r. Linked q m idx (d ∷ r) × (length (d ∷ r) ≤ suc rounds)) none_left
                (last entry ends, omega arith)
        ])

  -- The loop that succeeded.
  Linked-collect_from :
      (q : SplitQueue) (m : g.Mem) (rounds idx : ℕ) (ds : List Descriptor)
      → collect_from g q m rounds idx ≡ ok ds
      → Linked q m idx ds × (length ds ≤ rounds)
  unfolding collect_from
  Linked-collect_from q m zero idx ds h = cc
  Linked-collect_from q m (suc rounds) idx ds h =
      let s0 = bind-Succeeded (fail_if (leb q.size idx) (bad_descriptor idx)) h in
      let s1 = bind-Succeeded (read_int g 8 m (at q.desc (16 * idx))) s0.rest in
      let s2 = bind-Succeeded (read_int g 4 m (at (at q.desc (16 * idx)) 8)) s1.rest in
      let s3 = bind-Succeeded (read_int g 2 m (at (at q.desc (16 * idx)) 12)) s2.rest in
      let s4 = bind-Succeeded (read_int g 2 m (at (at q.desc (16 * idx)) 14)) s3.rest in
      let s5 = bind-Succeeded (fail_if (is_indirect s3.value) indirect_unsupported) s4.rest in
      let s6 =
        bind-Succeeded (if has_next s3.value then collect_from g q m rounds s4.value else ok [])
          s5.rest in
      let d : Descriptor = record {
        addr = s1.value;
        len = s2.value;
        writable = is_writable s3.value;
      } in
      let whole : d ∷ s6.value ≡ ds = cc s6.rest in
      let not_out = passed _ (leb q.size idx) s0.first in
      let entry : Entry q m idx d s3.value s4.value = record {
        in_table = ground (arith, not_out);
        addr_there = s1.first;
        len_there = s2.first;
        flags_there = s3.first;
        next_there = s4.first;
        direct = passed _ (is_indirect s3.value) s5.first;
        writable_there = refl;
      } in
      joined_on q m rounds idx s3.value s4.value d s6.value ds entry s6.first
        (Linked-collect_from q m rounds s4.value s6.value) whole

  -- `collect_chain` succeeds exactly with the descriptors that the links join from the head to one
  -- without a next, each in the table and none indirect, if they are no more than the queue's size.
  pub collect_chain-Linked :
      (q : SplitQueue) (m : g.Mem) (head : ℕ) (ds : List Descriptor)
      → (collect_chain g q m head ≡ ok ds) ↔ (Linked q m head ds × (length ds ≤ q.size))
  unfolding collect_chain
  collect_chain-Linked q m head ds =
      (Linked-collect_from q m q.size head ds, λ l. collect_from-Linked q m q.size head ds l.0 l.1)
