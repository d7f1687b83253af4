-- ===== src/VirtQueue/Guest/Access.antt =====
-- crates/virtio-queue/src/lib.rs: what a descriptor's accesses do to any guest memory.
use rust_nano_vm.Prelude.{
  ℕ, ◌+◌, ◌≤◌, ◌<◌, ◌≡◌, refl, ap, sym, ◌∙◌, arith, ◌⊎◌, inl, inr, List, [], ◌∷◌, length, take,
  length-take, min, true, Bool-cases, lt_or_le, le→not-ltb, lt→ltb, ok, err, bind-Succeeded,
}
use rust_nano_vm.VirtQueue.Error.{descriptor_too_large, max_desc_read_bytes}
use rust_nano_vm.VirtQueue.Desc.{Descriptor, is_writable}
use rust_nano_vm.VirtQueue.Guest.{GuestMemory, IsMemory, read_from, write_to_guest}

take_all {ℓ} : {A : Type ℓ} (xs : List A) → take (length xs) xs ≡ xs
take_all [] = refl
take_all (x ∷ xs) = ap (◌∷◌ x) (take_all xs)

module _ (g : GuestMemory) (laws : IsMemory g) where
  stored_as :
      (m : g.Mem) (a : ℕ) (src : List ℕ) (n : ℕ) {m' : g.Mem}
      → g.write m a src ≡ ok m'
      → length src ≡ n
      → g.read m' a n ≡ ok src
  stored_as m a src n h e = rw (← e) (laws.read-write_self m a src h)

  write_to_guest-eq-ok :
      (d : Descriptor) (m : g.Mem) (bytes : List ℕ) (m' : g.Mem) (n : ℕ)
      → write_to_guest g d m bytes ≡ ok (m', n)
      → (is_writable d ≡ true)
        × (g.write m d.addr (take (min d.len (length bytes)) bytes) ≡ ok m')
        × (n ≡ min d.len (length bytes))
  unfolding write_to_guest
  write_to_guest-eq-ok d m bytes m' n h = elim (Bool-cases (is_writable d)) [
    | inr no_flag ↦ cc no_flag
    | inl flag ↦
        let s =
          bind-Succeeded {f = λ x. ok (x, min d.len (length bytes))}
            (g.write m d.addr (take (min d.len (length bytes)) bytes)) (rw flag at h) in
        let same : s.value ≡ m' = cc (s.rest) in
        let count : min d.len (length bytes) ≡ n = cc (s.rest) in
        (flag, rw same at s.first, sym count)
  ]

  -- What `write_to_guest` has done when it succeeds.
  pub record Wrote (d : Descriptor) (m : g.Mem) (bytes : List ℕ) (m' : g.Mem) (n : ℕ) : Type 0 where
    pub writable : is_writable d ≡ true
    pub count : n ≡ min d.len (length bytes)
    pub stored : g.read m' d.addr n ≡ ok (take n bytes)

  -- A device that fills a descriptor's buffer has the guest's permission, and has written as much
  -- of its bytes as the buffer holds at the buffer's address.
  pub write_to_guest-Wrote :
      (d : Descriptor) (m : g.Mem) (bytes : List ℕ) (m' : g.Mem) (n : ℕ)
      → write_to_guest g d m bytes ≡ ok (m', n)
      → Wrote d m bytes m' n
  write_to_guest-Wrote d m bytes m' n h =
      let (flag, done, k) = write_to_guest-eq-ok d m bytes m' n h in
      let len = length-take (min d.len (length bytes)) bytes in
      record {
        writable = flag;
        count = k;
        stored = rw (sym k) at (
            stored_as m d.addr (take (min d.len (length bytes)) bytes) (min d.len (length bytes))
              done (omega arith));
      }

  -- In any lawful guest memory, a device's write through a descriptor changes no memory outside
  -- the descriptor's buffer.
  pub write_to_guest_contained :
      (d : Descriptor) (m : g.Mem) (bytes : List ℕ) (m' : g.Mem) (n b k : ℕ)
      → write_to_guest g d m bytes ≡ ok (m', n)
      → (b + k ≤ d.addr) ⊎ (d.addr + d.len ≤ b)
      → g.read m' b k ≡ g.read m b k
  write_to_guest_contained d m bytes m' n b k h apart =
      let (_, done, _) = write_to_guest-eq-ok d m bytes m' n h in
      let len = length-take (min d.len (length bytes)) bytes in
      laws.read-write_apart m d.addr (take (min d.len (length bytes)) bytes) b k done
        (elim apart [ inl below ↦ inl below | inr above ↦ inr (omega arith) ])

  -- A buffer that was filled whole is read back, if it is within the read limit; beyond the limit
  -- nothing is read.
  pub read_from-write_to_guest :
      (d : Descriptor) (m : g.Mem) (bytes : List ℕ) (m' : g.Mem) (n : ℕ)
      → write_to_guest g d m bytes ≡ ok (m', n)
      → d.len ≡ length bytes
      → ((d.len ≤ max_desc_read_bytes) × (read_from g d m' ≡ ok bytes))
        ⊎ ((max_desc_read_bytes < d.len)
            × (read_from g d m' ≡ err (descriptor_too_large d.len max_desc_read_bytes)))
  unfolding read_from
  read_from-write_to_guest d m bytes m' n h e =
      let w = write_to_guest-Wrote d m bytes m' n h in
      let full : n ≡ length bytes = omega (arith, w.count) in
      elim (lt_or_le max_desc_read_bytes d.len) [
        | inl over ↦ inr (over, rw (lt→ltb max_desc_read_bytes d.len over))
        | inr fits ↦ inl (
          fits,
          rw (le→not-ltb max_desc_read_bytes d.len fits, e, ← full)
              (w.stored ∙ ap ok (rw full (take_all bytes))),
        )
      ]
