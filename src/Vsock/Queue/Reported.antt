-- ===== src/Vsock/Queue/Reported.antt =====
-- crates/virtio-vsock/src/queue.rs: what the driver reads on the used ring after `push_used`.
use rust_nano_vm.Prelude.{
  ℕ, ◌+◌, ◌*◌, ◌%◌, ◌^◌, ◌≤◌, ◌<◌, ◌≡◌, refl, ap, sym, ◌∙◌, ◌⊎◌, inl, inr, arith, ok, ◌>>=◌,
  Outcome, Outcome-cases, bind_failed, err, length, List, [], ◌∷◌,
}
use rust_nano_vm.Bytes.Endian.{to_le, of_le, of_le-to_le}
use native.Mathlib.Nat.{mod-lt}
use rust_nano_vm.Vsock.Queue.{
  QueueError, GuestRam, SplitQueue, at, elem_at, read_int, write_int, write_elem, publish,
  push_used,
}
use rust_nano_vm.Vsock.Queue.Stores.{
  IsRam, Store, stores, RefusedAt, failed_alike, failed_self, refused_at,
}

-- The used ring lies in the address space.
pub record HasUsedRing (q : SplitQueue) : Type 0 where
  pub size_pos : 0 < q.size
  pub used_fits : q.used + 4 + 8 * q.size ≤ 2 ^ 64

pub elem_at_lem :
    (q : SplitQueue) → HasUsedRing q → elem_at q ≡ q.used + 4 + 8 * (q.next_used % q.size)
elem_at_lem q h =
    let slot : q.next_used % q.size < q.size = mod-lt q.next_used h.size_pos in
    omega (arith, slot, h.used_fits)

-- The slot of the cursor.
abbrev pub slot : SplitQueue → ℕ
slot q = q.used + 4 + 8 * (q.next_used % q.size)

slot_end : (q : SplitQueue) → HasUsedRing q → slot q + 8 ≤ 2 ^ 64
slot_end q h =
    let inside : q.next_used % q.size < q.size = mod-lt q.next_used h.size_pos in
    omega (arith, inside, h.used_fits)

at_in : (a k : ℕ) → a + k < 2 ^ 64 → at a k ≡ a + k
at_in a k h = omega arith

-- The writes of a report: the head and the length into the cursor's slot, and the cursor after it
-- into the index.
abbrev pub reports : SplitQueue → ℕ → ℕ → List Store
reports q head len =
    (slot q, to_le 4 head)
    ∷ (slot q + 4, to_le 4 len)
    ∷ (q.used + 2, to_le 2 ((q.next_used + 1) % 2 ^ 16))
    ∷ []

module _ (g : GuestRam) where
  -- A used ring on which the driver reads a chain's head and length, and the index behind them.
  pub record Reported (q : SplitQueue) (m' : g.Mem) (head len : ℕ) : Type 0 where
    pub head_there : read_int g 4 m' (slot q) ≡ ok head
    pub len_there : read_int g 4 m' (slot q + 4) ≡ ok len
    pub idx_there : read_int g 2 m' (q.used + 2) ≡ ok ((q.next_used + 1) % 2 ^ 16)

  -- A call that failed as the memory did at one of its writes, with its cursor moved exactly if that
  -- was the write of the index.
  pub record Failed (q : SplitQueue) (m : g.Mem) (ws : List Store)
      (out : SplitQueue × Outcome QueueError g.Mem) : Type 0 where
    pub at : RefusedAt g m ws out.1
    pub cursor :
        ((length at.before < 2) × (out.0 ≡ q))
        ⊎ ((length at.before ≡ 2) × (out.0 ≡ record q { next_used = (q.next_used + 1) % 2 ^ 16 }))

  -- A report whose element is refused is not published.
  elem_refused :
      (q : SplitQueue) (m : g.Mem) (ws : List Store) (r : Outcome QueueError g.Mem)
      (at : RefusedAt g m ws r)
      → length at.before < 2
      → ((m' : g.Mem) → ¬ (r ≡ ok m'))
      → Failed q m ws (publish g q r)
  elem_refused q m ws (ok m') at early bad = absurd (bad m' refl)
  elem_refused q m ws (err e) at early bad = record { at = at; cursor = inl (early, refl) }
  elem_refused q m ws Outcome.panic at early bad = record { at = at; cursor = inl (early, refl) }

module _ (g : GuestRam) (ram : IsRam g) where
  read_int-write_int :
      (n : ℕ) (m m' : g.Mem) (gpa v : ℕ)
      → length (to_le n v) ≡ n
      → v < 256 ^ n
      → write_int g n m gpa v ≡ ok m'
      → read_int g n m' gpa ≡ ok v
  unfolding read_int write_int
  read_int-write_int n m m' gpa v size fits e =
      ap (λ k. g.read_at m' gpa k >>= λ b. ok (of_le b)) (sym size)
      ∙ ap (λ r. r >>= λ b. ok (of_le b)) (ram.read-write_self m gpa (to_le n v) e)
      ∙ ap ok (of_le-to_le n v fits)

  read_int_apart :
      (k n : ℕ) (m m' : g.Mem) (b gpa v : ℕ)
      → write_int g n m gpa v ≡ ok m'
      → (b + k ≤ gpa) ⊎ (gpa + length (to_le n v) ≤ b)
      → read_int g k m' b ≡ read_int g k m b
  unfolding read_int write_int
  read_int_apart k n m m' b gpa v e apart =
      ap (λ r. r >>= λ b. ok (of_le b)) (ram.read-write_apart m gpa (to_le n v) b k e apart)

  written-Reported :
      (q : SplitQueue) (m m1 m2 m3 : g.Mem) (head len : ℕ)
      → HasUsedRing q
      → head < 2 ^ 16
      → len < 2 ^ 32
      → write_int g 4 m (slot q) head ≡ ok m1
      → write_int g 4 m1 (slot q + 4) len ≡ ok m2
      → write_int g 2 m2 (q.used + 2) ((q.next_used + 1) % 2 ^ 16) ≡ ok m3
      → Reported g q m3 head len
  written-Reported q m m1 m2 m3 head len h head_fits len_fits e1 e2 e3 =
      let idx = (q.next_used + 1) % 2 ^ 16 in
      record {
        head_there =
            read_int_apart 4 2 m2 m3 (slot q) (q.used + 2) idx e3 (inr (omega arith))
            ∙ read_int_apart 4 4 m1 m2 (slot q) (slot q + 4) len e2 (inl (omega arith))
            ∙ read_int-write_int 4 m m1 (slot q) head refl (omega (arith, head_fits)) e1;
        len_there =
            read_int_apart 4 2 m2 m3 (slot q + 4) (q.used + 2) idx e3 (inr (omega arith))
            ∙ read_int-write_int 4 m1 m2 (slot q + 4) len refl (omega (arith, len_fits)) e2;
        idx_there = read_int-write_int 2 m2 m3 (q.used + 2) idx refl (omega arith) e3;
      }

  -- In a lawful guest memory, where the used ring lies in the address space, a call of `push_used`
  -- writes the chain's head and length into the slot of the cursor, four bytes each, and then the
  -- cursor after it, modulo 2 ^ 16, into the index. Where the memory takes these writes, the call
  -- succeeds in the memory after them, where the driver reads all three, and the cursor has moved.
  -- Otherwise it fails as the memory does at the first of them that is refused, and the cursor has
  -- moved exactly if that is the write of the index.
  pub push_used-Reported :
      (q : SplitQueue) (m : g.Mem) (head len : ℕ)
      → HasUsedRing q
      → head < 2 ^ 16
      → len < 2 ^ 32
      → ((m' : g.Mem) × (stores g m (reports q head len) ≡ ok m')
          × (push_used g q m head len
              ≡ (record q { next_used = (q.next_used + 1) % 2 ^ 16 }, ok m'))
          × Reported g q m' head len)
        ⊎ Failed g q m (reports q head len) (push_used g q m head len)
  unfolding push_used write_elem write_int stores
  push_used-Reported q m head len h head_fits len_fits =
      let place = elem_at_lem q h in
      let place4 = at_in (slot q) 4 (omega (arith, slot_end q h)) in
      let place_idx = at_in q.used 2 (omega (arith, h.used_fits)) in
      let idx = (q.next_used + 1) % 2 ^ 16 in
      elim (Outcome-cases (g.write_at m (slot q) (to_le 4 head))) [
        | inr bad ↦ inr (
            rw (place, place4)
              (elem_refused g q m (reports q head len) _
                (refused_at g [] (slot q, to_le 4 head) _ m refl
                  (failed_alike (g.write_at m (slot q) (to_le 4 head)) _ bad))
                (omega arith) (bind_failed (g.write_at m (slot q) (to_le 4 head)) _ bad)))
        | inl (m1, e1) ↦ elim (Outcome-cases (g.write_at m1 (slot q + 4) (to_le 4 len))) [
          | inr bad ↦ inr (
              rw (place, place4, e1)
                (elem_refused g q m (reports q head len) _
                  (refused_at g ((slot q, to_le 4 head) ∷ []) (slot q + 4, to_le 4 len) _ m1
                    (rw e1 refl) (failed_self (g.write_at m1 (slot q + 4) (to_le 4 len)) bad))
                  (omega arith) bad))
          | inl (m2, e2) ↦ elim (Outcome-cases (g.write_at m2 (q.used + 2) (to_le 2 idx))) [
            | inr bad ↦ inr (
                rw (place, place4, e1, e2, place_idx)
                  (record {
                    at =
                        refused_at g ((slot q, to_le 4 head) ∷ (slot q + 4, to_le 4 len) ∷ [])
                          (q.used + 2, to_le 2 idx) [] m2 (rw (e1, e2) refl)
                          (failed_self (g.write_at m2 (q.used + 2) (to_le 2 idx)) bad);
                    cursor = inr (omega arith, refl);
                  }))
            | inl (m3, e3) ↦ inl (
              m3,
              rw (e1, e2, e3) refl,
              rw (place, place4, e1, e2, place_idx, e3) refl,
              written-Reported q m m1 m2 m3 head len h head_fits len_fits e1 e2 e3,
            )
          ]
        ]
      ]
