-- ===== src/VirtQueue/Used/Sequence.antt =====
-- crates/virtio-queue/src/lib.rs: the driver reads back a run of completed chains.
use rust_nano_vm.Prelude.{
  ℕ, zero, suc, ◌+◌, ◌-◌, ◌*◌, ◌%◌, ◌^◌, ◌≤◌, ◌<◌, ◌≡◌, ◌≢◌, refl, ap, sym, ◌∙◌, arith, ◌⊎◌, inl,
  inr, List, [], ◌∷◌, map, length, lt_or_le, All, Outcome, ok,
}
use mathlib.Core.Path.{ap₂}
use native.Mathlib.Nat.{mod-lt, mod-add-mod, mod-eq_of_lt, mod-eq-sub-mod}
use rust_nano_vm.Words.{wrap-mod}
use rust_nano_vm.Bytes.Endian.{IsU32, of_le}
use rust_nano_vm.VirtQueue.Error.{QueueError}
use rust_nano_vm.VirtQueue.Used.{UsedRing, elem, push_all}
use rust_nano_vm.VirtQueue.Used.Push.{
  IsRing, counter, offset, pushed, pushed-IsRing, push_in, untouched,
}
use rust_nano_vm.VirtQueue.Used.Reported.{elem_in, counter-pushed, push_lem}

add-mod-ne : (s d q : ℕ) → 0 < d → d < q → (s + d) % q ≢ s % q
add-mod-ne s d q pos lt e =
    let r = mod-lt s {m = q} (omega arith) in
    elim (lt_or_le (s % q + d) q) [
      | inl low ↦ omega (arith, mod-add-mod s q d, mod-eq_of_lt low)
      | inr high ↦ omega (
        arith,
        mod-add-mod s q d,
        mod-eq-sub-mod high,
        mod-eq_of_lt {n = s % q + d - q} {m = q} (omega arith),
      )
    ]

-- The ring after the pushes.
after : UsedRing → List (ℕ × ℕ) → UsedRing
after u [] = u
after u ((id, len) ∷ xs) = after (pushed u id len) xs

push_all_in : (xs : List (ℕ × ℕ)) (u : UsedRing) → IsRing u → push_all u xs ≡ ok (after u xs)
unfolding push_all after
push_all_in [] u v = refl
push_all_in ((id, len) ∷ xs) u v =
    rw (push_in u id len v) (push_all_in xs (pushed u id len) (pushed-IsRing u id len v))

elem_cong : (u : UsedRing) (a b : ℕ) → a % u.qsize ≡ b % u.qsize → elem u a ≡ elem u b
unfolding elem
elem_cong u a b e = rw e

elem-pushed_apart :
    (u : UsedRing) (id len slot : ℕ)
    → IsRing u
    → slot % u.qsize ≢ counter u % u.qsize
    → elem (pushed u id len) slot ≡ elem u slot
elem-pushed_apart u id len slot v other =
    let apart : (offset u slot + 8 ≤ offset u (counter u))
        ⊎ (offset u (counter u) + 8 ≤ offset u slot) =
      distinct (slot % u.qsize) (counter u % u.qsize) other in
    elem_in (pushed u id len) slot (pushed-IsRing u id len v)
    ∙ ap₂ (λ a b. ok (of_le a, of_le b))
        (untouched u id len v _ 4 (inr (omega arith)) (omega arith))
        (untouched u id len v _ 4 (inr (omega arith)) (omega arith))
    ∙ sym (elem_in u slot v)
  where
    distinct : (a b : ℕ) → a ≢ b → (4 + 8 * a + 8 ≤ 4 + 8 * b) ⊎ (4 + 8 * b + 8 ≤ 4 + 8 * a)
    distinct a b ne = elim (lt_or_le a b) [
      | inl lt ↦ inl (omega arith)
      | inr le ↦ inr (omega arith)
    ]

next_slot :
    (u : UsedRing) (id len s d : ℕ)
    → IsRing u
    → (s + d) % u.qsize ≡ counter u % u.qsize
    → (s + (d + 1)) % u.qsize ≡ counter (pushed u id len) % u.qsize
next_slot u id len s d v e =
    ap (λ (n : ℕ). n % u.qsize) (omega arith)
    ∙ sym (mod-add-mod (s + d) u.qsize 1)
    ∙ ap (λ (n : ℕ). (n + 1) % u.qsize) e
    ∙ mod-add-mod (counter u) u.qsize 1
    ∙ sym (wrap-mod u.qsize (counter u + 1) v.size.1)
    ∙ ap (λ (n : ℕ). n % u.qsize) (sym (counter-pushed u id len v))

after_apart :
    (xs : List (ℕ × ℕ)) (u : UsedRing) (s d : ℕ)
    → IsRing u
    → (s + d) % u.qsize ≡ counter u % u.qsize
    → 0 < d
    → d + length xs ≤ u.qsize
    → elem (after u xs) s ≡ elem u s
unfolding after
after_apart [] u s d v e pos room = refl
after_apart ((id, len) ∷ xs) u s d v e pos room =
    after_apart xs (pushed u id len) s (d + 1) (pushed-IsRing u id len v)
      (next_slot u id len s d v e) (omega arith) (omega arith)
    ∙ elem-pushed_apart u id len s v
        (λ same. add-mod-ne s d u.qsize pos (omega arith) (e ∙ sym same))

-- The `n` elements from the counter `from` on.
abbrev pub seen : UsedRing → ℕ → ℕ → List (Outcome QueueError (ℕ × ℕ))
seen u from zero = []
seen u from (suc n) = elem u from ∷ seen u (from + 1) n

seen_cong : (u : UsedRing) (n a b : ℕ) → a % u.qsize ≡ b % u.qsize → seen u a n ≡ seen u b n
seen_cong u zero a b e = refl
seen_cong u (suc n) a b e = ap₂ ◌∷◌ (elem_cong u a b e) (
    seen_cong u n (a + 1) (b + 1) (
      sym (mod-add-mod a u.qsize 1)
      ∙ ap (λ (i : ℕ). (i + 1) % u.qsize) e
      ∙ mod-add-mod b u.qsize 1))

qsize-after : (xs : List (ℕ × ℕ)) (u : UsedRing) → (after u xs).qsize ≡ u.qsize
unfolding after
qsize-after [] u = refl
qsize-after ((id, len) ∷ xs) u = qsize-after xs (pushed u id len)

abbrev pub Fits : ℕ × ℕ → Type 0
Fits x = IsU32 x.0 × IsU32 x.1

-- The first of several pushes is found in its slot.
first_element :
    (xs : List (ℕ × ℕ)) (u : UsedRing) (id len : ℕ)
    → IsRing u
    → IsU32 id
    → IsU32 len
    → suc (length xs) ≤ u.qsize
    → elem (after (pushed u id len) xs) (counter u) ≡ ok (id, len)
first_element xs u id len v hi hl room =
    let kept = pushed-IsRing u id len v in
    let (u', e, at_slot, _, _, _, _, _) = push_lem u id len v hi hl in
    let same : u' ≡ pushed u id len = cc (push_in u id len v) in
    after_apart xs (pushed u id len) (counter u) 1 kept
      (sym (wrap-mod u.qsize (counter u + 1) v.size.1)
        ∙ ap (λ (n : ℕ). n % u.qsize) (sym (counter-pushed u id len v)))
      (omega arith) (omega arith)
    ∙ rw same at at_slot

seen-after :
    (xs : List (ℕ × ℕ)) (u : UsedRing)
    → IsRing u
    → All Fits xs
    → length xs ≤ u.qsize
    → seen (after u xs) (counter u) (length xs) ≡ map ok xs
unfolding after
seen-after [] u v fits room = refl
seen-after ((id, len) ∷ xs) u v (f, fs) room =
    let kept = pushed-IsRing u id len v in
    ap₂ ◌∷◌ (first_element xs u id len v f.0 f.1 room) (
      seen_cong (after (pushed u id len) xs) (length xs) (counter u + 1) (counter (pushed u id len))
        (rw (qsize-after xs (pushed u id len)) (
          sym (wrap-mod u.qsize (counter u + 1) v.size.1)
          ∙ ap (λ (n : ℕ). n % u.qsize) (sym (counter-pushed u id len v))))
      ∙ seen-after xs (pushed u id len) kept fs (omega arith))

counter-after :
    (xs : List (ℕ × ℕ)) (u : UsedRing)
    → IsRing u
    → counter (after u xs) % 2 ^ 16 ≡ (counter u + length xs) % 2 ^ 16
unfolding after
counter-after [] u v = omega arith
counter-after ((id, len) ∷ xs) u v =
    let rest = counter-after xs (pushed u id len) (pushed-IsRing u id len v) in
    omega (arith, rest, counter-pushed u id len v)

-- A device that completes several chains in a row, at most as many as the ring has slots, does not
-- panic; the driver reads them back from the old counter on, in order, and the counter has gone up
-- by their number modulo 2 ^ 16.
pub push_all_lem :
    (u : UsedRing) (xs : List (ℕ × ℕ))
    → IsRing u
    → All Fits xs
    → length xs ≤ u.qsize
    → (u' : UsedRing) × (push_all u xs ≡ ok u')
      × (seen u' (counter u) (length xs) ≡ map ok xs)
      × (counter u' % 2 ^ 16 ≡ (counter u + length xs) % 2 ^ 16)
push_all_lem u xs v fits room =
    (after u xs, push_all_in xs u v, seen-after xs u v fits room, counter-after xs u v)
