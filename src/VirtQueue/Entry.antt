-- ===== src/VirtQueue/Entry.antt =====
-- The wire layout that split and packed descriptors share: a u64, a u32 and two u16s, little-endian.
use rust_nano_vm.Prelude.{
  ℕ, ◌+◌, ◌≤◌, ◌≡◌, ap, ◌∙◌, sym, arith, List, ◌++◌, length, take, drop, All, Outcome, ◌>>=◌,
}
use rust_nano_vm.Bytes.Endian.{IsByte, IsU16, IsU32, IsU64, to_le, of_le, of_le-to_le, to_le-of_le}
use rust_nano_vm.Bytes.Buffer.{
  slice, splice, write_slice, write_slice_in, length-splice, splice-append, splice-zero,
  slice-append, slice-All, length-slice,
}
use mathlib.Core.Path.{ap₂}

abbrev pub entry : (a l x y : ℕ) → List ℕ
entry a l x y = to_le 8 a ++ (to_le 4 l ++ (to_le 2 x ++ to_le 2 y))

module _ (a l x y : ℕ) (buf : List ℕ) (room : 16 ≤ length buf) where
  spliced :
      splice 14
        (to_le 2 y)
        (splice 12 (to_le 2 x) (splice 8 (to_le 4 l) (splice 0 (to_le 8 a) buf)))
      ≡ entry a l x y ++ drop 16 buf
  spliced =
      ap (λ b. splice 14 (to_le 2 y) (splice 12 (to_le 2 x) b))
        (splice-append 0 (to_le 8 a) (to_le 4 l) buf)
      ∙ ap (splice 14 (to_le 2 y)) (splice-append 0 (to_le 8 a ++ to_le 4 l) (to_le 2 x) buf)
      ∙ splice-append 0 (to_le 8 a ++ (to_le 4 l ++ to_le 2 x)) (to_le 2 y) buf
      ∙ splice-zero (entry a l x y) buf room

  -- The four field writes are one write of the entry, and none is out of range.
  pub write_entry {ℓ} :
      {E : Type ℓ} {B : Type 0} (k : List ℕ → Outcome E B)
      → (do
        b ← write_slice 0 (to_le 8 a) buf
        b ← write_slice 8 (to_le 4 l) b
        b ← write_slice 12 (to_le 2 x) b
        b ← write_slice 14 (to_le 2 y) b
        k b)
        ≡ k (entry a l x y ++ drop 16 buf)
  write_entry {E} k =
      rw
        (
          write_slice_in {E = E} 0 (to_le 8 a) buf (omega arith),
          write_slice_in {E = E} 8 (to_le 4 l) (splice 0 (to_le 8 a) buf)
              (omega (arith, length-splice {0})),
          write_slice_in {E = E} 12 (to_le 2 x) (splice 8 (to_le 4 l) (splice 0 (to_le 8 a) buf))
              (omega (arith, length-splice {0})),
          write_slice_in {E = E} 14 (to_le 2 y)
              (splice 12 (to_le 2 x) (splice 8 (to_le 4 l) (splice 0 (to_le 8 a) buf)))
              (omega (arith, length-splice {0})),
        )
        (ap k spliced)

-- The fields read from an entry are those that were written.
module _ (a l x y : ℕ) (rest : List ℕ) where
  pub entry_fields :
      IsU64 a
      → IsU32 l
      → IsU16 x
      → IsU16 y
      → (of_le (slice 0 8 (entry a l x y ++ rest)) ≡ a)
        × (of_le (slice 8 4 (entry a l x y ++ rest)) ≡ l)
        × (of_le (slice 12 2 (entry a l x y ++ rest)) ≡ x)
        × (of_le (slice 14 2 (entry a l x y ++ rest)) ≡ y)
  entry_fields ha hl hx hy =
      (of_le-to_le 8 a ha, of_le-to_le 4 l hl, of_le-to_le 2 x hx, of_le-to_le 2 y hy)

-- An entry rebuilt from the fields that were read is the entry's bytes.
module _ (buf : List ℕ) (room : 16 ≤ length buf) (bytes : All IsByte buf) where
  rebuilt : (off n : ℕ) → off + n ≤ 16 → to_le n (of_le (slice off n buf)) ≡ slice off n buf
  rebuilt off n h =
      ap (λ k. to_le k (of_le (slice off n buf))) (sym (length-slice off n buf (omega arith)))
      ∙ to_le-of_le (slice off n buf) (slice-All IsByte off n buf bytes)

  pub entry_rebuilt :
      entry
        (of_le (slice 0 8 buf))
        (of_le (slice 8 4 buf))
        (of_le (slice 12 2 buf))
        (of_le (slice 14 2 buf))
      ≡ take 16 buf
  entry_rebuilt =
      ap₂ ◌++◌ (rebuilt 0 8 (omega arith)) (
        ap₂ ◌++◌ (rebuilt 8 4 (omega arith))
          (ap₂ ◌++◌ (rebuilt 12 2 (omega arith)) (rebuilt 14 2 (omega arith))))
      ∙ ap (λ b. slice 0 8 buf ++ (slice 8 4 buf ++ b)) (slice-append 12 2 2 buf)
      ∙ ap (◌++◌ (slice 0 8 buf)) (slice-append 8 4 4 buf)
      ∙ slice-append 0 8 8 buf
