-- ===== src/Bytes/Buffer.antt =====
-- Reads and writes at an offset of a buffer, with the panic that an index out of range is.
use rust_nano_vm.Prelude.{
  ℕ, zero, suc, ◌+◌, ◌≤◌, ◌≡◌, refl, ap, List, [], ◌∷◌, ◌++◌, All, arith, length, take, drop,
  length-take, length-drop, leb, le→leb, if◌then◌else◌, Outcome, ok, panic,
}
use native.Mathlib.Nat.{suc-add, zero-add}
use rust_nano_vm.Bytes.Endian.{of_le}

-- `&buf[off..off + n]`, where it is in range.
abbrev pub slice {ℓ} : {A : Type ℓ} → ℕ → ℕ → List A → List A
slice off n buf = take n (drop off buf)

-- `buf[off..off + src.len()].copy_from_slice(src)`, where it is in range.
abbrev pub splice {ℓ} : {A : Type ℓ} → ℕ → List A → List A → List A
splice off src [] = []
splice (suc off) src (b ∷ buf) = b ∷ splice off src buf
splice zero [] (b ∷ buf) = b ∷ buf
splice zero (s ∷ src) (b ∷ buf) = s ∷ splice zero src buf

module _ {ℓ} {E : Type ℓ} where
  -- `uN::from_le_bytes([buf[off], .., buf[off + n - 1]])`: each index is checked.
  abbrev pub read_le : ℕ → ℕ → List ℕ → Outcome E ℕ
  read_le n off buf = if leb (off + n) (length buf) then ok (of_le (slice off n buf)) else panic

  -- A slice of the buffer.
  abbrev pub read_slice : ℕ → ℕ → List ℕ → Outcome E (List ℕ)
  read_slice off n buf = if leb (off + n) (length buf) then ok (slice off n buf) else panic

  -- A copy into the buffer.
  abbrev pub write_slice : ℕ → List ℕ → List ℕ → Outcome E (List ℕ)
  write_slice off src buf =
      if leb (off + length src) (length buf) then ok (splice off src buf) else panic

  pub read_le_in :
      (n off : ℕ) (buf : List ℕ)
      → off + n ≤ length buf
      → read_le n off buf ≡ ok (of_le (slice off n buf))
  read_le_in n off buf h = rw (le→leb _ _ h)

  pub read_slice_in :
      (off n : ℕ) (buf : List ℕ)
      → off + n ≤ length buf
      → read_slice off n buf ≡ ok (slice off n buf)
  read_slice_in off n buf h = rw (le→leb _ _ h)

  pub write_slice_in :
      (off : ℕ) (src buf : List ℕ)
      → off + length src ≤ length buf
      → write_slice off src buf ≡ ok (splice off src buf)
  write_slice_in off src buf h = rw (le→leb _ _ h)

module _ {ℓ} {A : Type ℓ} where
  pub length-splice : (off : ℕ) (src buf : List A) → length (splice off src buf) ≡ length buf
  length-splice off src [] = refl
  length-splice (suc off) src (b ∷ buf) = ap suc (length-splice off src buf)
  length-splice zero [] (b ∷ buf) = refl
  length-splice zero (s ∷ src) (b ∷ buf) = ap suc (length-splice zero src buf)

  pub length-slice :
      (off n : ℕ) (buf : List A) → off + n ≤ length buf → length (slice off n buf) ≡ n
  length-slice off n buf h = omega (arith, length-take n (drop off buf), length-drop off buf)

  -- What was written is read back.
  pub slice-splice_self :
      (off : ℕ) (src buf : List A)
      → off + length src ≤ length buf
      → slice off (length src) (splice off src buf) ≡ src
  slice-splice_self off [] [] h = refl
  slice-splice_self off (s ∷ src) [] h = absurd (omega arith)
  slice-splice_self (suc off) src (b ∷ buf) h = slice-splice_self off src buf (omega arith)
  slice-splice_self zero [] (b ∷ buf) h = refl
  slice-splice_self zero (s ∷ src) (b ∷ buf) h =
      ap (◌∷◌ s) (slice-splice_self zero src buf (omega arith))

  -- A write does not reach the bytes below it.
  pub slice-splice_below :
      (o n off : ℕ) (src buf : List A)
      → o + n ≤ off
      → slice o n (splice off src buf) ≡ slice o n buf
  slice-splice_below o n off src [] h = refl
  slice-splice_below o zero off src (b ∷ buf) h = refl
  slice-splice_below zero (suc n) (suc off) src (b ∷ buf) h =
      ap (◌∷◌ b) (slice-splice_below zero n off src buf (omega arith))
  slice-splice_below zero (suc n) zero src (b ∷ buf) h = absurd (omega arith)
  slice-splice_below (suc o) (suc n) (suc off) src (b ∷ buf) h =
      slice-splice_below o (suc n) off src buf (omega arith)
  slice-splice_below (suc o) (suc n) zero src (b ∷ buf) h = absurd (omega arith)

  -- Nor the bytes above it.
  pub slice-splice_above :
      (o n off : ℕ) (src buf : List A)
      → off + length src ≤ o
      → slice o n (splice off src buf) ≡ slice o n buf
  slice-splice_above o n off src [] h = refl
  slice-splice_above o n zero [] (b ∷ buf) h = refl
  slice-splice_above (suc o) n zero (s ∷ src) (b ∷ buf) h =
      slice-splice_above o n zero src buf (omega arith)
  slice-splice_above zero n zero (s ∷ src) (b ∷ buf) h = absurd (omega arith)
  slice-splice_above (suc o) n (suc off) src (b ∷ buf) h =
      slice-splice_above o n off src buf (omega arith)
  slice-splice_above zero n (suc off) src (b ∷ buf) h = absurd (omega arith)

abbrev pub no_items {ℓ} : (A : Type ℓ) → List A
no_items A = []

module _ {ℓ} {A : Type ℓ} where
  -- Writes at adjacent offsets make up one write.
  pub splice-append :
      (off : ℕ) (xs ys buf : List A)
      → splice (off + length xs) ys (splice off xs buf) ≡ splice off (xs ++ ys) buf
  splice-append off xs ys [] = refl
  splice-append (suc off) xs ys (b ∷ buf) =
      rw (suc-add off (length xs)) (ap (◌∷◌ b) (splice-append off xs ys buf))
  splice-append zero [] ys (b ∷ buf) = refl
  splice-append zero (x ∷ xs) ys (b ∷ buf) =
      rw (zero-add (suc (length xs)))
        (ap (◌∷◌ x) (rw (zero-add (length xs)) at (splice-append zero xs ys buf)))

  pub splice-empty : (off : ℕ) (buf : List A) → buf ≡ splice off (no_items A) buf
  splice-empty off [] = refl
  splice-empty zero (b ∷ buf) = refl
  splice-empty (suc off) (b ∷ buf) = ap (◌∷◌ b) (splice-empty off buf)

  pub splice-zero :
      (src buf : List A) → length src ≤ length buf → splice 0 src buf ≡ src ++ drop (length src) buf
  splice-zero [] [] h = refl
  splice-zero [] (b ∷ buf) h = refl
  splice-zero (s ∷ src) [] h = absurd (omega arith)
  splice-zero (s ∷ src) (b ∷ buf) h = ap (◌∷◌ s) (splice-zero src buf (omega arith))

  drop-nil : (n : ℕ) → drop n (no_items A) ≡ []
  drop-nil zero = refl
  drop-nil (suc n) = refl

  take-nil : (n : ℕ) → take n (no_items A) ≡ []
  take-nil zero = refl
  take-nil (suc n) = refl

  -- Adjacent slices make up one slice.
  pub slice-append :
      (off n m : ℕ) (buf : List A)
      → slice off n buf ++ slice (off + n) m buf ≡ slice off (n + m) buf
  slice-append zero zero m buf = rw (zero-add m)
  slice-append off n m [] = simp (drop-nil, take-nil)
  slice-append zero (suc n) m (b ∷ buf) =
      rw (zero-add (suc n), suc-add n m)
        (ap (◌∷◌ b) (rw (zero-add n) at (slice-append zero n m buf)))
  slice-append (suc off) n m (b ∷ buf) = rw (suc-add off n) (slice-append off n m buf)

  pub slice-All {κ} :
      (P : A → Type κ) (off n : ℕ) (buf : List A) → All P buf → All P (slice off n buf)
  slice-All P zero zero buf h = tt
  slice-All P (suc off) zero [] h = tt
  slice-All P zero (suc n) [] h = tt
  slice-All P zero (suc n) (b ∷ buf) h = (h.0, slice-All P zero n buf h.1)
  slice-All P (suc off) (suc n) [] h = tt
  slice-All P (suc off) n (b ∷ buf) h = slice-All P off n buf h.1
