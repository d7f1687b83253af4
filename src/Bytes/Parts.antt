-- ===== src/Bytes/Parts.antt =====
-- Arrays of u32 within a struct, and a struct within a struct.
use rust_nano_vm.Prelude.{
  ℕ, zero, suc, ◌+◌, ◌*◌, ◌≤◌, ◌≡◌, refl, ap, sym, ◌∙◌, arith, List, [], ◌∷◌, ◌++◌, length, take,
  drop, replicate, Outcome, ok, ◌>>=◌,
}
use mathlib.Core.Path.{ap₂}
use native.Mathlib.Nat.{zero-add, suc-add}
use rust_nano_vm.Bytes.Endian.{to_le, of_le}
use rust_nano_vm.Bytes.Buffer.{
  no_items, slice, length-slice, splice, read_le, read_le_in, read_slice, read_slice_in,
  write_slice, write_slice_in, length-splice, splice-append, splice-empty,
}
use rust_nano_vm.Bytes.Fields.{total}
use rust_nano_vm.Bytes.Wire.{values_at, encoded, AllFit, Wire, IsWire}

module _ {ℓ} {E : Type ℓ} where
  -- The loop that reads an array of `n` words from `off` on.
  unfoldable pub read_words : ℕ → ℕ → List ℕ → Outcome E (List ℕ)
  read_words zero off buf = ok []
  read_words (suc n) off buf = do
    w ← read_le 4 off buf
    ws ← read_words n (off + 4) buf
    ok (w ∷ ws)

  -- The loop that writes one.
  unfoldable pub write_words : ℕ → List ℕ → List ℕ → Outcome E (List ℕ)
  write_words off [] buf = ok buf
  write_words off (w ∷ ws) buf = do
    buf ← write_slice off (to_le 4 w) buf
    write_words (off + 4) ws buf

  -- A struct that is written into a slice of the buffer, `f(&mut buf[off..off + n])?`.
  unfoldable pub write_part :
      ℕ → ℕ → (List ℕ → Outcome E (List ℕ × ℕ)) → List ℕ → Outcome E (List ℕ)
  write_part off n f buf = do
    part ← read_slice off n buf
    written ← f part
    ok (splice off written.0 buf)

  pub read_words_in :
      (n off : ℕ) (buf : List ℕ)
      → off + 4 * n ≤ length buf
      → read_words n off buf ≡ ok (values_at off (replicate n 4) buf)
  unfolding read_words
  read_words_in zero off buf room = refl
  read_words_in (suc n) off buf room =
      rw (read_le_in {E = E} 4 off buf (omega arith), read_words_in n (off + 4) buf (omega arith))
        refl

  pub write_words_in :
      (off : ℕ) (ws buf : List ℕ) (n : ℕ)
      → AllFit (replicate n 4) ws
      → off + 4 * n ≤ length buf
      → write_words off ws buf ≡ ok (splice off (encoded (replicate n 4) ws) buf)
  unfolding write_words
  write_words_in off [] buf zero fit room = ap ok (splice-empty off buf)
  write_words_in off (w ∷ ws) buf zero fit room = absurd fit
  write_words_in off [] buf (suc n) fit room = absurd fit
  write_words_in off (w ∷ ws) buf (suc n) (_, fit) room =
      rw (write_slice_in {E = E} off (to_le 4 w) buf (omega arith)) (
        write_words_in (off + 4) ws (splice off (to_le 4 w) buf) n fit
          (omega (arith, length-splice off (to_le 4 w) buf))
        ∙ ap ok (splice-append off (to_le 4 w) (encoded (replicate n 4) ws) buf))

  pub write_part_in :
      (off n : ℕ) (f : List ℕ → Outcome E (List ℕ × ℕ)) (buf out : List ℕ) (k : ℕ)
      → off + n ≤ length buf
      → f (slice off n buf) ≡ ok (out, k)
      → write_part off n f buf ≡ ok (splice off out buf)
  unfolding write_part
  write_part_in off n f buf out k room e = rw (read_slice_in {E = E} off n buf room, e) refl

module _ {ℓ} {A : Type ℓ} where
  take-take : (k n : ℕ) (xs : List A) → k ≤ n → take k (take n xs) ≡ take k xs
  take-take zero n xs h = refl
  take-take (suc k) zero xs h = absurd (omega arith)
  take-take (suc k) (suc n) [] h = refl
  take-take (suc k) (suc n) (x ∷ xs) h = ap (◌∷◌ x) (take-take k n xs (omega arith))

  slice-nil : (o k : ℕ) → slice o k (no_items A) ≡ []
  slice-nil zero zero = refl
  slice-nil zero (suc k) = refl
  slice-nil (suc o) zero = refl
  slice-nil (suc o) (suc k) = refl

  pub slice-slice :
      (off n o k : ℕ) (buf : List A)
      → o + k ≤ n
      → slice o k (slice off n buf) ≡ slice (off + o) k buf
  slice-slice (suc off) zero o k [] h = slice-nil o k ∙ sym (slice-nil (suc off + o) k)
  slice-slice (suc off) (suc n) o k [] h = slice-nil o k ∙ sym (slice-nil (suc off + o) k)
  slice-slice (suc off) n o k (b ∷ buf) h = rw (suc-add off o) (slice-slice off n o k buf h)
  slice-slice zero n zero k buf h = take-take k n buf (omega arith)
  slice-slice zero zero (suc o) k buf h = absurd (omega arith)
  slice-slice zero (suc n) (suc o) k [] h = slice-nil (suc o) k ∙ sym (slice-nil (0 + suc o) k)
  slice-slice zero (suc n) (suc o) k (b ∷ buf) h =
      rw (zero-add (suc o)) (rw (zero-add o) at (slice-slice zero n o k buf (omega arith)))

-- Values within a slice are those of the buffer.
pub values_at-slice :
    (off n o : ℕ) (ws buf : List ℕ)
    → o + total ws ≤ n
    → values_at o ws (slice off n buf) ≡ values_at (off + o) ws buf
values_at-slice off n o [] buf h = refl
values_at-slice off n o (w ∷ ws) buf h =
    ap₂ ◌∷◌ (ap of_le (slice-slice off n o w buf (omega arith))) (
      values_at-slice off n (o + w) ws buf (omega arith)
      ∙ ap (λ (i : ℕ). values_at i ws buf) (omega arith))

pub append_nil : (xs : List ℕ) → xs ++ [] ≡ xs
append_nil [] = refl
append_nil (x ∷ xs) = ap (◌∷◌ x) (append_nil xs)

module _ {E A : Type 0} (w : Wire E A) (laws : IsWire w) where
  -- `from_bytes(&buf[off..off + len])?`
  pub read_part :
      (off : ℕ) (buf : List ℕ)
      → off + w.len ≤ length buf
      → (a : A) × ((read_slice off w.len buf >>= w.from_bytes) ≡ ok a)
        × (w.values a ≡ values_at off w.widths buf)
  read_part off buf room =
      let (a, read, same) =
        laws.reads (slice off w.len buf) (omega (arith, length-slice off w.len buf room)) in
      (
        a,
        rw (read_slice_in {E = E} off w.len buf room) read,
        same
            ∙ values_at-slice off w.len 0 w.widths buf (omega (arith, laws.len_total))
            ∙ ap (λ (i : ℕ). values_at i w.widths buf) (omega arith),
      )

  all_of : (bytes part : List ℕ) → length part ≡ w.len → bytes ++ drop w.len part ≡ bytes
  all_of bytes part size = ap (◌++◌ bytes) (drop-all w.len part (omega arith)) ∙ append_nil bytes
    where
      drop-all : (n : ℕ) (xs : List ℕ) → length xs ≤ n → drop n xs ≡ []
      drop-all zero [] h = refl
      drop-all zero (x ∷ xs) h = absurd (omega arith)
      drop-all (suc n) [] h = refl
      drop-all (suc n) (x ∷ xs) h = drop-all n xs (omega arith)

  pub write_part_wire :
      (off : ℕ) (a : A) (buf : List ℕ)
      → AllFit w.widths (w.values a)
      → off + w.len ≤ length buf
      → write_part off w.len (w.write_to a) buf
        ≡ ok (splice off (encoded w.widths (w.values a)) buf)
  write_part_wire off a buf fit room =
      let size = length-slice off w.len buf room in
      write_part_in off w.len (w.write_to a) buf _ w.len room
        (laws.writes a (slice off w.len buf) fit (omega (arith, size)))
      ∙ ap (λ bytes. ok (splice off bytes buf))
          (all_of (encoded w.widths (w.values a)) (slice off w.len buf) size)
