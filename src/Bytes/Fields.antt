-- ===== src/Bytes/Fields.antt =====
-- A struct serialised field by field: writes at successive offsets.
use rust_nano_vm.Prelude.{
  ℕ, ◌+◌, ◌≤◌, ◌≡◌, refl, ap, ◌∙◌, arith, List, [], ◌∷◌, ◌++◌, length, length-append, All, sym,
  Outcome, ◌>>=◌,
}
use rust_nano_vm.Bytes.Buffer.{
  splice, slice-append, slice-All, length-slice, write_slice, write_slice_in, length-splice,
  splice-append, splice-empty, slice,
}
use rust_nano_vm.Bytes.Endian.{IsByte, to_le, of_le, to_le-of_le}

abbrev pub joined : List (List ℕ) → List ℕ
joined [] = []
joined (f ∷ fs) = f ++ joined fs

-- The writes, and what is done with the buffer afterwards.
abbrev pub write_fields {ℓ κ} :
    {E : Type ℓ} {B : Type κ} → ℕ → List (List ℕ) → List ℕ → (List ℕ → Outcome E B) → Outcome E B
write_fields off [] buf k = k buf
write_fields off (f ∷ fs) buf k =
    write_slice off f buf >>= λ b. write_fields (off + length f) fs b k

-- Where there is room, they make up one write.
pub write_fields_in {ℓ κ} :
    {E : Type ℓ} {B : Type κ} (off : ℕ) (fs : List (List ℕ)) (buf : List ℕ)
    (k : List ℕ → Outcome E B)
    → off + length (joined fs) ≤ length buf
    → write_fields off fs buf k ≡ k (splice off (joined fs) buf)
write_fields_in off [] buf k room = ap k (splice-empty off buf)
write_fields_in {E} off (f ∷ fs) buf k room =
    let len = length-append f (joined fs) in
    rw (write_slice_in {E = E} off f buf (omega arith)) (
      write_fields_in (off + length f) fs (splice off f buf) k
        (omega (arith, length-splice off f buf))
      ∙ ap k (splice-append off f (joined fs) buf))

-- Fields of the given widths, read one after the other and written again.
abbrev pub reread : ℕ → List ℕ → List ℕ → List (List ℕ)
reread off [] buf = []
reread off (w ∷ ws) buf = to_le w (of_le (slice off w buf)) ∷ reread (off + w) ws buf

abbrev pub total : List ℕ → ℕ
total [] = 0
total (w ∷ ws) = w + total ws

pub joined-reread :
    (off : ℕ) (ws buf : List ℕ)
    → off + total ws ≤ length buf
    → All IsByte buf
    → joined (reread off ws buf) ≡ slice off (total ws) buf
joined-reread off [] buf room bytes = refl
joined-reread off (w ∷ ws) buf room bytes =
    ap (λ bs. bs ++ joined (reread (off + w) ws buf))
      (ap (λ n. to_le n (of_le (slice off w buf))) (sym (length-slice off w buf (omega arith)))
        ∙ to_le-of_le (slice off w buf) (slice-All IsByte off w buf bytes))
    ∙ ap (◌++◌ (slice off w buf)) (joined-reread (off + w) ws buf (omega arith) bytes)
    ∙ slice-append off w (total ws) buf
