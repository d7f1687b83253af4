-- ===== src/Fuse/Flat.antt =====
-- crates/virtio-fs/src/body.rs: the structs that have nothing but integers, which their methods read
-- and write one after the other behind a check of the buffer's length.
use rust_nano_vm.Prelude.{
  ℕ, zero, suc, ◌+◌, ◌≤◌, ◌≡◌, refl, ap, sym, ◌∙◌, arith, List, [], ◌∷◌, ◌++◌, drop, length,
  replicate, length-replicate, ltb, lt→ltb, le→not-ltb, if◌then◌else◌, Outcome, ok, err, ◌>>=◌,
}
use rust_nano_vm.Bytes.Endian.{to_le}
use rust_nano_vm.Bytes.Buffer.{splice-zero, read_le, read_le_in}
use rust_nano_vm.Bytes.Fields.{joined, total, write_fields, write_fields_in}
use rust_nano_vm.Bytes.Wire.{Wire, IsWire, AllFit, encoded, length-encoded, values_at}
use rust_nano_vm.Bytes.Parts.{append_nil}
use rust_nano_vm.Fuse.Error.{as_array}

-- A function of as many numbers as there are fields.
abbrev pub Made : List ℕ → Type 0 → Type 0
Made [] A = A
Made (w ∷ ws) A = ℕ → Made ws A

abbrev pub made : {A : Type 0} (ws : List ℕ) → Made ws A → List ℕ → A
made [] f vs = f
made (w ∷ ws) f [] = made ws (f 0) []
made (w ∷ ws) f (v ∷ vs) = made ws (f v) vs

-- The fields read one after the other.
abbrev pub read_fields : {E A : Type 0} (off : ℕ) (ws : List ℕ) → Made ws A → List ℕ → Outcome E A
read_fields off [] f buf = ok f
read_fields off (w ∷ ws) f buf = read_le w off buf >>= λ v. read_fields (off + w) ws (f v) buf

abbrev pub pieces : List ℕ → List ℕ → List (List ℕ)
pieces [] vs = []
pieces (w ∷ ws) [] = []
pieces (w ∷ ws) (v ∷ vs) = to_le w v ∷ pieces ws vs

read_fields_in :
    {E A : Type 0} (off : ℕ) (ws : List ℕ) (f : Made ws A) (buf : List ℕ)
    → off + total ws ≤ length buf
    → read_fields {E = E} off ws f buf ≡ ok (made ws f (values_at off ws buf))
read_fields_in off [] f buf room = refl
read_fields_in {E} off (w ∷ ws) f buf room =
    rw (read_le_in {E = E} w off buf (omega arith))
      (read_fields_in (off + w) ws (f _) buf (omega arith))

joined-pieces : (ws vs : List ℕ) → joined (pieces ws vs) ≡ encoded ws vs
joined-pieces [] vs = refl
joined-pieces (w ∷ ws) [] = refl
joined-pieces (w ∷ ws) (v ∷ vs) = ap (◌++◌ (to_le w v)) (joined-pieces ws vs)

no_rest : (bytes : List ℕ) (n : ℕ) → bytes ++ drop n (replicate {A = ℕ} n 0) ≡ bytes
no_rest bytes n = ap (◌++◌ bytes) (gone n) ∙ append_nil bytes
  where
    gone : (k : ℕ) → drop k (replicate {A = ℕ} k 0) ≡ []
    gone zero = refl
    gone (suc k) = gone k

-- That a struct is of this shape: each equation holds by the methods' bodies.
pub record Flat {E A : Type 0} (w : Wire E A) : Type 0 where
  pub build : Made w.widths A
  pub all_fields : w.len ≡ total w.widths
  pub reading :
      (buf : List ℕ)
      → w.from_bytes buf ≡ (
          if ltb (length buf) w.len
          then err (w.short_read (length buf) w.len)
          else read_fields 0 w.widths build buf)
  pub writing :
      (a : A) (buf : List ℕ)
      → w.write_to a buf ≡ (
          if ltb (length buf) w.len
          then err (w.short_write (length buf) w.len)
          else write_fields 0 (pieces w.widths (w.values a)) buf (λ b. ok (b, w.len)))
  pub making : (a : A) → w.to_bytes a ≡ as_array (w.write_to a (replicate w.len 0))
  pub rebuilt : (a : A) → made w.widths build (w.values a) ≡ a
  pub read_back :
      (buf : List ℕ)
      → w.values (made w.widths build (values_at 0 w.widths buf)) ≡ values_at 0 w.widths buf

module _ {E A : Type 0} {w : Wire E A} (f : Flat w) where
  written :
      (a : A) (buf : List ℕ)
      → AllFit w.widths (w.values a)
      → w.len ≤ length buf
      → w.write_to a buf ≡ ok (encoded w.widths (w.values a) ++ drop w.len buf, w.len)
  written a buf fit room =
      let parts = pieces w.widths (w.values a) in
      let same = joined-pieces w.widths (w.values a) in
      let size = length-encoded w.widths (w.values a) fit ∙ sym f.all_fields in
      f.writing a buf
      ∙ rw (le→not-ltb (length buf) w.len room) (
          write_fields_in 0 parts buf (λ b. ok (b, w.len)) (omega (arith, ap length same, size))
          ∙ rw (same, splice-zero (encoded w.widths (w.values a)) buf (omega (arith, size)), size)
              refl)

  pub flat-IsWire : IsWire w
  flat-IsWire = record {
    len_total = f.all_fields;
    reads = λ buf room. (
      made w.widths f.build (values_at 0 w.widths buf),
      f.reading buf
          ∙ rw (le→not-ltb (length buf) w.len room)
              (read_fields_in 0 w.widths f.build buf (omega (arith, f.all_fields))),
      f.read_back buf,
    );
    reads_short = λ buf short. f.reading buf ∙ rw (lt→ltb (length buf) w.len short) refl;
    writes = written;
    writes_short = λ a buf short. f.writing a buf ∙ rw (lt→ltb (length buf) w.len short) refl;
    makes = λ a fit.
        f.making a
        ∙ ap as_array
            (written a (replicate w.len 0) fit (omega (arith, length-replicate {A = ℕ} w.len 0)))
        ∙ ap ok (no_rest (encoded w.widths (w.values a)) w.len);
    by_values = λ a b e. sym (f.rebuilt a) ∙ ap (made w.widths f.build) e ∙ f.rebuilt b;
  }
