-- ===== src/Bytes/Wire.antt =====
-- A struct of fixed size on the wire: little-endian fields, one after the other. What the
-- implementations promise is a record of laws, and the round trips follow from it.
use rust_nano_vm.Prelude.{
  subst, ℕ, zero, suc, ◌+◌, ◌^◌, ◌≤◌, ◌<◌, ◌≡◌, refl, ap, sym, ◌∙◌, arith, ◌⊎◌, inl, inr, List, [],
  ◌∷◌, ◌++◌, length, take, drop, length-append, All, lt_or_le, Outcome, ok, err,
}
use mathlib.Core.Path.{ap₂}
use rust_nano_vm.Bytes.Endian.{
  IsByte, to_le, of_le, length-to_le, of_le-to_le, to_le-of_le, of_le-lt,
}
use rust_nano_vm.Bytes.Buffer.{slice, slice-append, slice-All, length-slice}
use rust_nano_vm.Bytes.Fields.{total}

-- The values of fields of the given widths.
abbrev pub values_at : ℕ → List ℕ → List ℕ → List ℕ
values_at off [] buf = []
values_at off (w ∷ ws) buf = of_le (slice off w buf) ∷ values_at (off + w) ws buf

abbrev pub encoded : List ℕ → List ℕ → List ℕ
encoded [] vs = []
encoded (w ∷ ws) [] = []
encoded (w ∷ ws) (v ∷ vs) = to_le w v ++ encoded ws vs

-- Each value fits its width, and there are as many values as widths.
abbrev pub AllFit : List ℕ → List ℕ → Type 0
AllFit [] [] = Unit {0}
AllFit [] (v ∷ vs) = ⊥
AllFit (w ∷ ws) [] = ⊥
AllFit (w ∷ ws) (v ∷ vs) = (v < 256 ^ w) × AllFit ws vs

abbrev pub nth : ℕ → List ℕ → ℕ
nth n [] = 0
nth zero (v ∷ vs) = v
nth (suc n) (v ∷ vs) = nth n vs

pub record Wire (E A : Type 0) : Type 0 where
  pub len : ℕ
  pub widths : List ℕ
  pub values : A → List ℕ
  pub short_read : (have need : ℕ) → E
  pub short_write : (have need : ℕ) → E
  pub from_bytes : List ℕ → Outcome E A
  pub write_to : A → List ℕ → Outcome E (List ℕ × ℕ)
  pub to_bytes : A → Outcome E (List ℕ)

-- What an implementation owes.
pub record IsWire {E A : Type 0} (w : Wire E A) : Type 0 where
  pub len_total : w.len ≡ total w.widths
  pub reads :
      (buf : List ℕ)
      → w.len ≤ length buf
      → (a : A) × (w.from_bytes buf ≡ ok a) × (w.values a ≡ values_at 0 w.widths buf)
  pub reads_short :
      (buf : List ℕ) → length buf < w.len → w.from_bytes buf ≡ err (w.short_read (length buf) w.len)
  pub writes :
      (a : A) (buf : List ℕ)
      → AllFit w.widths (w.values a)
      → w.len ≤ length buf
      → w.write_to a buf ≡ ok (encoded w.widths (w.values a) ++ drop w.len buf, w.len)
  pub writes_short :
      (a : A) (buf : List ℕ)
      → length buf < w.len
      → w.write_to a buf ≡ err (w.short_write (length buf) w.len)
  pub makes :
      (a : A) → AllFit w.widths (w.values a) → w.to_bytes a ≡ ok (encoded w.widths (w.values a))
  pub by_values : (a b : A) → w.values a ≡ w.values b → a ≡ b

pub length-encoded : (ws vs : List ℕ) → AllFit ws vs → length (encoded ws vs) ≡ total ws
length-encoded [] [] fit = refl
length-encoded [] (v ∷ vs) fit = absurd fit
length-encoded (w ∷ ws) [] fit = absurd fit
length-encoded (w ∷ ws) (v ∷ vs) (_, fit) =
    omega
      (arith, length-append (to_le w v) (encoded ws vs), length-to_le w v, length-encoded ws vs fit)

module _ {ℓ} {A : Type ℓ} where
  pub drop-append : (xs ys : List A) (n : ℕ) → n ≡ length xs → drop n (xs ++ ys) ≡ ys
  drop-append [] ys zero h = refl
  drop-append [] ys (suc n) h = absurd (omega arith)
  drop-append (x ∷ xs) ys zero h = absurd (omega arith)
  drop-append (x ∷ xs) ys (suc n) h = drop-append xs ys n (omega arith)

  pub take-append : (xs ys : List A) (n : ℕ) → n ≡ length xs → take n (xs ++ ys) ≡ xs
  take-append [] ys zero h = refl
  take-append [] ys (suc n) h = absurd (omega arith)
  take-append (x ∷ xs) ys zero h = absurd (omega arith)
  take-append (x ∷ xs) ys (suc n) h = ap (◌∷◌ x) (take-append xs ys n (omega arith))

  pub append_assoc : (xs ys zs : List A) → (xs ++ ys) ++ zs ≡ xs ++ (ys ++ zs)
  append_assoc [] ys zs = refl
  append_assoc (x ∷ xs) ys zs = ap (◌∷◌ x) (append_assoc xs ys zs)

-- The values behind a prefix are those that were encoded there.
pub values_at-append :
    (pre ws vs rest : List ℕ)
    → AllFit ws vs
    → values_at (length pre) ws (pre ++ (encoded ws vs ++ rest)) ≡ vs
values_at-append pre [] [] rest fit = refl
values_at-append pre [] (v ∷ vs) rest fit = absurd fit
values_at-append pre (w ∷ ws) [] rest fit = absurd fit
values_at-append pre (w ∷ ws) (v ∷ vs) rest (fits, fit) =
    let field = to_le w v in
    let regrouped : (pre ++ field) ++ (encoded ws vs ++ rest)
        ≡ pre ++ ((field ++ encoded ws vs) ++ rest) =
      append_assoc pre field (encoded ws vs ++ rest)
      ∙ ap (◌++◌ pre) (sym (append_assoc field (encoded ws vs) rest)) in
    let behind : length (pre ++ field) ≡ length pre + w =
      omega (arith, length-append pre field, length-to_le w v) in
    ap₂ ◌∷◌
      (ap of_le (
          ap (take w) (
            drop-append pre ((field ++ encoded ws vs) ++ rest) (length pre) refl
            ∙ append_assoc field (encoded ws vs) rest)
          ∙ take-append field (encoded ws vs ++ rest) w (sym (length-to_le w v)))
        ∙ of_le-to_le w v fits)
      (ap₂ (λ (off : ℕ) (buf : List ℕ). values_at off ws buf) (sym behind) (sym regrouped)
        ∙ values_at-append (pre ++ field) ws vs rest fit)

encoded-values_at :
    (off : ℕ) (ws buf : List ℕ)
    → off + total ws ≤ length buf
    → All IsByte buf
    → encoded ws (values_at off ws buf) ≡ slice off (total ws) buf
encoded-values_at off [] buf room bytes = refl
encoded-values_at off (w ∷ ws) buf room bytes =
    let field : to_le w (of_le (slice off w buf)) ≡ slice off w buf =
      ap (λ n. to_le n (of_le (slice off w buf))) (sym (length-slice off w buf (omega arith)))
      ∙ to_le-of_le (slice off w buf) (slice-All IsByte off w buf bytes) in
    ap₂ ◌++◌ field (encoded-values_at (off + w) ws buf (omega arith) bytes)
    ∙ slice-append off w (total ws) buf

values_at-AllFit :
    (off : ℕ) (ws buf : List ℕ)
    → off + total ws ≤ length buf
    → All IsByte buf
    → AllFit ws (values_at off ws buf)
values_at-AllFit off [] buf room bytes = tt
values_at-AllFit off (w ∷ ws) buf room bytes = (
  subst (λ n. of_le (slice off w buf) < 256 ^ n) (length-slice off w buf (omega arith))
      (of_le-lt (slice off w buf) (slice-All IsByte off w buf bytes)),
  values_at-AllFit (off + w) ws buf (omega arith) bytes,
)

module _ {E A : Type 0} (w : Wire E A) (laws : IsWire w) where
  pub from_bytes-encoded :
      (a : A) (rest : List ℕ)
      → AllFit w.widths (w.values a)
      → w.from_bytes (encoded w.widths (w.values a) ++ rest) ≡ ok a
  from_bytes-encoded a rest fit =
      let bytes = encoded w.widths (w.values a) in
      let (b, read, same) = laws.reads (bytes ++ rest) (
        omega (
          arith,
          laws.len_total,
          length-encoded w.widths (w.values a) fit,
          length-append bytes rest,
        )) in
      read ∙ ap ok (laws.by_values b a (same ∙ values_at-append [] w.widths (w.values a) rest fit))

  pub drop-encoded :
      (a : A) (rest : List ℕ)
      → AllFit w.widths (w.values a)
      → drop w.len (encoded w.widths (w.values a) ++ rest) ≡ rest
  drop-encoded a rest fit =
      drop-append (encoded w.widths (w.values a)) rest w.len
        (omega (arith, laws.len_total, length-encoded w.widths (w.values a) fit))

  -- What was written at the front of a buffer is read back, the bytes behind it stay, and the array
  -- is the same bytes; a buffer that is too short is refused.
  pub from_bytes-write_to :
      (a : A) (buf : List ℕ)
      → AllFit w.widths (w.values a)
      → ((w.len ≤ length buf)
          × (out : List ℕ) × (w.write_to a buf ≡ ok (out, w.len))
          × (w.from_bytes out ≡ ok a)
          × (w.to_bytes a ≡ ok (take w.len out))
          × (drop w.len out ≡ drop w.len buf))
        ⊎ ((length buf < w.len) × (w.write_to a buf ≡ err (w.short_write (length buf) w.len)))
  from_bytes-write_to a buf fit = elim (lt_or_le (length buf) w.len) [
    | inl short ↦ inr (short, laws.writes_short a buf short)
    | inr room ↦
        let bytes = encoded w.widths (w.values a) in
        let size : w.len ≡ length bytes =
          omega (arith, laws.len_total, length-encoded w.widths (w.values a) fit) in
        inl (
          room,
          bytes ++ drop w.len buf,
          laws.writes a buf fit room,
          from_bytes-encoded a (drop w.len buf) fit,
          laws.makes a fit ∙ ap ok (sym (take-append bytes (drop w.len buf) w.len size)),
          drop-append bytes (drop w.len buf) w.len size,
        )
  ]

  -- Any bytes are read without a panic, but that a shorter buffer is refused, and what was read is
  -- written as the bytes that it was read from.
  pub to_bytes-from_bytes :
      (buf : List ℕ)
      → All IsByte buf
      → ((w.len ≤ length buf)
          × (a : A) × (w.from_bytes buf ≡ ok a)
          × AllFit w.widths (w.values a)
          × (w.to_bytes a ≡ ok (take w.len buf)))
        ⊎ ((length buf < w.len) × (w.from_bytes buf ≡ err (w.short_read (length buf) w.len)))
  to_bytes-from_bytes buf bytes = elim (lt_or_le (length buf) w.len) [
    | inl short ↦ inr (short, laws.reads_short buf short)
    | inr room ↦
        let (a, read, same) = laws.reads buf room in
        let enough : total w.widths ≤ length buf = omega (arith, laws.len_total) in
        let fit : AllFit w.widths (w.values a) =
          subst (AllFit w.widths) (sym same)
            (values_at-AllFit 0 w.widths buf (omega arith) bytes) in
        inl (
          room,
          a,
          read,
          fit,
          laws.makes a fit
              ∙ ap ok (
                  ap (encoded w.widths) same
                  ∙ encoded-values_at 0 w.widths buf (omega arith) bytes
                  ∙ ap (λ (n : ℕ). take n buf) (sym laws.len_total)),
        )
  ]
