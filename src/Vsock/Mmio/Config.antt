-- ===== src/Vsock/Mmio/Config.antt =====
-- crates/virtio-vsock/src/mmio.rs: the config space.
use rust_nano_vm.Prelude.{
  ℕ, zero, suc, ◌+◌, ◌-◌, ◌/◌, ◌%◌, ◌^◌, ◌≤◌, ◌<◌, ◌≡◌, refl, ap, ◌∙◌, ◌⊎◌, inl, inr, true, false,
  some, List, [], ◌∷◌, arith, length, get_elem?, modify, length-modify, get_elem?-modify_self,
  get_elem?-modify_other, leb, ◌==◌, if◌then◌else◌, lt→ltb,
}
use mathlib.Core.Path.{ap₂}
use rust_nano_vm.Words.{wrapping_add}
use rust_nano_vm.Bytes.Endian.{to_le, of_le, of_le-to_le}
use rust_nano_vm.Vsock.Mmio.{
  MmioTransport, byte_or_zero, config_bytes, read_config, write_bytes, write_config, read, write,
}
use rust_nano_vm.Vsock.Mmio.Registers.{config_space}

length-write_bytes :
    (config : List ℕ) (off n value : ℕ) → length (write_bytes config off n value).0 ≡ length config
length-write_bytes config off zero value = refl
length-write_bytes config off (suc n) value =
    length-write_bytes (modify off (λ _. value % 256) config) (suc off) n (value / 256)
    ∙ length-modify off _ config

-- A write leaves the bytes outside its range as they were.
kept_below :
    (config : List ℕ) (off n value j : ℕ)
    → j < off
    → get_elem? (write_bytes config off n value).0 j ≡ get_elem? config j
kept_below config off zero value j h = refl
kept_below config off (suc n) value j h =
    kept_below (modify off (λ _. value % 256) config) (suc off) n (value / 256) j (omega arith)
    ∙ (elim (get_elem?-modify_other off j (λ _. value % 256) config) [
      | inl e ↦ absurd (omega arith)
      | inr e ↦ e
    ])

kept_above :
    (config : List ℕ) (off n value j : ℕ)
    → off + n ≤ j
    → get_elem? (write_bytes config off n value).0 j ≡ get_elem? config j
kept_above config off zero value j h = refl
kept_above config off (suc n) value j h =
    kept_above (modify off (λ _. value % 256) config) (suc off) n (value / 256) j (omega arith)
    ∙ (elim (get_elem?-modify_other off j (λ _. value % 256) config) [
      | inl e ↦ absurd (omega arith)
      | inr e ↦ e
    ])

get_elem?-in : (xs : List ℕ) (i : ℕ) → i < length xs → (x : ℕ) × (get_elem? xs i ≡ some x)
get_elem?-in [] i h = absurd (omega arith)
get_elem?-in (x ∷ xs) zero h = (x, refl)
get_elem?-in (x ∷ xs) (suc i) h = get_elem?-in xs i (omega arith)

written :
    (config : List ℕ) (off n value : ℕ)
    → off + n ≤ length config
    → config_bytes (write_bytes config off n value).0 off n ≡ to_le n value
written config off zero value h = refl
written config off (suc n) value h =
    let config' = modify off (λ _. value % 256) config in
    let (b, there) = get_elem?-in config off (omega arith) in
    ap₂ ◌∷◌
      (ap byte_or_zero (
        kept_below config' (suc off) n (value / 256) off (omega arith)
        ∙ get_elem?-modify_self off (λ _. value % 256) config b there))
      (written config' (suc off) n (value / 256)
        (omega (arith, length-modify off (λ (_ : ℕ). value % 256) config)))

-- Reads see the bytes of their range only.
same_bytes :
    (xs ys : List ℕ) (off n : ℕ)
    → ((j : ℕ) → off ≤ j → j < off + n → get_elem? xs j ≡ get_elem? ys j)
    → config_bytes xs off n ≡ config_bytes ys off n
same_bytes xs ys off zero same = refl
same_bytes xs ys off (suc n) same =
    ap₂ ◌∷◌ (ap byte_or_zero (same off (omega arith) (omega arith)))
      (same_bytes xs ys (suc off) n (λ j ge lt. same j (omega arith) (omega arith)))

outside :
    (config : List ℕ) (off n value o k : ℕ)
    → (o + k ≤ off) ⊎ (off + n ≤ o)
    → config_bytes (write_bytes config off n value).0 o k ≡ config_bytes config o k
outside config off n value o k (inl below) =
    same_bytes _ _ o k (λ j ge lt. kept_below config off n value j (omega arith))
outside config off n value o k (inr above) =
    same_bytes _ _ o k (λ j ge lt. kept_above config off n value j (omega arith))

wrote_some :
    (config : List ℕ) (off n value : ℕ)
    → off + suc n ≤ length config
    → (write_bytes config off (suc n) value).1 ≡ true
wrote_some config off n value h = rw (lt→ltb off (length config) (omega arith)) refl

read_in_config :
    (t : MmioTransport) (off n : ℕ)
    → read t (config_space + off) n ≡ of_le (config_bytes t.config off n)
unfolding read read_config
read_in_config t off n =
    let there : leb config_space (config_space + off) ≡ true = ground arith in
    let back : config_space + off - config_space ≡ off = omega arith in rw (there, back) refl

write_in_config :
    (t : MmioTransport) (off size value : ℕ)
    → write t (config_space + off) size value ≡ write_config t off size value
unfolding write
write_in_config t off size value =
    let there : leb config_space (config_space + off) ≡ true = ground arith in
    let back : config_space + off - config_space ≡ off = omega arith in rw (there, back) refl

generation :
    (t : MmioTransport) (off size value : ℕ)
    → off + size ≤ length t.config
    → (write_config t off size value).config_generation
      ≡ (if size == 0 then t.config_generation else wrapping_add 32 t.config_generation 1)
unfolding write_config
generation t off zero value h = refl
generation t off (suc n) value h =
    let nonzero : (suc n == 0) ≡ false = ground arith in
    rw (wrote_some t.config off n value h, nonzero) refl

new_config :
    (t : MmioTransport) (off size value o n : ℕ)
    → config_bytes (write_config t off size value).config o n
      ≡ config_bytes (write_bytes t.config off size value).0 o n
unfolding write_config
new_config t off size value o n = refl

-- A driver's write to the config space, within its bounds, is what a read of the same range then
-- gives, for a value of the write's size; a read of a range apart gives what it gave before; and
-- the generation goes up by one modulo 2 ^ 32 if any byte is written.
pub read-write_config :
    (t : MmioTransport) (off size value o n : ℕ)
    → off + size ≤ length t.config
    → value < 256 ^ size
    → (o + n ≤ off) ⊎ (off + size ≤ o)
    → (read (write t (config_space + off) size value) (config_space + off) size ≡ value)
      × (read (write t (config_space + off) size value) (config_space + o) n
          ≡ read t (config_space + o) n)
      × ((write t (config_space + off) size value).config_generation
          ≡ (if size == 0 then t.config_generation else wrapping_add 32 t.config_generation 1))
read-write_config t off size value o n h fits apart =
    rw
      (
        write_in_config t off size value,
        read_in_config (write_config t off size value) off size,
        read_in_config (write_config t off size value) o n,
        read_in_config t o n,
      )
      (
        ap of_le (new_config t off size value off size)
            ∙ ap of_le (written t.config off size value h)
            ∙ of_le-to_le size value fits,
        ap of_le (new_config t off size value o n)
            ∙ ap of_le (outside t.config off size value o n apart),
        generation t off size value h,
      )
