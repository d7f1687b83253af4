-- ===== src/Prelude/Results.antt =====
-- What a Rust call comes to: a value, an `Err` of its error type, or a panic (an index or a slice
-- out of range).
use mathlib.Core.Path.{◌≡◌, refl}
use mathlib.Core.Logic.{◌⊎◌, inl, inr}
use mathlib.Core.Bool.{Bool, true, false}

pub data Outcome {ℓ κ} (E : Type ℓ) (A : Type κ) : Type (ℓ ⊔ κ) where
  ok : A → Outcome E A
  err : E → Outcome E A
  panic : Outcome E A

-- The `?` operator.
infixl 5 ◌>>=◌ ◌>>◌
abbrev pub ◌>>=◌ {ℓ κ μ} :
    {E : Type ℓ} {A : Type κ} {B : Type μ} → Outcome E A → (A → Outcome E B) → Outcome E B
ok a >>= f = f a
err e >>= f = err e
panic >>= f = panic

abbrev pub ◌>>◌ {ℓ μ} : {E : Type ℓ} {B : Type μ} → Outcome E (Unit {0}) → Outcome E B → Outcome E B
m >> k = m >>= λ _. k

-- `if test { return Err(e) }`
abbrev pub fail_if {ℓ} : {E : Type ℓ} → Bool → E → Outcome E (Unit {0})
fail_if true e = err e
fail_if false e = ok tt

-- A bind that succeeds took the value of a first part that succeeded.
pub record Succeeded {ℓ κ μ} {E : Type ℓ} {A : Type κ} {B : Type μ} (m : Outcome E A)
    (f : A → Outcome E B) (b : B) : Type (ℓ ⊔ κ ⊔ μ) where
  pub value : A
  pub first : m ≡ ok value
  pub rest : f value ≡ ok b

pub bind-Succeeded {ℓ κ μ} :
    {E : Type ℓ} {A : Type κ} {B : Type μ} {f : A → Outcome E B} {b : B} (m : Outcome E A)
    → m >>= f ≡ ok b
    → Succeeded m f b
bind-Succeeded panic e = cc
bind-Succeeded (err x) e = cc
bind-Succeeded (ok a) e = record { value = a; first = refl; rest = e }

pub Outcome-cases {ℓ κ} :
    {E : Type ℓ} {A : Type κ} (m : Outcome E A) → ((a : A) × (m ≡ ok a)) ⊎ ((a : A) → ¬ (m ≡ ok a))
Outcome-cases (ok a) = inl (a, refl)
Outcome-cases (err e) = inr (λ a h. cc h)
Outcome-cases panic = inr (λ a h. cc h)

-- Nothing comes of a bind whose first part fails.
pub bind_failed {ℓ κ μ} :
    {E : Type ℓ} {A : Type κ} {B : Type μ} (m : Outcome E A) (f : A → Outcome E B)
    → ((a : A) → ¬ (m ≡ ok a))
    → (b : B) → ¬ (m >>= f ≡ ok b)
bind_failed (ok a) f no_value b h = absurd (no_value a refl)
bind_failed (err e) f no_value b h = cc h
bind_failed panic f no_value b h = cc h
