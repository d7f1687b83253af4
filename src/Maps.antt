-- ===== src/Maps.antt =====
-- A `HashMap`, as a list of entries of which the first counts. Nothing of a model may depend on
-- the entries' order but what the source leaves open.
pub mod Laws
use rust_nano_vm.Prelude.{
  ℕ, ◌≡◌, refl, sym, Bool, true, false, Option, none, some, List, [], ◌∷◌, ◌==◌, ==→eq, eq→==,
  if◌then◌else◌,
}

-- `K: Eq`
pub record Key {ℓ} (K : Type ℓ) : Type ℓ where
  pub same : K → K → Bool
  pub same→≡ : (a b : K) → same a b ≡ true → a ≡ b
  pub ≡→same : (a b : K) → a ≡ b → same a b ≡ true

-- `u32`, `u64`
instance abbrev pub nat_key : Key ℕ
nat_key = record { same = ◌==◌; same→≡ = ==→eq; ≡→same = eq→== }

abbrev pub Map {ℓ κ} : Type ℓ → Type κ → Type (ℓ ⊔ κ)
Map K V = List (K × V)

module _ {ℓ κ} {K : Type ℓ} {V : Type κ} ⦃key : Key K⦄ where
  unfoldable pub get : K → Map K V → Option V
  get k [] = none
  get k ((j, v) ∷ m) = if key.same k j then some v else get k m

  unfoldable pub remove : K → Map K V → Map K V
  remove k [] = []
  remove k ((j, v) ∷ m) = let rest = remove k m in if key.same k j then rest else (j, v) ∷ rest

  unfoldable pub insert : K → V → Map K V → Map K V
  insert k v m = (k, v) ∷ remove k m

-- `contains_key`, `is_some`
abbrev pub is_some {ℓ} : {A : Type ℓ} → Option A → Bool
is_some none = false
is_some (some a) = true
