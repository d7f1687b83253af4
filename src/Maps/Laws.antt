-- ===== src/Maps/Laws.antt =====
-- What a lookup sees after an insertion or a removal.
use rust_nano_vm.Prelude.{
  ◌≡◌, refl, sym, ◌∙◌, true, false, none, some, [], ◌∷◌, Bool-cases, ◌⊎◌, inl, inr,
}
use rust_nano_vm.Maps.{Key, Map, get, remove, insert}

module _ {ℓ} {K : Type ℓ} ⦃key : Key K⦄ where
  pub same_refl : (k : K) → key.same k k ≡ true
  same_refl k = key.≡→same k k refl

  pub same-no : (j k : K) → ¬ (j ≡ k) → key.same j k ≡ false
  same-no j k h = elim (Bool-cases (key.same j k)) [
    | inl e ↦ absurd (h (key.same→≡ j k e))
    | inr e ↦ e
  ]

  pub key-cases : (j k : K) → (j ≡ k) ⊎ (¬ (j ≡ k))
  key-cases j k = elim (Bool-cases (key.same j k)) [
    | inl e ↦ inl (key.same→≡ j k e)
    | inr e ↦ inr (λ same. cc (key.≡→same j k same))
  ]

module _ {ℓ κ} {K : Type ℓ} {V : Type κ} ⦃key : Key K⦄ where
  pub get-remove_self : (k : K) (m : Map K V) → get k (remove k m) ≡ none
  unfolding get remove
  get-remove_self k [] = refl
  get-remove_self k ((j, v) ∷ m) = elim (Bool-cases (key.same k j)) [
    | inl e ↦ rw e (get-remove_self k m)
    | inr e ↦ rw (e, e) (get-remove_self k m)
  ]

  pub get-remove_other : (j k : K) (m : Map K V) → ¬ (j ≡ k) → get j (remove k m) ≡ get j m
  unfolding get remove
  get-remove_other j k [] h = refl
  get-remove_other j k ((i, v) ∷ m) h = elim (Bool-cases (key.same k i)) [
    | inl e ↦
        rw (e, same-no j i (λ same. h (same ∙ sym (key.same→≡ k i e)))) (get-remove_other j k m h)
    | inr e ↦ rw (e, get-remove_other j k m h)
  ]

  pub get-insert_self : (k : K) (v : V) (m : Map K V) → get k (insert k v m) ≡ some v
  unfolding get insert
  get-insert_self k v m = rw (same_refl k)

  pub get-insert_other :
      (j k : K) (v : V) (m : Map K V) → ¬ (j ≡ k) → get j (insert k v m) ≡ get j m
  unfolding get insert
  get-insert_other j k v m h = rw (same-no j k h) (get-remove_other j k m h)

-- What holds of the keys other than one.
pub other_key {ℓ} :
    {K : Type ℓ} {B : Type 0} ⦃key : Key K⦄ (j k : K) → (¬ (j ≡ k) → B) → (j ≡ k) ⊎ B
other_key j k h = elim (key-cases j k) [ inl e ↦ inl e | inr other ↦ inr (h other) ]
