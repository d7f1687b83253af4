-- ===== src/Prelude/Lists.antt =====
-- Lists measured and indexed by native numbers, under the library's names.
use Prim.Native.Nat.{ℕ, zero, suc, ◌+◌, ◌-◌, ◌≤◌, min}
use mathlib.Core.Path.{◌≡◌, refl, ap, subst}
use mathlib.Core.Logic.{◌⊎◌, inl, inr}
use mathlib.Core.List.{List, [], ◌∷◌, ◌++◌}
use mathlib.Core.Option.{Option, none, some}
use native.Mathlib.Omega.{arith}

module _ {ℓ} {A : Type ℓ} where
  abbrev pub length : List A → ℕ
  length [] = 0
  length (x ∷ xs) = suc (length xs)

  abbrev pub get_elem? : List A → ℕ → Option A
  get_elem? [] i = none
  get_elem? (x ∷ xs) zero = some x
  get_elem? (x ∷ xs) (suc i) = get_elem? xs i

  abbrev pub take : ℕ → List A → List A
  take zero xs = []
  take (suc n) [] = []
  take (suc n) (x ∷ xs) = x ∷ take n xs

  abbrev pub drop : ℕ → List A → List A
  drop zero xs = xs
  drop (suc n) [] = []
  drop (suc n) (x ∷ xs) = drop n xs

  abbrev pub replicate : ℕ → A → List A
  replicate zero a = []
  replicate (suc n) a = a ∷ replicate n a

  -- A change of the item at an index, where there is one.
  abbrev pub modify : ℕ → (A → A) → List A → List A
  modify i f [] = []
  modify zero f (x ∷ xs) = f x ∷ xs
  modify (suc i) f (x ∷ xs) = x ∷ modify i f xs

  pub length-modify : (i : ℕ) (f : A → A) (xs : List A) → length (modify i f xs) ≡ length xs
  length-modify i f [] = refl
  length-modify zero f (x ∷ xs) = refl
  length-modify (suc i) f (x ∷ xs) = ap suc (length-modify i f xs)

  pub get_elem?-modify_self :
      (i : ℕ) (f : A → A) (xs : List A) (x : A)
      → get_elem? xs i ≡ some x
      → get_elem? (modify i f xs) i ≡ some (f x)
  get_elem?-modify_self i f [] x h = cc h
  get_elem?-modify_self zero f (y ∷ ys) x h = ap (λ (o : Option A). map_some f o) h
    where
      map_some : (A → A) → Option A → Option A
      map_some f none = none
      map_some f (some x) = some (f x)
  get_elem?-modify_self (suc i) f (y ∷ ys) x h = get_elem?-modify_self i f ys x h

  pub get_elem?-modify_other :
      (i j : ℕ) (f : A → A) (xs : List A) → (j ≡ i) ⊎ (get_elem? (modify i f xs) j ≡ get_elem? xs j)
  get_elem?-modify_other i j f [] = inr refl
  get_elem?-modify_other zero zero f (x ∷ xs) = inl refl
  get_elem?-modify_other zero (suc j) f (x ∷ xs) = inr refl
  get_elem?-modify_other (suc i) zero f (x ∷ xs) = inr refl
  get_elem?-modify_other (suc i) (suc j) f (x ∷ xs) = elim (get_elem?-modify_other i j f xs) [
    | inl e ↦ inl (ap suc e)
    | inr e ↦ inr e
  ]

  pub length-append : (xs ys : List A) → length (xs ++ ys) ≡ length xs + length ys
  length-append [] ys = omega arith
  length-append (x ∷ xs) ys = omega (arith, length-append xs ys)

  pub length-take : (n : ℕ) (xs : List A) → length (take n xs) ≡ min n (length xs)
  length-take zero xs = omega arith
  length-take (suc n) [] = omega arith
  length-take (suc n) (x ∷ xs) = omega (arith, length-take n xs)

  pub length-drop : (n : ℕ) (xs : List A) → length (drop n xs) ≡ length xs - n
  length-drop zero xs = omega arith
  length-drop (suc n) [] = omega arith
  length-drop (suc n) (x ∷ xs) = omega (arith, length-drop n xs)

  pub take-append-drop : (n : ℕ) (xs : List A) → take n xs ++ drop n xs ≡ xs
  take-append-drop zero xs = refl
  take-append-drop (suc n) [] = refl
  take-append-drop (suc n) (x ∷ xs) = rw (take-append-drop n xs)

  pub length-replicate : (n : ℕ) (a : A) → length (replicate n a) ≡ n
  length-replicate zero a = refl
  length-replicate (suc n) a = ap suc (length-replicate n a)

module _ {ℓ} {A : Type ℓ} where
  pub take-min : (k : ℕ) (xs : List A) → take (min k (length xs)) xs ≡ take k xs
  take-min zero xs = let none : min zero (length xs) ≡ 0 = omega arith in rw none refl
  take-min (suc k) [] = let none : min (suc k) 0 ≡ 0 = omega arith in rw none refl
  take-min (suc k) (x ∷ xs) =
      let one : min (suc k) (suc (length xs)) ≡ suc (min k (length xs)) = omega arith in
      rw one (ap (◌∷◌ x) (take-min k xs))

  pub drop-min : (k : ℕ) (xs : List A) → drop (min k (length xs)) xs ≡ drop k xs
  drop-min zero xs = let none : min zero (length xs) ≡ 0 = omega arith in rw none refl
  drop-min (suc k) [] = let none : min (suc k) 0 ≡ 0 = omega arith in rw none refl
  drop-min (suc k) (x ∷ xs) =
      let one : min (suc k) (suc (length xs)) ≡ suc (min k (length xs)) = omega arith in
      rw one (drop-min k xs)

  pub drop-drop : (n k : ℕ) (xs : List A) → drop (n + k) xs ≡ drop k (drop n xs)
  drop-drop zero k xs = let e : 0 + k ≡ k = omega arith in rw e refl
  drop-drop (suc n) k xs = let e : suc n + k ≡ suc (n + k) = omega arith in rw e (below n k xs)
    where
      below : (n k : ℕ) (xs : List A) → drop (suc (n + k)) xs ≡ drop k (drop (suc n) xs)
      below n zero [] = refl
      below n (suc k) [] = refl
      below zero k (x ∷ xs) = let e : 0 + k ≡ k = omega arith in rw e refl
      below (suc n) k (x ∷ xs) =
          let e : suc n + k ≡ suc (n + k) = omega arith in rw e (below n k xs)

  pub drop_all : (n : ℕ) (xs : List A) → length xs ≤ n → drop n xs ≡ []
  drop_all zero [] h = refl
  drop_all zero (x ∷ xs) h = absurd (omega arith)
  drop_all (suc n) [] h = refl
  drop_all (suc n) (x ∷ xs) h = drop_all n xs (omega arith)

  pub take-add : (n k : ℕ) (xs : List A) → take n xs ++ take k (drop n xs) ≡ take (n + k) xs
  take-add zero k xs = let e : 0 + k ≡ k = omega arith in rw e refl
  take-add (suc n) k [] = let e : suc n + k ≡ suc (n + k) = omega arith in rw e (empty k)
    where
      empty : (k : ℕ) → take {A = A} k [] ≡ []
      empty zero = refl
      empty (suc k) = refl
  take-add (suc n) k (x ∷ xs) =
      let e : suc n + k ≡ suc (n + k) = omega arith in rw e (ap (◌∷◌ x) (take-add n k xs))

-- The sum of a measure over a list.
abbrev pub tally {ℓ} : {A : Type ℓ} → (A → ℕ) → List A → ℕ
tally f [] = 0
tally f (x ∷ xs) = f x + tally f xs

pub tally-append {ℓ} :
    {A : Type ℓ} (f : A → ℕ) (xs ys : List A) → tally f (xs ++ ys) ≡ tally f xs + tally f ys
tally-append f [] ys = omega arith
tally-append f (x ∷ xs) ys = rw (tally-append f xs ys) omega arith

-- An item in the middle counts as it does in front.
pub tally_middle {ℓ} :
    {A : Type ℓ} (f : A → ℕ) (xs ys : List A) (x : A)
    → tally f (xs ++ x ∷ ys) ≡ f x + tally f (xs ++ ys)
tally_middle f xs ys x = rw (tally-append f xs (x ∷ ys), tally-append f xs ys) omega arith

-- A predicate that holds of every entry.
abbrev pub All {ℓ κ} : {A : Type ℓ} → (A → Type κ) → List A → Type κ
All P [] = Unit
All P (x ∷ xs) = P x × All P xs

-- A predicate that holds of an entry.
abbrev pub Any {ℓ} : {A : Type ℓ} → (A → Type 0) → List A → Type 0
Any P [] = ⊥
Any P (x ∷ xs) = P x ⊎ Any P xs

pub modify-All {ℓ κ} :
    {A : Type ℓ} (P : A → Type κ) (i : ℕ) (f : A → A) (xs : List A)
    → ((x : A) → P x → P (f x))
    → All P xs
    → All P (modify i f xs)
modify-All P i f [] keeps h = tt
modify-All P zero f (x ∷ xs) keeps (h, hs) = (keeps x h, hs)
modify-All P (suc i) f (x ∷ xs) keeps (h, hs) = (h, modify-All P i f xs keeps hs)

pub All-get_elem? {ℓ κ} :
    {A : Type ℓ} (P : A → Type κ) (xs : List A) (i : ℕ) (x : A)
    → All P xs
    → get_elem? xs i ≡ some x
    → P x
All-get_elem? P [] i x h e = absurd (cc e)
All-get_elem? P (y ∷ ys) zero x (h, hs) e = subst P (cc e) h
All-get_elem? P (y ∷ ys) (suc i) x (h, hs) e = All-get_elem? P ys i x hs e
