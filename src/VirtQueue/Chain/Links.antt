-- ===== src/VirtQueue/Chain/Links.antt =====
-- What a descriptor chain is, with no iterator: the `next` links of a table.
use rust_nano_vm.Prelude.{ℕ, ◌≡◌, refl, sym, Option, none, some, List, [], ◌∷◌, get_elem?}
use mathlib.Core.Path.{ap₂, subst}
use rust_nano_vm.VirtQueue.Desc.{Descriptor}
use rust_nano_vm.VirtQueue.Chain.{follow}

-- From the index `start` the links lead through the descriptors `ds` to `end`.
pub data Links (table : List Descriptor) : Option ℕ → List Descriptor → Option ℕ → Type 0 where
  here : {o : Option ℕ} → Links table o [] o
  link :
      {i : ℕ} {d : Descriptor} {ds : List Descriptor} {o : Option ℕ}
      → get_elem? table i ≡ some d
      → Links table (follow d) ds o
      → Links table (some i) (d ∷ ds) o

-- A chain that ends is the only one from its head that ends.
pub Links-unique :
    {table : List Descriptor} {o : Option ℕ} {xs ys : List Descriptor}
    → Links table o xs none
    → Links table o ys none
    → xs ≡ ys
Links-unique here here = refl
Links-unique {table} (link {d = d} {ds = xs} e l) (link {d = d'} {ds = ys} f m) =
    let same : d ≡ d' = cc in
    ap₂ ◌∷◌ same (Links-unique l (subst (λ x. Links table (follow x) ys none) (sym same) m))
