-- ===== src/VirtQueue/Chain/Walk.antt =====
-- The iterator against the links: it yields the chain, and it ends on every table.
use rust_nano_vm.Prelude.{
  ℕ, zero, suc, ◌+◌, ◌≤◌, ◌<◌, ◌≡◌, refl, ap, arith, Bool, true, false, Option, none, some,
  Option-cases, inl, inr, List, [], ◌∷◌, ◌++◌, map, length, get_elem?, le→not-ltb, ok, err,
}
use rust_nano_vm.VirtQueue.Error.{bad_index, chain_too_long}
use rust_nano_vm.VirtQueue.Desc.{Descriptor}
use rust_nano_vm.VirtQueue.Chain.{
  DescriptorChain, Item, new, follow, visit, look, from_index, next_item, collect,
}
use rust_nano_vm.VirtQueue.Chain.Links.{Links, here, link}

module _ (table : List Descriptor) where
  abbrev at : Option ℕ → ℕ → DescriptorChain
  at o v = record { table = table; next = o; visited = v; failed = false }

  -- How a walk that may visit `room` more descriptors goes on from `start`.
  pub data Walked (room : ℕ) (start : Option ℕ) (items : List Item) : Type 0 where
    complete :
        (ds : List Descriptor)
        → Links table start ds none
        → length ds ≤ room
        → items ≡ map ok ds
        → Walked room start items
    out_of_table :
        (ds : List Descriptor) (i : ℕ)
        → Links table start ds (some i)
        → get_elem? table i ≡ none
        → length ds ≤ room
        → items ≡ map ok ds ++ err (bad_index i (length table)) ∷ []
        → Walked room start items
    too_long :
        (ds : List Descriptor) (i : ℕ) (d : Descriptor)
        → Links table start ds (some i)
        → get_elem? table i ≡ some d
        → length ds ≡ room
        → items ≡ map ok ds ++ err (chain_too_long (length table)) ∷ []
        → Walked room start items

  Walked-cons :
      {room i : ℕ} {d : Descriptor} {items : List Item}
      → get_elem? table i ≡ some d
      → Walked room (follow d) items
      → Walked (suc room) (some i) (ok d ∷ items)
  Walked-cons {d} e (complete ds l h p) =
      complete (d ∷ ds) (link e l) (omega arith) (ap (◌∷◌ (ok d)) p)
  Walked-cons {d} e (out_of_table ds i l n h p) =
      out_of_table (d ∷ ds) i (link e l) n (omega arith) (ap (◌∷◌ (ok d)) p)
  Walked-cons {d} e (too_long ds i x l g h p) =
      too_long (d ∷ ds) i x (link e l) g (omega arith) (ap (◌∷◌ (ok d)) p)

  collect_out_of_table :
      (fuel v i : ℕ)
      → get_elem? table i ≡ none
      → collect (suc (suc fuel)) (at (some i) v) ≡ (err (bad_index i (length table)) ∷ [], true)
  unfolding collect next_item from_index look
  collect_out_of_table fuel v i gone = ground arith

  collect_too_long :
      (fuel v i : ℕ) (d : Descriptor)
      → get_elem? table i ≡ some d
      → length table ≤ v
      → collect (suc (suc fuel)) (at (some i) v) ≡ (err (chain_too_long (length table)) ∷ [], true)
  unfolding collect next_item from_index look visit
  collect_too_long fuel v i d found full = ground arith

  next_item_found :
      (v i : ℕ) (d : Descriptor)
      → get_elem? table i ≡ some d
      → v < length table
      → next_item (at (some i) v) ≡ (some (ok d), at (follow d) (v + 1))
  unfolding next_item from_index look visit
  next_item_found v i d found room =
      rw (found, look, visit, le→not-ltb (length table) (v + 1) (omega arith))

  collect_found :
      (fuel v i : ℕ) (d : Descriptor)
      → get_elem? table i ≡ some d
      → v < length table
      → let rest = collect fuel (at (follow d) (v + 1)) in
        collect (suc fuel) (at (some i) v) ≡ (ok d ∷ rest.0, rest.1)
  unfolding collect
  collect_found fuel v i d found room = ground (arith, next_item_found v i d found room)

  abbrev Ended : ℕ → Option ℕ → List Item × Bool → Type 0
  Ended room start r = Walked room start r.0 × (r.1 ≡ true)

  collect-Ended :
      (fuel room v : ℕ) (start : Option ℕ)
      → v + room ≡ length table
      → room + 1 < fuel
      → Ended room start (collect fuel (at start v))
  collect-Ended zero room v start e h = absurd (omega arith)
  collect-Ended (suc zero) room v start e h = absurd (omega arith)
  collect-Ended (suc (suc fuel)) room v none e h =
      unfold collect next_item from_index in (complete [] here (omega arith) refl, refl)
  collect-Ended (suc (suc fuel)) zero v (some i) e h = elim (Option-cases (get_elem? table i)) [
    | inl gone ↦
        rw (collect_out_of_table fuel v i gone)
          (out_of_table [] i here gone (omega arith) refl, refl)
    | inr (d, found) ↦
        rw (collect_too_long fuel v i d found (omega arith))
          (too_long [] i d here found refl refl, refl)
  ]
  collect-Ended (suc (suc fuel)) (suc room) v (some i) e h =
      let rest =
        λ (o : Option ℕ). collect-Ended (suc fuel) room (v + 1) o (omega arith) (omega arith) in
      elim (Option-cases (get_elem? table i)) [
        | inl gone ↦
            rw (collect_out_of_table fuel v i gone)
              (out_of_table [] i here gone (omega arith) refl, refl)
        | inr (d, found) ↦
            rw (collect_found (suc fuel) v i d found (omega arith))
              (Walked-cons found (rest (follow d)).0, (rest (follow d)).1)
      ]

collect_along :
    (table : List Descriptor) (fuel v : ℕ) {o : Option ℕ} {ds : List Descriptor}
    → Links table o ds none
    → v + length ds ≤ length table
    → length ds < fuel
    → collect fuel (at table o v) ≡ (map ok ds, true)
collect_along table zero v l h g = elim g [ ]
collect_along table (suc fuel) v here h g = unfold collect next_item from_index in refl
collect_along table (suc fuel) v (link {i = i} {d = d} {ds = ds} found l) h g =
    let rest = collect_along table fuel (v + 1) l (omega arith) (omega arith) in
    rw (collect_found table fuel v i d found (omega arith), rest)

-- The iterator over a descriptor table ends, after at most one item more than the table has
-- entries. What it yields is the whole chain from the head, or the descriptors up to a link that
-- leaves the table and BadIndex, or as many descriptors as the table has and ChainTooLong.
pub collect-Walked :
    (table : List Descriptor) (head : ℕ)
    → let (items, end) = collect (length table + 2) (new table head) in
      Walked table (length table) (some head) items × (end ≡ true)
unfolding new
collect-Walked table head =
    collect-Ended table (length table + 2) (length table) 0 (some head) (omega arith) (omega arith)

-- A chain that the driver built, of at most as many descriptors as the table has, is yielded
-- descriptor by descriptor, with no error.
pub collect-Links :
    (table : List Descriptor) (head : ℕ) (ds : List Descriptor)
    → Links table (some head) ds none
    → length ds ≤ length table
    → collect (length table + 2) (new table head) ≡ (map ok ds, true)
unfolding new
collect-Links table head ds l h =
    collect_along table (length table + 2) 0 l (omega arith) (omega arith)
