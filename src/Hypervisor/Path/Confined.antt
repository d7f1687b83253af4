-- ===== src/Hypervisor/Path/Confined.antt =====
-- crates/vm-mock/src/lib.rs: a resolved guest path stays below its root.
use rust_nano_vm.Prelude.{
  ℕ, map, arith, ◌≡◌, refl, ap, ◌⊎◌, inl, inr, true, false, List, [], ◌∷◌, ◌++◌, ◌==◌, All, Any, ok,
  err, Bool-cases,
}
use rust_nano_vm.Hypervisor.Types.{Text, backend, path_not_absolute, path_escapes}
use rust_nano_vm.Hypervisor.Path.{
  slash, is_empty, is_dot, is_dot_dot, is_absolute, split, Component, root_dir, cur_dir, parent_dir,
  normal, components_of, components, push, resolve, resolve_guest_path,
}

-- A name of a file or a directory: it has no slash, and is not one of the special names.
pub record IsName (p : Text) : Type 0 where
  pub no_slash : All (λ a. ¬ (a ≡ slash)) p
  pub not_empty : is_empty p ≡ false
  pub not_dot : is_dot p ≡ false
  pub not_dot_dot : is_dot_dot p ≡ false

-- The path of names below a directory.
abbrev pub below : Text → List Text → Text
below root [] = root
below root (p ∷ ps) = below (push root p) ps

All-append : (P : ℕ → Type 0) (xs ys : Text) → All P xs → All P ys → All P (xs ++ ys)
All-append P [] ys h k = k
All-append P (x ∷ xs) ys h k = (h.0, All-append P xs ys h.1 k)

NoSlash : Text → Type 0
NoSlash p = All (λ a. ¬ (a ≡ slash)) p

split-NoSlash : (piece t : Text) → NoSlash piece → All NoSlash (split piece t)
unfolding split NoSlash
split-NoSlash piece [] h = (h, tt)
split-NoSlash piece (a ∷ more) h = elim (Bool-cases (a == slash)) [
  | inl e ↦ rw e (h, split-NoSlash [] more tt)
  | inr e ↦ rw e (
      split-NoSlash (piece ++ (a ∷ [])) more
        (All-append _ piece (a ∷ []) h ((λ same. ground arith), tt)))
]

-- What the components after the root can be.
Inner : Component → Type 0
Inner (normal p) = IsName p
Inner parent_dir = Unit
Inner _ = ⊥

components_of-Inner : (ps : List Text) → All NoSlash ps → All Inner (components_of ps)
unfolding components_of Inner NoSlash
components_of-Inner [] h = tt
components_of-Inner (p ∷ ps) (plain, hs) =
    let rest = components_of-Inner ps hs in
    elim (Bool-cases (is_empty p)) [
      | inl e ↦ rw e rest
      | inr e ↦ elim (Bool-cases (is_dot p)) [
        | inl d ↦ rw (e, d) rest
        | inr d ↦ elim (Bool-cases (is_dot_dot p)) [
          | inl dd ↦ rw (e, d, dd) (tt, rest)
          | inr dd ↦
              rw (e, d, dd)
                (record { no_slash = plain; not_empty = e; not_dot = d; not_dot_dot = dd }, rest)
        ]
      ]
    ]

resolve-below :
    (g r : Text) (cs : List Component)
    → All Inner cs
    → ((names : List Text) × All IsName names
        × (cs ≡ map normal names)
        × (resolve g r cs ≡ ok (below r names)))
      ⊎ (Any (λ c. c ≡ parent_dir) cs × (resolve g r cs ≡ err (backend (path_escapes g))))
unfolding resolve Inner
resolve-below g r [] h = inl ([], tt, refl, refl)
resolve-below g r (root_dir ∷ cs) (none_such, h) = absurd none_such
resolve-below g r (cur_dir ∷ cs) (none_such, h) = absurd none_such
resolve-below g r (parent_dir ∷ cs) h = inr (inl refl, refl)
resolve-below g r (normal p ∷ cs) (name, h) = elim (resolve-below g (push r p) cs h) [
  | inl (names, all, e, found) ↦ inl (p ∷ names, (name, all), ap (◌∷◌ (normal p)) e, found)
  | inr (up, e) ↦ inr (inr up, e)
]

-- A guest path resolves to no place outside its root: a relative path is refused, an absolute path
-- with a component `..` is refused, and any other resolves to its components, which are names
-- with no slash and neither empty nor special, appended to the root one by one.
pub resolve_guest_path-below :
    (root guest_path : Text)
    → ((is_absolute guest_path ≡ false)
        × (resolve_guest_path root guest_path ≡ err (backend (path_not_absolute guest_path))))
      ⊎ ((is_absolute guest_path ≡ true)
          × (names : List Text) × All IsName names
          × (components guest_path ≡ root_dir ∷ map normal names)
          × (resolve_guest_path root guest_path ≡ ok (below root names)))
      ⊎ ((is_absolute guest_path ≡ true)
          × Any (λ c. c ≡ parent_dir) (components guest_path)
          × (resolve_guest_path root guest_path ≡ err (backend (path_escapes guest_path))))
unfolding resolve_guest_path components resolve NoSlash
resolve_guest_path-below root g = elim (Bool-cases (is_absolute g)) [
  | inr relative ↦ inl (relative, rw (resolve_guest_path, relative))
  | inl absolute ↦
      elim (resolve-below g root (components_of (split [] g))
        (components_of-Inner (split [] g) (split-NoSlash [] g tt))) [
          | inl (names, all, e, found) ↦ inr (
              inl (
                absolute,
                names,
                all,
                ap (◌∷◌ root_dir) e,
                rw (resolve_guest_path, absolute) found,
              ))
          | inr (up, found) ↦ inr (inr (absolute, inr up, rw (resolve_guest_path, absolute) found))
        ]
]
