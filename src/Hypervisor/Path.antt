-- ===== src/Hypervisor/Path.antt =====
-- crates/vm-mock/src/lib.rs: `resolve_guest_path`, with what it uses of `std::path` on Unix. A
-- path is its bytes.
pub mod Confined
use rust_nano_vm.Prelude.{
  ℕ, Bool, true, false, not, List, [], ◌∷◌, ◌++◌, ◌==◌, ◌&&◌, Outcome, ok, err, if◌then◌else◌,
}
use rust_nano_vm.Hypervisor.Types.{Text, VmError, backend, path_not_absolute, path_escapes}

abbrev pub slash : ℕ
slash = 47

abbrev pub dot : ℕ
dot = 46

-- The prefixes of Windows do not occur.
pub data Component : Type 0 where
  root_dir cur_dir parent_dir : Component
  normal : Text → Component

abbrev pub is_empty {ℓ} : {A : Type ℓ} → List A → Bool
is_empty [] = true
is_empty (x ∷ xs) = false

abbrev pub is_dot : Text → Bool
is_dot (a ∷ []) = a == dot
is_dot _ = false

abbrev pub is_dot_dot : Text → Bool
is_dot_dot (a ∷ b ∷ []) = (a == dot) && (b == dot)
is_dot_dot _ = false

unfoldable pub is_absolute : Text → Bool
is_absolute [] = false
is_absolute (a ∷ more) = a == slash

-- The pieces between slashes, where `piece` stands before the text.
unfoldable pub split : Text → Text → List Text
split piece [] = piece ∷ []
split piece (a ∷ more) =
    let here = split [] more in
    let further = split (piece ++ (a ∷ [])) more in if a == slash then piece ∷ here else further

-- `components` skips empty pieces, and `.` where it does not lead a relative path.
unfoldable pub components_of : List Text → List Component
components_of [] = []
components_of (p ∷ ps) =
    let rest = components_of ps in
    if is_empty p
    then rest
    else if is_dot p
    then rest
    else if is_dot_dot p
    then parent_dir ∷ rest
    else normal p ∷ rest

-- Of an absolute path.
unfoldable pub components : Text → List Component
components path = root_dir ∷ components_of (split [] path)

-- `PathBuf::push` of a piece that is neither empty nor absolute, to a path with no slash at its
-- end.
abbrev pub push : Text → Text → Text
push path part = path ++ (slash ∷ part)

unfoldable pub resolve : Text → Text → List Component → Outcome VmError Text
resolve guest_path resolved [] = ok resolved
resolve guest_path resolved (root_dir ∷ cs) = resolve guest_path resolved cs
resolve guest_path resolved (normal part ∷ cs) = resolve guest_path (push resolved part) cs
resolve guest_path resolved (cur_dir ∷ cs) = err (backend (path_escapes guest_path))
resolve guest_path resolved (parent_dir ∷ cs) = err (backend (path_escapes guest_path))

unfoldable pub resolve_guest_path : Text → Text → Outcome VmError Text
resolve_guest_path root guest_path =
    if not (is_absolute guest_path)
    then err (backend (path_not_absolute guest_path))
    else resolve guest_path root (components guest_path)
