-- ===== src/Hypervisor/Tests.antt =====
-- Runs of the in-memory hypervisor, and the theorems at concrete inputs.
use rust_nano_vm.Prelude.{
  ◌≡◌, refl, arith, ◌⊎◌, some, List, [], ◌∷◌, map, All, Any, true, false, ok, err,
}
use rust_nano_vm.Maps.{nat_key, get, insert, remove}
use rust_nano_vm.Hypervisor.Types.{
  Text, default_config, running, backend, path_not_absolute, path_escapes,
}
use rust_nano_vm.Hypervisor.Mock.{
  MockVm, MockHypervisor, Manifest, Manifests, new, snapshot, restore,
}
use rust_nano_vm.Hypervisor.Mock
use rust_nano_vm.Hypervisor.Mock.Lifecycle.{
  Call, creates, starts, stops, destroys, call, run, HasIds, Moves,
}
use rust_nano_vm.Hypervisor.Mock.Fork.{
  Forked, snapshot-Forked, run-Moves, call_refused, run-IsHypervisor, new-IsHypervisor,
}
use rust_nano_vm.Hypervisor.Path
use rust_nano_vm.Hypervisor.Path.{
  is_absolute, Component, root_dir, parent_dir, normal, components, resolve_guest_path,
}
use rust_nano_vm.Hypervisor.Path.Confined.{IsName, below, resolve_guest_path-below}

-- No directory holds a manifest.
abbrev no_manifests : Manifests
no_manifests dir = err []

-- One VM, booted.
abbrev booted : MockHypervisor
booted = run no_manifests (new 1 1) (creates default_config ∷ starts 1 ∷ [])

abbrev base : MockVm
base = record { config = default_config; state = running }

booted_base : get 1 booted.vms ≡ some base
unfolding run call new get insert remove Mock.create_vm Mock.add_vm Mock.start Mock.start_vm
booted_base = refl

few : HasIds (new 1 1) 2
unfolding new
few = record { vm_room = omega arith; snapshot_room = omega arith }

booted_room : HasIds booted 3
unfolding run call new get insert remove Mock.create_vm Mock.add_vm Mock.start Mock.start_vm
booted_room = record { vm_room = omega arith; snapshot_room = omega arith }

-- The base is stopped and destroyed before the fork.
abbrev later : List Call
later = stops 1 ∷ destroys 1 ∷ []

snapshot-Forked_example :
    ((snapshot booted 1).1 ≡ ok booted.next_snapshot)
    × Forked
        (run no_manifests (snapshot booted 1).0 later)
        booted.next_snapshot
        base
        (restore (run no_manifests (snapshot booted 1).0 later) booted.next_snapshot)
snapshot-Forked_example =
    snapshot-Forked no_manifests booted 1 base later
      (run-IsHypervisor no_manifests (new 1 1) (creates default_config ∷ starts 1 ∷ [])
        (new-IsHypervisor 1 1) few)
      booted_room booted_base (tt, (tt, tt))

run-Moves_example : Moves (get 1 booted.vms) (get 1 (call no_manifests booted (stops 1)).0.vms)
run-Moves_example =
    run-Moves no_manifests 1 1 (creates default_config ∷ starts 1 ∷ []) (stops 1) 1 few

call_refused_example :
    ((call no_manifests booted (starts 1)).1 ≡ ok tt)
    ⊎ ((call no_manifests booted (starts 1)).0 ≡ booted)
call_refused_example = call_refused no_manifests booted (starts 1)

-- "/a/../b"
abbrev upwards : Text
upwards = 47 ∷ 97 ∷ 47 ∷ 46 ∷ 46 ∷ 47 ∷ 98 ∷ []

-- "//a/./b/"
abbrev untidy : Text
untidy = 47 ∷ 47 ∷ 97 ∷ 47 ∷ 46 ∷ 47 ∷ 98 ∷ 47 ∷ []

-- "/r"
abbrev root : Text
root = 47 ∷ 114 ∷ []

untidy_resolves : resolve_guest_path root untidy ≡ ok (47 ∷ 114 ∷ 47 ∷ 97 ∷ 47 ∷ 98 ∷ [])
unfolding resolve_guest_path components is_absolute Path.split Path.components_of Path.resolve
untidy_resolves = refl

resolve_guest_path-below_example :
    ((is_absolute upwards ≡ false)
      × (resolve_guest_path root upwards ≡ err (backend (path_not_absolute upwards))))
    ⊎ ((is_absolute upwards ≡ true)
        × (names : List Text) × All IsName names
        × (components upwards ≡ root_dir ∷ map normal names)
        × (resolve_guest_path root upwards ≡ ok (below root names)))
    ⊎ ((is_absolute upwards ≡ true)
        × Any (λ c. c ≡ parent_dir) (components upwards)
        × (resolve_guest_path root upwards ≡ err (backend (path_escapes upwards))))
resolve_guest_path-below_example = resolve_guest_path-below root upwards
