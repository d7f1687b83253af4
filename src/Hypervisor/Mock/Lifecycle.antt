-- ===== src/Hypervisor/Mock/Lifecycle.antt =====
-- crates/vm-mock/src/lib.rs: what any call of the hypervisor does to any VM.
use rust_nano_vm.Prelude.{
  ℕ, ◌+◌, ◌^◌, ◌≤◌, ◌<◌, ◌≡◌, ap, sym, ◌∙◌, inl, inr, arith, Option, none, some, Option-cases,
  Outcome, ok, err, List, [], ◌∷◌,
}
use rust_nano_vm.Maps.{nat_key, get, remove}
use rust_nano_vm.Maps.Laws.{
  get-insert_self, get-insert_other, get-remove_self, get-remove_other, key-cases,
}
use rust_nano_vm.Hypervisor.Types.{Text, VmConfig, VmState, created, running, stopped, VmError}
use rust_nano_vm.Hypervisor.Mock.{
  MockVm, MockSnapshot, MockHypervisor, Manifest, Manifests, Answered, add_vm, add_snapshot,
  create_vm_from, create_vm, set_state, start_vm, start, stop_vm, stop, snapshot, restore, destroy,
  delete_snapshot, adopt_manifest, snapshot_adopt,
}

-- A call that changes the state.
pub data Call : Type 0 where
  creates : VmConfig → Call
  starts stops snapshots restores destroys deletes : ℕ → Call
  adopts : Text → Call

abbrev pub done {ℓ} : {A : Type ℓ} → MockHypervisor × Outcome VmError A → Answered (Unit {0})
done (h, ok a) = (h, ok tt)
done (h, err e) = (h, err e)
done (h, Outcome.panic) = (h, Outcome.panic)

unfoldable pub call : Manifests → MockHypervisor → Call → Answered (Unit {0})
call m h (creates cfg) = done (create_vm m h cfg)
call m h (starts id) = start h id
call m h (stops id) = stop h id
call m h (snapshots id) = done (snapshot h id)
call m h (restores snap) = done (restore h snap)
call m h (destroys id) = destroy h id
call m h (deletes snap) = delete_snapshot h snap
call m h (adopts dir) = done (snapshot_adopt m h dir)

unfoldable pub run : Manifests → MockHypervisor → List Call → MockHypervisor
run m h [] = h
run m h (c ∷ cs) = run m (call m h c).0 cs

-- The ids from the counters on are free.
pub record IsHypervisor (h : MockHypervisor) : Type 0 where
  pub vm_free : (id : ℕ) → h.next_vm ≤ id → get id h.vms ≡ none
  pub snapshot_free : (id : ℕ) → h.next_snapshot ≤ id → get id h.snapshots ≡ none

-- What may happen to a VM in one call: its config stays for its life.
pub data Moves : Option MockVm → Option MockVm → Type 0 where
  stays : (o : Option MockVm) → Moves o o
  begins : (vm : MockVm) → Moves none (some vm)
  boots :
      (c : VmConfig)
      → Moves
          (some (record { config = c; state = created }))
          (some (record { config = c; state = running }))
  halts :
      (c : VmConfig)
      → Moves
          (some (record { config = c; state = running }))
          (some (record { config = c; state = stopped }))
  resumes :
      (c : VmConfig)
      → Moves
          (some (record { config = c; state = stopped }))
          (some (record { config = c; state = running }))
  ends : (vm : MockVm) → Moves (some vm) none

-- A call either is refused and changes nothing, or takes one of three shapes.
pub data Effect (h : MockHypervisor) : Call → Answered (Unit {0}) → Type 0 where
  refused : {k : Call} (r : Outcome VmError (Unit {0})) → Effect h k (h, r)
  adds : {k : Call} (c : VmConfig) (s : VmState) → Effect h k ((add_vm h c s).0, ok tt)
  records : {k : Call} (c : VmConfig) (s : VmState) → Effect h k ((add_snapshot h c s).0, ok tt)
  moves :
      {k : Call} (id : ℕ) (vm : MockVm) (s : VmState)
      → get id h.vms ≡ some vm
      → Moves (some vm) (some (record vm { state = s }))
      → Effect h k (set_state h id vm s, ok tt)
  drops_vm :
      {k : Call} (id : ℕ) (vm : MockVm)
      → get id h.vms ≡ some vm
      → Effect h k (record h { vms = remove id h.vms }, ok tt)
  drops_snapshot :
      (snap : ℕ) (s : MockSnapshot)
      → get snap h.snapshots ≡ some s
      → Effect h (deletes snap) (record h { snapshots = remove snap h.snapshots }, ok tt)

start_vm-Effect :
    {k : Call} (h : MockHypervisor) (id : ℕ) (c : VmConfig) (s : VmState)
    → get id h.vms ≡ some (record { config = c; state = s })
    → Effect h k (start_vm h id (record { config = c; state = s }) s)
unfolding start_vm
start_vm-Effect h id c running found = refused _
start_vm-Effect h id c created found = moves id _ running found (boots c)
start_vm-Effect h id c stopped found = moves id _ running found (resumes c)

stop_vm-Effect :
    {k : Call} (h : MockHypervisor) (id : ℕ) (c : VmConfig) (s : VmState)
    → get id h.vms ≡ some (record { config = c; state = s })
    → Effect h k (stop_vm h id (record { config = c; state = s }) s)
unfolding stop_vm
stop_vm-Effect h id c running found = moves id _ stopped found (halts c)
stop_vm-Effect h id c created found = refused _
stop_vm-Effect h id c stopped found = refused _

create_vm_from-Effect :
    {k : Call} (h : MockHypervisor) (cfg : VmConfig) (read : Outcome Text Manifest)
    → Effect h k (done (create_vm_from h cfg read))
unfolding create_vm_from add_vm
create_vm_from-Effect h cfg (ok manifest) = adds _ _
create_vm_from-Effect h cfg (err cause) = refused _
create_vm_from-Effect h cfg Outcome.panic = refused _

adopt_manifest-Effect :
    {k : Call} (h : MockHypervisor) (dir : Text) (read : Outcome Text Manifest)
    → Effect h k (done (adopt_manifest h dir read))
unfolding adopt_manifest add_snapshot
adopt_manifest-Effect h dir (ok manifest) = records _ _
adopt_manifest-Effect h dir (err cause) = refused _
adopt_manifest-Effect h dir Outcome.panic = refused _

pub call-Effect : (m : Manifests) (h : MockHypervisor) (c : Call) → Effect h c (call m h c)
unfolding call start stop create_vm snapshot restore destroy delete_snapshot snapshot_adopt add_vm
    add_snapshot
call-Effect m h (creates cfg) = elim (Option-cases cfg.snapshot_dir) [
  | inl e ↦ rw (create_vm, e) (adds cfg created)
  | inr (dir, e) ↦ rw (create_vm, e) (create_vm_from-Effect h cfg (m dir))
]
call-Effect m h (starts id) = elim (Option-cases (get id h.vms)) [
  | inl free ↦ rw (start, free) (refused _)
  | inr (vm, found) ↦ rw (start, found) (start_vm-Effect h id vm.config vm.state found)
]
call-Effect m h (stops id) = elim (Option-cases (get id h.vms)) [
  | inl free ↦ rw (stop, free) (refused _)
  | inr (vm, found) ↦ rw (stop, found) (stop_vm-Effect h id vm.config vm.state found)
]
call-Effect m h (snapshots id) = elim (Option-cases (get id h.vms)) [
  | inl free ↦ rw (snapshot, free) (refused _)
  | inr (vm, found) ↦ rw (snapshot, found) (records vm.config vm.state)
]
call-Effect m h (restores snap) = elim (Option-cases (get snap h.snapshots)) [
  | inl free ↦ rw (restore, free) (refused _)
  | inr (s, found) ↦ rw (restore, found) (adds s.config s.state)
]
call-Effect m h (destroys id) = elim (Option-cases (get id h.vms)) [
  | inl free ↦ rw (destroy, free) (refused _)
  | inr (vm, found) ↦ rw (destroy, found) (drops_vm id vm found)
]
call-Effect m h (deletes snap) = elim (Option-cases (get snap h.snapshots)) [
  | inl free ↦ rw (delete_snapshot, free) (refused _)
  | inr (s, found) ↦ rw (delete_snapshot, found) (drops_snapshot snap s found)
]
call-Effect m h (adopts dir) = adopt_manifest-Effect h dir (m dir)

-- The counters do not wrap in the next call.
pub record HasIds (h : MockHypervisor) (calls : ℕ) : Type 0 where
  pub vm_room : h.next_vm + calls < 2 ^ 64
  pub snapshot_room : h.next_snapshot + calls < 2 ^ 64

module _ (h : MockHypervisor) (ok_h : IsHypervisor h) where
  pub Effect-Moves :
      {k : Call} (a : Answered (Unit {0})) (id : ℕ)
      → Effect h k a
      → Moves (get id h.vms) (get id a.0.vms)
  unfolding add_vm add_snapshot
  Effect-Moves a id (refused r) = stays _
  Effect-Moves a id (adds c s) = elim (key-cases id h.next_vm) [
    | inl e ↦
        rw
          (
            e,
            get-insert_self h.next_vm (record { config = c; state = s }) h.vms,
            ok_h.vm_free h.next_vm (omega arith),
          )
          (begins _)
    | inr other ↦
        rw (get-insert_other id h.next_vm (record { config = c; state = s }) h.vms other) (stays _)
  ]
  Effect-Moves a id (records c s) = stays _
  Effect-Moves a id (moves id' vm s found m) = elim (key-cases id id') [
    | inl e ↦ rw (e, found, get-insert_self id' (record vm { state = s }) h.vms) m
    | inr other ↦ rw (get-insert_other id id' (record vm { state = s }) h.vms other) (stays _)
  ]
  Effect-Moves a id (drops_vm id' vm found) = elim (key-cases id id') [
    | inl e ↦ rw (e, found, get-remove_self id' h.vms) (ends vm)
    | inr other ↦ rw (get-remove_other id id' h.vms other) (stays _)
  ]
  Effect-Moves a id (drops_snapshot snap s found) = stays _

  pub Effect-IsHypervisor :
      {k : Call} (a : Answered (Unit {0})) → HasIds h 1 → Effect h k a → IsHypervisor a.0
  unfolding add_vm add_snapshot
  Effect-IsHypervisor a room (refused r) = ok_h
  Effect-IsHypervisor a room (adds c s) = record {
    vm_free = λ id le.
        get-insert_other id h.next_vm (record { config = c; state = s }) h.vms
          (omega (arith, room.vm_room))
        ∙ ok_h.vm_free id (omega (arith, room.vm_room));
    snapshot_free = ok_h.snapshot_free;
  }
  Effect-IsHypervisor a room (records c s) = record {
    vm_free = ok_h.vm_free;
    snapshot_free = λ id le.
        get-insert_other id h.next_snapshot (record { config = c; state = s }) h.snapshots
          (omega (arith, room.snapshot_room))
        ∙ ok_h.snapshot_free id (omega (arith, room.snapshot_room));
  }
  Effect-IsHypervisor a room (moves id' vm s found m) = record {
    vm_free = λ id le. elim (key-cases id id') [
      | inl e ↦ absurd (cc (sym (ok_h.vm_free id le) ∙ ap (λ i. get i h.vms) e ∙ found))
      | inr other ↦
          get-insert_other id id' (record vm { state = s }) h.vms other ∙ ok_h.vm_free id le
    ];
    snapshot_free = ok_h.snapshot_free;
  }
  Effect-IsHypervisor a room (drops_vm id' vm found) = record {
    vm_free = λ id le. elim (key-cases id id') [
      | inl e ↦ rw e (get-remove_self id' h.vms)
      | inr other ↦ get-remove_other id id' h.vms other ∙ ok_h.vm_free id le
    ];
    snapshot_free = ok_h.snapshot_free;
  }
  Effect-IsHypervisor a room (drops_snapshot snap s found) = record {
    vm_free = ok_h.vm_free;
    snapshot_free = λ id le. elim (key-cases id snap) [
      | inl e ↦ rw e (get-remove_self snap h.snapshots)
      | inr other ↦ get-remove_other id snap h.snapshots other ∙ ok_h.snapshot_free id le
    ];
  }
