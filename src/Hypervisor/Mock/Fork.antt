-- ===== src/Hypervisor/Mock/Fork.antt =====
-- crates/vm-mock/src/lib.rs: snapshot once, fork many, whatever is called in between.
use rust_nano_vm.Prelude.{
  ℕ, suc, ◌≡◌, refl, sym, ◌∙◌, ◌⊎◌, inl, inr, arith, none, some, ok, List, [], ◌∷◌, length, All,
}
use rust_nano_vm.Maps.{nat_key, get}
use rust_nano_vm.Maps.Laws.{
  get-insert_self, get-insert_other, other_key, get-remove_other, key-cases,
}
use rust_nano_vm.Hypervisor.Types.{VmHandle}
use rust_nano_vm.Hypervisor.Mock.{
  MockVm, MockSnapshot, MockHypervisor, Manifests, Answered, add_vm, add_snapshot, snapshot,
  restore, new,
}
use rust_nano_vm.Hypervisor.Mock.Lifecycle.{
  Call, deletes, Effect, refused, adds, records, moves, drops_vm, drops_snapshot, call, call-Effect,
  run, IsHypervisor, HasIds, Effect-IsHypervisor, Effect-Moves, Moves,
}

-- A call that does not delete the snapshot.
abbrev pub Spares : ℕ → Call → Type 0
Spares snap (deletes s) = ¬ (snap ≡ s)
Spares snap _ = Unit

module _ (h : MockHypervisor) where
  Effect-HasIds :
      {k : Call} (a : Answered (Unit {0})) (n : ℕ) → HasIds h (suc n) → Effect h k a → HasIds a.0 n
  unfolding add_vm add_snapshot
  Effect-HasIds a n room (refused r) = record {
    vm_room = omega (arith, room.vm_room);
    snapshot_room = omega (arith, room.snapshot_room);
  }
  Effect-HasIds a n room (adds c s) = record {
    vm_room = omega (arith, room.vm_room);
    snapshot_room = omega (arith, room.snapshot_room);
  }
  Effect-HasIds a n room (records c s) = record {
    vm_room = omega (arith, room.vm_room);
    snapshot_room = omega (arith, room.snapshot_room);
  }
  Effect-HasIds a n room _ = record {
    vm_room = omega (arith, room.vm_room);
    snapshot_room = omega (arith, room.snapshot_room);
  }

  Effect-kept :
      {k : Call} (a : Answered (Unit {0})) (snap : ℕ) (s : MockSnapshot)
      → IsHypervisor h
      → get snap h.snapshots ≡ some s
      → Spares snap k
      → Effect h k a
      → get snap a.0.snapshots ≡ some s
  unfolding add_vm add_snapshot
  Effect-kept a snap s ok_h found spared (records c t) = elim (key-cases snap h.next_snapshot) [
    | inl e ↦ absurd (cc (sym (ok_h.snapshot_free snap (omega (arith, e))) ∙ found))
    | inr other ↦
        get-insert_other snap h.next_snapshot (record { config = c; state = t }) h.snapshots other
        ∙ found
  ]
  Effect-kept a snap s ok_h found spared (drops_snapshot snap' t found') =
      get-remove_other snap snap' h.snapshots spared ∙ found
  Effect-kept a snap s ok_h found spared (refused r) = found
  Effect-kept a snap s ok_h found spared (adds c t) = found
  Effect-kept a snap s ok_h found spared (moves id vm t f m) = found
  Effect-kept a snap s ok_h found spared (drops_vm id vm f) = found

weaker : (h : MockHypervisor) (n : ℕ) → HasIds h (suc n) → HasIds h 1
weaker h n room = record {
  vm_room = omega (arith, room.vm_room);
  snapshot_room = omega (arith, room.snapshot_room);
}

pub run-IsHypervisor :
    (m : Manifests) (h : MockHypervisor) (cs : List Call)
    → IsHypervisor h
    → HasIds h (length cs)
    → IsHypervisor (run m h cs)
unfolding run
run-IsHypervisor m h [] ok_h room = ok_h
run-IsHypervisor m h (c ∷ cs) ok_h room =
    let e = call-Effect m h c in
    run-IsHypervisor m (call m h c).0 cs
      (Effect-IsHypervisor h ok_h (call m h c) (weaker h (length cs) room) e)
      (Effect-HasIds h (call m h c) (length cs) room e)

run_kept :
    (m : Manifests) (h : MockHypervisor) (cs : List Call) (snap : ℕ) (s : MockSnapshot)
    → IsHypervisor h
    → HasIds h (length cs)
    → get snap h.snapshots ≡ some s
    → All (Spares snap) cs
    → get snap (run m h cs).snapshots ≡ some s
unfolding run
run_kept m h [] snap s ok_h room found spared = found
run_kept m h (c ∷ cs) snap s ok_h room found (spared, rest) =
    let e = call-Effect m h c in
    run_kept m (call m h c).0 cs snap s
      (Effect-IsHypervisor h ok_h (call m h c) (weaker h (length cs) room) e)
      (Effect-HasIds h (call m h c) (length cs) room e)
      (Effect-kept h (call m h c) snap s ok_h found spared e) rest

snapshot_taken :
    (h : MockHypervisor) (id : ℕ) (vm : MockVm)
    → get id h.vms ≡ some vm
    → snapshot h id ≡ add_snapshot h vm.config vm.state
unfolding snapshot
snapshot_taken h id vm found = rw (snapshot, found)

add_snapshot_id :
    (h : MockHypervisor) (vm : MockVm) → (add_snapshot h vm.config vm.state).1 ≡ ok h.next_snapshot
unfolding add_snapshot
add_snapshot_id h vm = refl

add_snapshot_found :
    (h : MockHypervisor) (vm : MockVm)
    → get h.next_snapshot (add_snapshot h vm.config vm.state).0.snapshots
      ≡ some (record { config = vm.config; state = vm.state })
unfolding add_snapshot
add_snapshot_found h vm =
    get-insert_self h.next_snapshot (record { config = vm.config; state = vm.state }) h.snapshots

restored :
    (h : MockHypervisor) (snap : ℕ) (s : MockSnapshot)
    → get snap h.snapshots ≡ some s
    → restore h snap ≡ add_vm h s.config s.state
unfolding restore
restored h snap s found = rw (restore, found)

-- A hypervisor with a snapshot of `vm`, once `fork` has been made of it.
pub record Forked (h : MockHypervisor) (snap : ℕ) (vm : MockVm) (fork : Answered VmHandle)
    : Type 0 where
  pub answered : fork.1 ≡ ok (record { id = h.next_vm; state = vm.state })
  pub fresh : get h.next_vm h.vms ≡ none
  pub same_vm : get h.next_vm fork.0.vms ≡ some vm
  pub others : (j : ℕ) → (j ≡ h.next_vm) ⊎ (get j fork.0.vms ≡ get j h.vms)
  pub again : fork.0.snapshots ≡ h.snapshots

restore-Forked :
    (h : MockHypervisor) (snap : ℕ) (vm : MockVm)
    → IsHypervisor h
    → get snap h.snapshots ≡ some (record { config = vm.config; state = vm.state })
    → Forked h snap vm (restore h snap)
unfolding add_vm
restore-Forked h snap vm ok_h found = rw (restored h snap _ found) (record {
  answered = refl;
  fresh = ok_h.vm_free h.next_vm (omega arith);
  same_vm = get-insert_self h.next_vm vm h.vms;
  others = λ j. other_key j h.next_vm (get-insert_other j h.next_vm vm h.vms);
  again = refl;
})

-- The snapshot of a VM succeeds with the next snapshot id. Whatever is called afterwards, other
-- than to delete this snapshot, and while no counter wraps, restoring it then succeeds: under an
-- id that no VM had there is a VM with the config and the state of the first one at the time of
-- its snapshot, no other VM is changed, and the snapshots stay as they are.
pub snapshot-Forked :
    (m : Manifests) (h : MockHypervisor) (id : ℕ) (vm : MockVm) (cs : List Call)
    → IsHypervisor h
    → HasIds h (suc (length cs))
    → get id h.vms ≡ some vm
    → All (Spares h.next_snapshot) cs
    → ((snapshot h id).1 ≡ ok h.next_snapshot)
      × Forked
          (run m (snapshot h id).0 cs)
          h.next_snapshot
          vm
          (restore (run m (snapshot h id).0 cs) h.next_snapshot)
snapshot-Forked m h id vm cs ok_h room found spared =
    let taken = snapshot_taken h id vm found in
    let h' : MockHypervisor = (add_snapshot h vm.config vm.state).0 in
    let e : Effect h (Call.snapshots id) (h', ok tt) = records vm.config vm.state in
    let ok_h' = Effect-IsHypervisor h ok_h (h', ok tt) (weaker h (length cs) room) e in
    let room' = Effect-HasIds h (h', ok tt) (length cs) room e in
    rw taken (
      add_snapshot_id h vm,
      restore-Forked (run m h' cs) h.next_snapshot vm (run-IsHypervisor m h' cs ok_h' room')
          (run_kept m h' cs h.next_snapshot _ ok_h' room' (add_snapshot_found h vm) spared),
    )

pub new-IsHypervisor : (vm snap : ℕ) → IsHypervisor (new vm snap)
unfolding new get
new-IsHypervisor vm snap = record { vm_free = λ id le. refl; snapshot_free = λ id le. refl }

-- After any calls of a new hypervisor, while no counter wraps, the next call leaves every VM as it
-- is or moves it along the diagram: from nothing to a VM, from Created to Running, from Running to
-- Stopped, from Stopped to Running, with the same config, or from a VM to nothing.
pub run-Moves :
    (m : Manifests) (vm snap : ℕ) (cs : List Call) (c : Call) (id : ℕ)
    → HasIds (new vm snap) (length cs)
    → Moves (get id (run m (new vm snap) cs).vms) (get id (call m (run m (new vm snap) cs) c).0.vms)
run-Moves m vm snap cs c id room =
    let h = run m (new vm snap) cs in
    Effect-Moves h (run-IsHypervisor m (new vm snap) cs (new-IsHypervisor vm snap) room)
      (call m h c) id (call-Effect m h c)

Effect-refused :
    (h : MockHypervisor) {k : Call} (a : Answered (Unit {0}))
    → Effect h k a
    → (a.1 ≡ ok tt) ⊎ (a.0 ≡ h)
Effect-refused h a (refused r) = inr refl
Effect-refused h a _ = inl refl

-- A call that is refused changes nothing: no VM, no snapshot, and no counter.
pub call_refused :
    (m : Manifests) (h : MockHypervisor) (c : Call)
    → ((call m h c).1 ≡ ok tt) ⊎ ((call m h c).0 ≡ h)
call_refused m h c = Effect-refused h (call m h c) (call-Effect m h c)
