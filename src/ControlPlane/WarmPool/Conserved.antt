-- ===== src/ControlPlane/WarmPool/Conserved.antt =====
-- crates/control-plane/src/warm_pool.rs: where the VMs are that the hypervisor restored.
use rust_nano_vm.Prelude.{
  ℕ, zero, suc, ◌+◌, ◌≡◌, refl, ap, ◌∙◌, Bool, Bool-cases, inl, inr, Option, none, some, List, [],
  ◌∷◌, ◌++◌, map, replicate, ◌==◌, if◌then◌else◌, eq→==, ne→not-==, Outcome, ok, err, tally,
  tally-append, tally_middle, arith,
}
use rust_nano_vm.Maps.{Map, nat_key, get, insert}
use rust_nano_vm.Maps.Laws.{
  key-cases, get-insert_self, get-insert_other, get-remove_self, get-remove_other,
}
use rust_nano_vm.Hypervisor.Types.{VmHandle, VmError}
use rust_nano_vm.ControlPlane.WarmPool.{
  Inner, Refill, restoring, returned, released, ready, pop_front, needed, reserve, release,
  push_back, forget,
}
use rust_nano_vm.ControlPlane.WarmPool.Steps.{
  Child, World, start, hand, take, kick_refill, arrived, settle, Step, takes, kicks, restores,
  gives_up, settles, drains, destroys, Reach, here, next,
}

-- How many of some VMs pass a test: those of a queue, and those of a list that come from a snapshot.
abbrev pub passing : (VmHandle → Bool) → VmHandle → ℕ
passing p h = if p h then 1 else 0

abbrev pub coming : ℕ → (VmHandle → Bool) → Child → ℕ
coming s p (snap, h) = if s == snap then passing p h else 0

-- The VM that a refill task has got from the hypervisor and not yet put into the queue.
abbrev pub holding : ℕ → (VmHandle → Bool) → Refill → ℕ
holding s p r = elim r.phase [
  | restoring ↦ 0
  | returned o ↦ tally (coming s p) (arrived r.snap o)
  | released o ↦ tally (coming s p) (arrived r.snap o)
]

abbrev pub IsConserved : ℕ → (VmHandle → Bool) → World → Type 0
IsConserved s p w =
    tally (coming s p) w.restored
    ≡ tally (passing p) (ready s w.pool.inner)
      + tally (holding s p) w.refills
      + tally (coming s p) w.handed
      + tally (coming s p) w.draining
      + tally (coming s p) w.destroyed

module _ (s : ℕ) (p : VmHandle → Bool) where
  abbrev kept : Inner → ℕ
  kept i = tally (passing p) (ready s i)

  stored :
      (snap : ℕ) (q : List VmHandle) (m : Map ℕ (List VmHandle))
      → s ≡ snap
      → get s (insert snap q m) ≡ some q
  stored snap q m same = rw same (get-insert_self snap q m)

  pop_front-kept :
      (snap : ℕ) (i : Inner) (o : Option (List VmHandle)) (hs : List Child)
      → get snap i.queues ≡ o
      → kept (pop_front snap i o).0 + tally (coming s p) (hand snap (pop_front snap i o).1 hs)
        ≡ kept i + tally (coming s p) hs
  unfolding pop_front
  pop_front-kept snap i none hs e = refl
  pop_front-kept snap i (some []) hs e = refl
  pop_front-kept snap i (some (h ∷ q)) hs e = elim (key-cases s snap) [
    | inl same ↦
        rw (stored snap q i.queues same, ap (λ k. get k i.queues) same ∙ e, eq→== s snap same) omega
          arith
    | inr other ↦ rw (get-insert_other s snap q i.queues other, ne→not-== s snap other) omega arith
  ]

  push_back-kept :
      (snap : ℕ) (h : VmHandle) (i : Inner)
      → kept (push_back snap h i) ≡ kept i + coming s p (snap, h)
  unfolding push_back
  push_back-kept snap h i = elim (key-cases s snap) [
    | inl same ↦
        rw
          (
            same,
            get-insert_self snap (ready snap i ++ h ∷ []) i.queues,
            eq→== snap snap refl,
            tally-append (passing p) (ready snap i) (h ∷ []),
          )
          omega arith
    | inr other ↦
        rw (get-insert_other s snap (ready snap i ++ h ∷ []) i.queues other, ne→not-== s snap other)
          omega arith
  ]

  tagged :
      (snap : ℕ) (q : List VmHandle)
      → tally (coming s p) (map (λ h. (snap, h)) q) ≡ (if s == snap then tally (passing p) q else 0)
  tagged snap [] = elim (key-cases s snap) [
    | inl same ↦ rw (eq→== s snap same) refl
    | inr other ↦ rw (ne→not-== s snap other) refl
  ]
  tagged snap (h ∷ q) = elim (key-cases s snap) [
    | inl same ↦ rw (tagged snap q, eq→== s snap same) refl
    | inr other ↦ rw (tagged snap q, ne→not-== s snap other) refl
  ]

  forget-kept :
      (snap : ℕ) (i : Inner)
      → kept (forget snap i) + tally (coming s p) (map (λ h. (snap, h)) (ready snap i)) ≡ kept i
  unfolding forget
  forget-kept snap i = elim (key-cases s snap) [
    | inl same ↦
        rw (tagged snap (ready snap i), same, get-remove_self snap i.queues, eq→== snap snap refl)
          omega arith
    | inr other ↦
        rw
          (
            tagged snap (ready snap i),
            get-remove_other s snap i.queues other,
            ne→not-== s snap other,
          )
          omega arith
  ]

  reserve-kept : (target snap : ℕ) (i : Inner) → kept (reserve target snap i) ≡ kept i
  unfolding reserve
  reserve-kept target snap i = elim (Bool-cases (needed target snap i == 0)) [
    | inl e ↦ rw e refl
    | inr e ↦ rw e refl
  ]

  release-kept : (snap : ℕ) (i : Inner) → kept (release snap i) ≡ kept i
  unfolding release
  release-kept snap i = refl

  spawned :
      (n snap : ℕ)
      → tally (holding s p) (replicate n (record { snap = snap; phase = restoring })) ≡ 0
  spawned zero snap = refl
  spawned (suc n) snap = omega (arith, spawned n snap)

  take-IsConserved : (w : World) (snap : ℕ) → IsConserved s p w → IsConserved s p (take snap w)
  take-IsConserved w snap h =
      let i = w.pool.inner in
      let moved = pop_front-kept snap i (get snap i.queues) w.handed refl in omega arith

  kick_refill-IsConserved :
      (w : World) (snap : ℕ) (others : List ℕ)
      → IsConserved s p w
      → IsConserved s p (kick_refill snap others w)
  kick_refill-IsConserved w snap others h =
      let i = w.pool.inner in
      let n = needed w.pool.per_snapshot snap i in
      let same = reserve-kept w.pool.per_snapshot snap i in
      let spawns =
        tally-append (holding s p) (replicate n (record { snap = snap; phase = restoring }))
          w.refills in
      let idle = spawned n snap in omega arith

  -- A task in the middle of the others is replaced.
  replaced :
      (before after : List Refill) (r r' : Refill) (refills : List Refill)
      → refills ≡ before ++ r ∷ after
      → tally (holding s p) (before ++ r' ∷ after) + holding s p r
        ≡ tally (holding s p) refills + holding s p r'
  replaced before after r r' refills e =
      rw (e, tally_middle (holding s p) before after r, tally_middle (holding s p) before after r')
        omega arith

  settle-IsConserved :
      (w : World) (snap : ℕ) (r : Outcome VmError VmHandle) (before after : List Refill)
      → w.refills ≡ before ++ record { snap = snap; phase = released r } ∷ after
      → IsConserved s p w
      → IsConserved s p (settle snap r (before ++ after) w)
  settle-IsConserved w snap (ok v) before after e h =
      let put = push_back-kept snap v w.pool.inner in
      let gone =
        tally_middle (holding s p) before after (record { snap = snap; phase = released (ok v) }) in
      let all = ap (tally (holding s p)) e in omega arith
  settle-IsConserved w snap (err x) before after e h =
      let gone =
        tally_middle (holding s p) before after
          (record { snap = snap; phase = released (err x) }) in
      let all = ap (tally (holding s p)) e in omega arith
  settle-IsConserved w snap Outcome.panic before after e h =
      let gone =
        tally_middle (holding s p) before after
          (record { snap = snap; phase = released Outcome.panic }) in
      let all = ap (tally (holding s p)) e in omega arith

  Step-IsConserved : {w v : World} → Step w v → IsConserved s p w → IsConserved s p v
  Step-IsConserved (takes w snap on) h = take-IsConserved w snap h
  Step-IsConserved (kicks w snap before after e) h =
      kick_refill-IsConserved w snap (before ++ after) h
  Step-IsConserved (restores w snap r before after e) h =
      let more = tally-append (coming s p) (arrived snap r) w.restored in
      let changed =
        replaced before after (record { snap = snap; phase = restoring })
          (record { snap = snap; phase = returned r }) w.refills e in
      omega arith
  Step-IsConserved (gives_up w snap r before after e) h =
      let same = release-kept snap w.pool.inner in
      let changed =
        replaced before after (record { snap = snap; phase = returned r })
          (record { snap = snap; phase = released r }) w.refills e in
      omega arith
  Step-IsConserved (settles w snap r before after e) h =
      settle-IsConserved w snap r before after e h
  Step-IsConserved (drains w snap) h =
      let i = w.pool.inner in
      let all = tally-append (coming s p) (map (λ v. (snap, v)) (ready snap i)) w.draining in
      let moved = forget-kept snap i in omega arith
  Step-IsConserved (destroys w c before after e) h =
      let gone = tally_middle (coming s p) before after c in
      let all = ap (tally (coming s p)) e in omega arith

  -- Whatever calls of take and of drain there are, however the refill tasks end, and in whatever
  -- order they take the lock: of the VMs that were restored from a snapshot, each is in exactly one
  -- place, the snapshot's queue, the hands of a refill task, those of a caller of take, those of a
  -- drain, or among the destroyed. So a VM is handed out and destroyed, taken together, at most as
  -- often as the hypervisor returned it, and handed out only for the snapshot it was restored from.
  -- The VMs are counted that pass a test, whichever it is.
  pub Reach-IsConserved : (n : ℕ) {w : World} → Reach (start n) w → IsConserved s p w
  unfolding get
  Reach-IsConserved n here = refl
  Reach-IsConserved n (next r step) = Step-IsConserved step (Reach-IsConserved n r)
