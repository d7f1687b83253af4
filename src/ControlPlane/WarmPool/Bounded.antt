-- ===== src/ControlPlane/WarmPool/Bounded.antt =====
-- crates/control-plane/src/warm_pool.rs: how many refill tasks of a snapshot run at a time.
use rust_nano_vm.Prelude.{
  ℕ, zero, suc, ◌+◌, ◌-◌, ◌≡◌, ◌≤◌, refl, ap, Bool-cases, inl, inr, Option, none, some, List, [],
  ◌∷◌, ◌++◌, replicate, ◌==◌, if◌then◌else◌, eq→==, ne→not-==, ==→eq, Outcome, ok, err, tally,
  tally-append, tally_middle, arith,
}
use rust_nano_vm.Maps.{Map, nat_key, get, insert, remove}
use rust_nano_vm.Maps.Laws.{
  key-cases, get-insert_self, get-insert_other, get-remove_self, get-remove_other,
}
use rust_nano_vm.Hypervisor.Types.{VmHandle, VmError}
use rust_nano_vm.ControlPlane.WarmPool.{
  Inner, Refill, restoring, returned, released, count, flying, pop_front, needed, reserve, release,
  push_back, forget,
}
use rust_nano_vm.ControlPlane.WarmPool.Steps.{
  World, start, kick_refill, give_up, settle, Step, takes, kicks, restores, gives_up, settles,
  drains, destroys, Reach, here, next,
}

abbrev pub counts : ℕ → ℕ → ℕ
counts s snap = if s == snap then 1 else 0

-- A refill task of a snapshot that has not given up its place in the count: its call of the
-- hypervisor is running, or has just ended.
abbrev pub running : ℕ → Refill → ℕ
running s r = elim r.phase [
  | restoring ↦ counts s r.snap
  | returned o ↦ counts s r.snap
  | released o ↦ 0
]

abbrev pub IsBounded : ℕ → World → Type 0
IsBounded s w =
    (tally (running s) w.refills ≡ flying s w.pool.inner)
    × (flying s w.pool.inner ≤ w.pool.per_snapshot)

module _ (s : ℕ) where
  counts_self : (snap : ℕ) → s ≡ snap → counts s snap ≡ 1
  counts_self snap same = rw (eq→== s snap same) refl

  counts_other : (snap : ℕ) → ¬ (s ≡ snap) → counts s snap ≡ 0
  counts_other snap other = rw (ne→not-== s snap other) refl

  pop_front-flying :
      (snap : ℕ) (i : Inner) (o : Option (List VmHandle))
      → flying s (pop_front snap i o).0 ≡ flying s i
  unfolding pop_front
  pop_front-flying snap i none = refl
  pop_front-flying snap i (some []) = refl
  pop_front-flying snap i (some (h ∷ q)) = refl

  -- The count of a snapshot whose entry is set.
  set :
      (snap n : ℕ) (m : Map ℕ ℕ)
      → count (get s (insert snap n m)) ≡ (if s == snap then n else count (get s m))
  set snap n m = elim (key-cases s snap) [
    | inl same ↦ rw (same, get-insert_self snap n m, eq→== snap snap refl) refl
    | inr other ↦ rw (get-insert_other s snap n m other, ne→not-== s snap other) refl
  ]

  cleared :
      (snap : ℕ) (m : Map ℕ ℕ)
      → count (get s (remove snap m)) ≡ (if s == snap then 0 else count (get s m))
  cleared snap m = elim (key-cases s snap) [
    | inl same ↦ rw (same, get-remove_self snap m, eq→== snap snap refl) refl
    | inr other ↦ rw (get-remove_other s snap m other, ne→not-== s snap other) refl
  ]

  forget-flying : (snap : ℕ) (i : Inner) → ¬ (s ≡ snap) → flying s (forget snap i) ≡ flying s i
  unfolding forget
  forget-flying snap i other = ap count (get-remove_other s snap i.in_flight other)

  reserve-flying :
      (target snap : ℕ) (i : Inner)
      → flying s (reserve target snap i)
        ≡ (if s == snap then flying snap i + needed target snap i else flying s i)
  unfolding reserve
  reserve-flying target snap i = elim (Bool-cases (needed target snap i == 0)) [
    | inl e ↦ elim (key-cases s snap) [
      | inl same ↦
          let nothing = ==→eq (needed target snap i) 0 e in
          rw (e, same, eq→== snap snap refl) omega arith
      | inr other ↦ rw (e, ne→not-== s snap other) refl
    ]
    | inr e ↦ rw e (set snap (flying snap i + needed target snap i) i.in_flight)
  ]

  release-flying :
      (snap : ℕ) (i : Inner)
      → flying s (release snap i) ≡ (if s == snap then flying snap i - 1 else flying s i)
  unfolding release
  release-flying snap i = elim (Bool-cases (flying snap i - 1 == 0)) [
    | inl e ↦ rw (e, ==→eq (flying snap i - 1) 0 e) (cleared snap i.in_flight)
    | inr e ↦ rw e (set snap (flying snap i - 1) i.in_flight)
  ]

  spawned :
      (n snap : ℕ)
      → tally (running s) (replicate n (record { snap = snap; phase = restoring }))
        ≡ (if s == snap then n else 0)
  spawned zero snap = elim (Bool-cases (s == snap)) [ inl e ↦ rw e refl | inr e ↦ rw e refl ]
  spawned (suc n) snap = elim (Bool-cases (s == snap)) [
    | inl e ↦ rw (spawned n snap, e) omega arith
    | inr e ↦ rw (spawned n snap, e) refl
  ]

  kick_refill-IsBounded :
      (w : World) (snap : ℕ) (others : List ℕ)
      → IsBounded s w
      → IsBounded s (kick_refill snap others w)
  kick_refill-IsBounded w snap others (all, most) =
      let i = w.pool.inner in
      let n = needed w.pool.per_snapshot snap i in
      let total = reserve-flying w.pool.per_snapshot snap i in
      let more =
        tally-append (running s) (replicate n (record { snap = snap; phase = restoring }))
          w.refills in
      let new_ones = spawned n snap in
      elim (key-cases s snap) [
        | inl same ↦
            let yes = eq→== s snap same in
            let own = ap (λ k. flying k i) same in
            (rw (total, more, new_ones, yes) omega arith, rw (total, yes) omega arith)
        | inr other ↦
            let no = ne→not-== s snap other in
            (rw (total, more, new_ones, no) omega arith, rw (total, no) omega arith)
      ]

  give_up-IsBounded :
      (w : World) (snap : ℕ) (r : Outcome VmError VmHandle) (before after : List Refill)
      → w.refills ≡ before ++ record { snap = snap; phase = returned r } ∷ after
      → IsBounded s w
      → IsBounded s (give_up snap r before after w)
  give_up-IsBounded w snap r before after e (all, most) =
      let i = w.pool.inner in
      let was = ap (tally (running s)) e in
      let out =
        tally_middle (running s) before after (record { snap = snap; phase = returned r }) in
      let now =
        tally_middle (running s) before after (record { snap = snap; phase = released r }) in
      let left = release-flying snap i in
      elim (key-cases s snap) [
        | inl same ↦
            let yes = eq→== s snap same in
            let own = ap (λ k. flying k i) same in
            let one = counts_self snap same in
            (rw (left, yes) omega arith, rw (left, yes) omega arith)
        | inr other ↦
            let no = ne→not-== s snap other in
            let none_of_it = counts_other snap other in
            (rw (left, no) omega arith, rw (left, no) omega arith)
      ]

  settle-IsBounded :
      (w : World) (snap : ℕ) (r : Outcome VmError VmHandle) (before after : List Refill)
      → w.refills ≡ before ++ record { snap = snap; phase = released r } ∷ after
      → IsBounded s w
      → IsBounded s (settle snap r (before ++ after) w)
  unfolding push_back
  settle-IsBounded w snap r before after e (all, most) =
      elim r as (λ o. IsBounded s (settle snap o (before ++ after) w)) [
        | ok v ↦ (same, most)
        | err x ↦ (same, most)
        | Outcome.panic ↦ (same, most)
      ]
    where
      same : tally (running s) (before ++ after) ≡ flying s w.pool.inner
      same =
          let was = ap (tally (running s)) e in
          let out =
            tally_middle (running s) before after (record { snap = snap; phase = released r }) in
          omega arith

  drained-settle :
      (w : World) (snap : ℕ) (r : Outcome VmError VmHandle) (others : List Refill)
      → tally (counts s) (settle snap r others w).drained ≡ 0
      → tally (counts s) w.drained ≡ 0
  drained-settle w snap (ok v) others un = un
  drained-settle w snap (err x) others un = un
  drained-settle w snap Outcome.panic others un = un

  -- A snapshot that was drained in no step up to the last one was drained in none before.
  Step-IsBounded :
      {w v : World}
      → Step w v
      → tally (counts s) v.drained ≡ 0
      → (tally (counts s) w.drained ≡ 0 → IsBounded s w)
      → IsBounded s v
  Step-IsBounded (takes w snap on) un h =
      let (all, most) = h un in
      rw (pop_front-flying snap w.pool.inner (get snap w.pool.inner.queues)) (all, most)
  Step-IsBounded (kicks w snap before after e) un h =
      kick_refill-IsBounded w snap (before ++ after) (h un)
  Step-IsBounded (restores w snap r before after e) un h =
      let (all, most) = h un in
      let was = ap (tally (running s)) e in
      let out = tally_middle (running s) before after (record { snap = snap; phase = restoring }) in
      let now =
        tally_middle (running s) before after (record { snap = snap; phase = returned r }) in
      (omega arith, most)
  Step-IsBounded (gives_up w snap r before after e) un h =
      give_up-IsBounded w snap r before after e (h un)
  Step-IsBounded (settles w snap r before after e) un h =
      settle-IsBounded w snap r before after e (h (drained-settle w snap r (before ++ after) un))
  Step-IsBounded (drains w snap) un h =
      let (all, most) = h (omega arith) in
      elim (key-cases s snap) [
        | inl same ↦ let one = counts_self snap same in absurd (omega arith)
        | inr other ↦ rw (forget-flying snap w.pool.inner other) (all, most)
      ]
  Step-IsBounded (destroys w c before after e) un h = h un

  -- As long as a snapshot is not drained, whatever else is called and in whatever order the lock is
  -- taken: the refill tasks of the snapshot that have not given up their place are exactly those
  -- that the pool counts, and they are never more than the pool's target depth.
  pub Reach-IsBounded :
      (n : ℕ) {w : World} → Reach (start n) w → tally (counts s) w.drained ≡ 0 → IsBounded s w
  unfolding get
  Reach-IsBounded n here un = (refl, omega arith)
  Reach-IsBounded n (next r step) un = Step-IsBounded step un (Reach-IsBounded n r)
