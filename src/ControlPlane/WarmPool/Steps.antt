-- ===== src/ControlPlane/WarmPool/Steps.antt =====
-- crates/control-plane/src/warm_pool.rs: the pool with its callers, its refill tasks and its
-- drains, each of which takes the lock when it will. A step is one section under the lock, or a
-- call of the hypervisor that ends.
use rust_nano_vm.Prelude.{
  ℕ, ◌≡◌, false, Option, none, some, List, [], ◌∷◌, ◌++◌, map, replicate, Outcome, ok, err,
}
use rust_nano_vm.Maps.{nat_key, get}
use rust_nano_vm.Hypervisor.Types.{VmHandle, VmError}
use rust_nano_vm.ControlPlane.WarmPool.{
  WarmPool, Refill, restoring, returned, released, new, is_disabled, ready, pop_front, needed,
  reserve, release, push_back, forget,
}

-- A VM with the snapshot that it was restored from.
abbrev pub Child : Type 0
Child = ℕ × VmHandle

-- `kicking` are the callers of `take` that have looked into the queue and not yet refilled it,
-- `draining` the VMs that a drain has still to destroy. The lists below them are the history: what
-- the hypervisor restored, what callers got, what drains asked to destroy, and what was drained.
pub record World : Type 0 where
  pub pool : WarmPool
  pub kicking : List ℕ
  pub refills : List Refill
  pub draining : List Child
  pub restored : List Child
  pub handed : List Child
  pub destroyed : List Child
  pub drained : List ℕ

abbrev pub start : ℕ → World
start n = record {
  pool = new n;
  kicking = [];
  refills = [];
  draining = [];
  restored = [];
  handed = [];
  destroyed = [];
  drained = [];
}

abbrev pub hand : ℕ → Option VmHandle → List Child → List Child
hand snap none hs = hs
hand snap (some h) hs = (snap, h) ∷ hs

-- `take` up to the end of its section: the handle is what the caller gets.
abbrev pub take : ℕ → World → World
take snap w =
    let (i, h) = pop_front snap w.pool.inner (get snap w.pool.inner.queues) in
    record w {
      pool = record (w.pool) { inner = i };
      kicking = snap ∷ w.kicking;
      handed = hand snap h w.handed;
    }

-- `kick_refill`: the tasks are counted under the lock, and then spawned.
abbrev pub kick_refill : ℕ → List ℕ → World → World
kick_refill snap others w =
    let target = w.pool.per_snapshot in
    record w {
      pool = record (w.pool) { inner = reserve target snap w.pool.inner };
      kicking = others;
      refills =
          replicate (needed target snap w.pool.inner) (record { snap = snap; phase = restoring })
          ++ w.refills;
    }

abbrev pub arrived : ℕ → Outcome VmError VmHandle → List Child
arrived snap (ok h) = (snap, h) ∷ []
arrived snap (err e) = []
arrived snap Outcome.panic = []

-- `hv.restore(snap)` ends in a task.
abbrev pub restore : ℕ → Outcome VmError VmHandle → List Refill → List Refill → World → World
restore snap r before after w = record w {
  refills = before ++ record { snap = snap; phase = returned r } ∷ after;
  restored = arrived snap r ++ w.restored;
}

abbrev pub give_up : ℕ → Outcome VmError VmHandle → List Refill → List Refill → World → World
give_up snap r before after w = record w {
  pool = record (w.pool) { inner = release snap w.pool.inner };
  refills = before ++ record { snap = snap; phase = released r } ∷ after;
}

-- The end of a task: a failure is logged.
abbrev pub settle : ℕ → Outcome VmError VmHandle → List Refill → World → World
settle snap (ok h) others w = record w {
  pool = record (w.pool) { inner = push_back snap h w.pool.inner };
  refills = others;
}
settle snap (err e) others w = record w { refills = others }
settle snap Outcome.panic others w = record w { refills = others }

-- `drain`: the queue is taken under the lock, and then destroyed one by one.
abbrev pub drain : ℕ → World → World
drain snap w = record w {
  pool = record (w.pool) { inner = forget snap w.pool.inner };
  draining = map (λ h. (snap, h)) (ready snap w.pool.inner) ++ w.draining;
  drained = snap ∷ w.drained;
}

-- `hypervisor.destroy(h.id)`, whose error is logged.
abbrev pub destroy : Child → List Child → World → World
destroy c others w = record w { draining = others; destroyed = c ∷ w.destroyed }

pub data Step : World → World → Type 0 where
  takes : (w : World) (snap : ℕ) → is_disabled w.pool ≡ false → Step w (take snap w)
  kicks :
      (w : World) (snap : ℕ) (before after : List ℕ)
      → w.kicking ≡ before ++ snap ∷ after
      → Step w (kick_refill snap (before ++ after) w)
  restores :
      (w : World) (snap : ℕ) (r : Outcome VmError VmHandle) (before after : List Refill)
      → w.refills ≡ before ++ record { snap = snap; phase = restoring } ∷ after
      → Step w (restore snap r before after w)
  gives_up :
      (w : World) (snap : ℕ) (r : Outcome VmError VmHandle) (before after : List Refill)
      → w.refills ≡ before ++ record { snap = snap; phase = returned r } ∷ after
      → Step w (give_up snap r before after w)
  settles :
      (w : World) (snap : ℕ) (r : Outcome VmError VmHandle) (before after : List Refill)
      → w.refills ≡ before ++ record { snap = snap; phase = released r } ∷ after
      → Step w (settle snap r (before ++ after) w)
  drains : (w : World) (snap : ℕ) → Step w (drain snap w)
  destroys :
      (w : World) (c : Child) (before after : List Child)
      → w.draining ≡ before ++ c ∷ after
      → Step w (destroy c (before ++ after) w)

pub data Reach (s : World) : World → Type 0 where
  here : Reach s s
  next : {t u : World} → Reach s t → Step t u → Reach s u
