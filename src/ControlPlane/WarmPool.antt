-- ===== src/ControlPlane/WarmPool.antt =====
-- crates/control-plane/src/warm_pool.rs: `WarmPool` with its `Inner` under the lock, one function
-- for each section of the code that holds the lock, and the refill tasks. The sections take no
-- other lock and do not panic, so the lock is not poisoned.
pub mod Steps
pub mod Conserved
pub mod Bounded
pub mod Tests
use rust_nano_vm.Prelude.{
  ℕ, ◌+◌, ◌-◌, Bool, Option, none, some, List, [], ◌∷◌, ◌++◌, length, ◌==◌, if◌then◌else◌, Outcome,
}
use rust_nano_vm.Maps.{Map, nat_key, get, insert, remove}
use rust_nano_vm.Hypervisor.Types.{VmHandle, VmError}

pub record Inner : Type 0 where
  pub queues : Map ℕ (List VmHandle)
  pub in_flight : Map ℕ ℕ

pub record WarmPool : Type 0 where
  pub per_snapshot : ℕ
  pub inner : Inner

abbrev pub new : ℕ → WarmPool
new n = record { per_snapshot = n; inner = record { queues = []; in_flight = [] } }

abbrev pub is_disabled : WarmPool → Bool
is_disabled p = p.per_snapshot == 0

-- `unwrap_or_default`, `unwrap_or(0)`
abbrev pub queued : Option (List VmHandle) → List VmHandle
queued none = []
queued (some q) = q

abbrev pub count : Option ℕ → ℕ
count none = 0
count (some n) = n

-- The queue of a snapshot, empty where it has none.
abbrev pub ready : ℕ → Inner → List VmHandle
ready snap i = queued (get snap i.queues)

abbrev pub depth : ℕ → WarmPool → ℕ
depth snap p = length (ready snap p.inner)

-- The refill tasks that the pool counts for a snapshot.
abbrev pub flying : ℕ → Inner → ℕ
flying snap i = count (get snap i.in_flight)

-- What `take` does under the lock.
unfoldable pub pop_front : ℕ → Inner → Option (List VmHandle) → Inner × Option VmHandle
pop_front snap i none = (i, none)
pop_front snap i (some []) = (i, none)
pop_front snap i (some (h ∷ q)) = (record i { queues = insert snap q i.queues }, some h)

-- What `kick_refill` does under the lock, and how many tasks it spawns.
abbrev pub needed : ℕ → ℕ → Inner → ℕ
needed target snap i = target - (length (ready snap i) + flying snap i)

unfoldable pub reserve : ℕ → ℕ → Inner → Inner
reserve target snap i =
    let need = needed target snap i in
    if need == 0 then i else record i { in_flight = insert snap (flying snap i + need) i.in_flight }

-- What a refill task does under the lock: first it is no longer counted, ...
unfoldable pub release : ℕ → Inner → Inner
release snap i =
    let left = flying snap i - 1 in
    record i {
      in_flight = if left == 0 then remove snap i.in_flight else insert snap left i.in_flight;
    }

-- ... and then, with the lock taken again, its VM is put into the queue.
unfoldable pub push_back : ℕ → VmHandle → Inner → Inner
push_back snap h i = record i { queues = insert snap (ready snap i ++ h ∷ []) i.queues }

-- What `drain` does under the lock, besides taking the queue.
unfoldable pub forget : ℕ → Inner → Inner
forget snap i = record { queues = remove snap i.queues; in_flight = remove snap i.in_flight }

-- A refill task waits for the hypervisor, or has its result (where the call panicked, a panic),
-- or has besides given up its place in the count.
pub data Phase : Type 0 where
  restoring : Phase
  returned released : Outcome VmError VmHandle → Phase

pub record Refill : Type 0 where
  pub snap : ℕ
  pub phase : Phase
