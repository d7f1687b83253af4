-- ===== src/VirtQueue/Chain.antt =====
-- crates/virtio-queue/src/lib.rs: `DescriptorChain`, the walk along the `next` links.
pub mod Links
pub mod Walk
use rust_nano_vm.Prelude.{
  ℕ, zero, suc, ◌+◌, Bool, true, false, Option, none, some, List, [], ◌∷◌, length, get_elem?, ltb,
  if◌then◌else◌, Outcome, ok, err,
}
use rust_nano_vm.VirtQueue.Error.{QueueError, bad_index, chain_too_long}
use rust_nano_vm.VirtQueue.Desc.{Descriptor, has_next}

pub record DescriptorChain : Type 0 where
  pub table : List Descriptor
  pub next : Option ℕ
  pub visited : ℕ
  pub failed : Bool

-- `DescriptorChain::new`
unfoldable pub new : List Descriptor → ℕ → DescriptorChain
new table head = record { table = table; next = some head; visited = 0; failed = false }

-- An item that the iterator yields: `Result<&Descriptor, QueueError>`.
abbrev pub Item : Type 0
Item = Outcome QueueError Descriptor

abbrev pub follow : Descriptor → Option ℕ
follow d = if has_next d then some d.next else none

-- The rest of `next`, once a descriptor was found at the index.
unfoldable pub visit : DescriptorChain → Descriptor → Option Item × DescriptorChain
visit c d =
    let seen = c.visited + 1 in
    if ltb (length c.table) seen
    then (some (err (chain_too_long (length c.table))), record c { visited = seen; failed = true })
    else (some (ok d), record c { visited = seen; next = follow d })

unfoldable pub look : DescriptorChain → ℕ → Option Descriptor → Option Item × DescriptorChain
look c idx none = (some (err (bad_index idx (length c.table))), record c { failed = true })
look c idx (some d) = visit c d

unfoldable pub from_index : DescriptorChain → Option ℕ → Option Item × DescriptorChain
from_index c none = (none, c)
from_index c (some idx) = look c idx (get_elem? c.table idx)

-- `Iterator::next`
unfoldable pub next_item : DescriptorChain → Option Item × DescriptorChain
next_item c = if c.failed then (none, c) else from_index c c.next

-- A client that takes at most `fuel` items; the flag says that the iterator came to its end.
unfoldable pub collect : ℕ → DescriptorChain → List Item × Bool
collect zero c = ([], false)
collect (suc fuel) c =
    let (item, c') = next_item c in
    elim item [
      | none ↦ ([], true)
      | some i ↦ let (items, end) = collect fuel c' in (i ∷ items, end)
    ]
