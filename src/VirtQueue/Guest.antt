-- ===== src/VirtQueue/Guest.antt =====
-- crates/virtio-queue/src/lib.rs: the trait `GuestMemory`, and the descriptor's accesses to it.
pub mod Slice
pub mod Access
use rust_nano_vm.Prelude.{
  ℕ, ◌+◌, ◌≤◌, ◌≡◌, ◌⊎◌, List, length, take, ltb, not, min, if◌then◌else◌, Outcome, ok, err, ◌>>=◌,
}
use rust_nano_vm.VirtQueue.Error.{
  QueueError, descriptor_too_large, descriptor_not_writable, max_desc_read_bytes,
}
use rust_nano_vm.VirtQueue.Desc.{Descriptor, is_writable}

-- `read` fills a buffer of the given length; `write` takes `&mut self`.
pub record GuestMemory : Type 1 where
  pub Mem : Type 0
  pub read : Mem → ℕ → ℕ → Outcome QueueError (List ℕ)
  pub write : Mem → ℕ → List ℕ → Outcome QueueError Mem

-- What a memory is: a write is read back, and changes nothing outside its range.
pub record IsMemory (g : GuestMemory) : Type 0 where
  pub read-write_self :
      (m : g.Mem) (a : ℕ) (src : List ℕ) {m' : g.Mem}
      → g.write m a src ≡ ok m'
      → g.read m' a (length src) ≡ ok src
  pub read-write_apart :
      (m : g.Mem) (a : ℕ) (src : List ℕ) (b n : ℕ) {m' : g.Mem}
      → g.write m a src ≡ ok m'
      → (b + n ≤ a) ⊎ (a + length src ≤ b)
      → g.read m' b n ≡ g.read m b n

module _ (g : GuestMemory) where
  -- `Descriptor::read_from`
  unfoldable pub read_from : Descriptor → g.Mem → Outcome QueueError (List ℕ)
  read_from d m =
      if ltb max_desc_read_bytes d.len
      then err (descriptor_too_large d.len max_desc_read_bytes)
      else g.read m d.addr d.len

  -- `Descriptor::write_to_guest`, with the memory after it.
  unfoldable pub write_to_guest : Descriptor → g.Mem → List ℕ → Outcome QueueError (g.Mem × ℕ)
  write_to_guest d m bytes =
      if not (is_writable d)
      then err (descriptor_not_writable d.addr)
      else let n = min d.len (length bytes) in (do m' ← g.write m d.addr (take n bytes); ok (m', n))
