-- ===== src/VirtQueue/Used.antt =====
-- crates/virtio-queue/src/lib.rs: `UsedRing`, the ring in which the device reports completed chains.
pub mod Push
pub mod Reported
pub mod Sequence
use rust_nano_vm.Prelude.{
  ℕ, ◌+◌, ◌*◌, ◌%◌, List, [], ◌∷◌, length, ltb, Outcome, ok, fail_if, ◌>>=◌, ◌>>◌,
}
use rust_nano_vm.Words.{wrapping_add}
use rust_nano_vm.Bytes.Endian.{to_le}
use rust_nano_vm.Bytes.Buffer.{read_le, write_slice}
use rust_nano_vm.VirtQueue.Error.{QueueError, short_ring, used_ring_size}
use rust_nano_vm.VirtQueue.Size.{validate_qsize}

pub record UsedRing : Type 0 where
  pub bytes : List ℕ
  pub qsize : ℕ

unfoldable pub new : List ℕ → ℕ → Outcome QueueError UsedRing
new bytes qsize = do
  validate_qsize qsize
  let need = used_ring_size qsize
  fail_if (ltb (length bytes) need) (short_ring (length bytes) need qsize)
  ok (record { bytes = bytes; qsize = qsize })

unfoldable pub flags : UsedRing → Outcome QueueError ℕ
flags u = read_le 2 0 u.bytes

unfoldable pub set_flags : UsedRing → ℕ → Outcome QueueError UsedRing
set_flags u v = do b ← write_slice 0 (to_le 2 v) u.bytes; ok (record u { bytes = b })

unfoldable pub idx : UsedRing → Outcome QueueError ℕ
idx u = read_le 2 2 u.bytes

unfoldable pub set_idx : UsedRing → ℕ → Outcome QueueError UsedRing
set_idx u v = do b ← write_slice 2 (to_le 2 v) u.bytes; ok (record u { bytes = b })

unfoldable pub avail_event : UsedRing → Outcome QueueError ℕ
avail_event u = let off = 4 + 8 * u.qsize in read_le 2 off u.bytes

unfoldable pub set_avail_event : UsedRing → ℕ → Outcome QueueError UsedRing
set_avail_event u v = do
  let off = 4 + 8 * u.qsize
  b ← write_slice off (to_le 2 v) u.bytes
  ok (record u { bytes = b })

unfoldable pub elem : UsedRing → ℕ → Outcome QueueError (ℕ × ℕ)
elem u slot = do
  let off = 4 + 8 * (slot % u.qsize)
  id ← read_le 4 off u.bytes
  len ← read_le 4 (off + 4) u.bytes
  ok (id, len)

-- The ring after the push, and the counter that is returned.
unfoldable pub push : UsedRing → ℕ → ℕ → Outcome QueueError (UsedRing × ℕ)
push u head_idx written_len = do
  cur ← idx u
  let off = 4 + 8 * (cur % u.qsize)
  b ← write_slice off (to_le 4 head_idx) u.bytes
  b ← write_slice (off + 4) (to_le 4 written_len) b
  u' ← set_idx (record u { bytes = b }) (wrapping_add 16 cur 1)
  ok (u', cur)

-- The device completes several chains in a row.
unfoldable pub push_all : UsedRing → List (ℕ × ℕ) → Outcome QueueError UsedRing
push_all u [] = ok u
push_all u ((head_idx, written_len) ∷ rest) = do
  (u', _) ← push u head_idx written_len
  push_all u' rest
