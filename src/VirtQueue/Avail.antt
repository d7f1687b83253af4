-- ===== src/VirtQueue/Avail.antt =====
-- crates/virtio-queue/src/lib.rs: `AvailRing` and `AvailIter`, the driver's ring that the device
-- reads.
pub mod Produced
use rust_nano_vm.Prelude.{
  ℕ, zero, suc, ◌+◌, ◌*◌, ◌%◌, Bool, true, false, Option, none, some, List, [], ◌∷◌, length, ltb,
  ◌==◌, Outcome, ok, err, panic, fail_if, ◌>>=◌, ◌>>◌, if◌then◌else◌,
}
use rust_nano_vm.Words.{wrapping_add}
use rust_nano_vm.Bytes.Buffer.{read_le}
use rust_nano_vm.VirtQueue.Error.{QueueError, short_ring, avail_ring_size}
use rust_nano_vm.VirtQueue.Size.{validate_qsize}

pub record AvailRing : Type 0 where
  pub bytes : List ℕ
  pub qsize : ℕ

unfoldable pub new : List ℕ → ℕ → Outcome QueueError AvailRing
new bytes qsize = do
  validate_qsize qsize
  let need = avail_ring_size qsize
  fail_if (ltb (length bytes) need) (short_ring (length bytes) need qsize)
  ok (record { bytes = bytes; qsize = qsize })

unfoldable pub flags : AvailRing → Outcome QueueError ℕ
flags r = read_le 2 0 r.bytes

unfoldable pub idx : AvailRing → Outcome QueueError ℕ
idx r = read_le 2 2 r.bytes

unfoldable pub head : AvailRing → ℕ → Outcome QueueError ℕ
head r slot = let i = slot % r.qsize in let off = 4 + 2 * i in read_le 2 off r.bytes

unfoldable pub used_event : AvailRing → Outcome QueueError ℕ
used_event r = let off = 4 + 2 * r.qsize in read_le 2 off r.bytes

pub record AvailIter : Type 0 where
  pub ring : AvailRing
  pub next : ℕ
  pub end : ℕ

unfoldable pub iter_new : AvailRing → ℕ → Outcome QueueError AvailIter
iter_new r last_seen = do end ← idx r; ok (record { ring = r; next = last_seen; end = end })

-- `Iterator::next`; `none` at the end.
unfoldable pub next_head : AvailIter → Option (Outcome QueueError ℕ × AvailIter)
next_head it =
    if it.next == it.end
    then none
    else some (head it.ring it.next, record it { next = wrapping_add 16 it.next 1 })

-- The loop `for head in ring.iter_new(last_seen)`, for at most `fuel` rounds: the heads that it
-- sees, and whether it came to the iterator's end.
unfoldable pub heads : ℕ → AvailIter → List (Outcome QueueError ℕ) × Bool
heads zero it = ([], false)
heads (suc fuel) it = elim (next_head it) [
  | none ↦ ([], true)
  | some (h, it') ↦ let (hs, done) = heads fuel it' in (h ∷ hs, done)
]
