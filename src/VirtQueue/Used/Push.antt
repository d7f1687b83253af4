-- ===== src/VirtQueue/Used/Push.antt =====
-- crates/virtio-queue/src/lib.rs: one `UsedRing::push`, and what it leaves alone.
use rust_nano_vm.Prelude.{ℕ, ◌+◌, ◌*◌, ◌%◌, ◌≤◌, ◌≡◌, ◌∙◌, arith, ◌⊎◌, inl, inr, List, length, ok}
use native.Mathlib.Nat.{mod-lt}
use rust_nano_vm.Words.{wrapping_add, is_power_of_two-pos}
use rust_nano_vm.Bytes.Endian.{to_le, of_le}
use rust_nano_vm.Bytes.Buffer.{
  slice, splice, read_le_in, write_slice_in, length-splice, slice-splice_below, slice-splice_above,
}
use rust_nano_vm.VirtQueue.Error.{QueueError, used_ring_size}
use rust_nano_vm.VirtQueue.Size.{IsSize}
use rust_nano_vm.VirtQueue.Used.{UsedRing, idx, set_idx, push}

pub record IsRing (u : UsedRing) : Type 0 where
  pub size : IsSize u.qsize
  pub room : used_ring_size u.qsize ≤ length u.bytes

abbrev pub counter : UsedRing → ℕ
counter u = of_le (slice 2 2 u.bytes)

abbrev pub offset : UsedRing → ℕ → ℕ
offset u slot = 4 + 8 * (slot % u.qsize)

pub offset-le :
    (u : UsedRing) (slot : ℕ) → IsRing u → offset u slot + 14 ≤ used_ring_size u.qsize + 4
offset-le u slot v = omega (arith, mod-lt slot (is_power_of_two-pos 16 u.qsize v.size.1))

-- The bytes after a push.
abbrev pub pushed_bytes : UsedRing → ℕ → ℕ → List ℕ
pushed_bytes u id len = splice 2 (to_le 2 (wrapping_add 16 (counter u) 1)) (
    splice (offset u (counter u) + 4) (to_le 4 len)
      (splice (offset u (counter u)) (to_le 4 id) u.bytes))

abbrev pub pushed : UsedRing → ℕ → ℕ → UsedRing
pushed u id len = record u { bytes = pushed_bytes u id len }

module _ (u : UsedRing) (id len : ℕ) (v : IsRing u) where
  pub length-pushed : length (pushed_bytes u id len) ≡ length u.bytes
  length-pushed = rw (length-splice {0}, length-splice {0}) (length-splice _ _ u.bytes)

  pub pushed-IsRing : IsRing (pushed u id len)
  pushed-IsRing = record { size = v.size; room = rw length-pushed v.room }

  pub idx_in : idx u ≡ ok (counter u)
  unfolding idx
  idx_in = read_le_in {E = QueueError} 2 2 u.bytes (omega (arith, v.room))

  pub push_in : push u id len ≡ ok (pushed u id len, counter u)
  unfolding push set_idx
  push_in =
      let bound = offset-le u (counter u) v in
      rw (
        idx_in,
        write_slice_in {E = QueueError} (offset u (counter u)) (to_le 4 id) u.bytes
            (omega (arith, v.room)),
        write_slice_in {E = QueueError} (offset u (counter u) + 4) (to_le 4 len)
            (splice (offset u (counter u)) (to_le 4 id) u.bytes)
            (omega (arith, v.room, length-splice {0})),
        write_slice_in {E = QueueError} 2 (to_le 2 (wrapping_add 16 (counter u) 1))
            (splice (offset u (counter u) + 4) (to_le 4 len)
              (splice (offset u (counter u)) (to_le 4 id) u.bytes))
            (omega (arith, v.room, length-splice {0})),
      )

  -- A range that the push does not write keeps its bytes.
  pub untouched :
      (off n : ℕ)
      → (off + n ≤ 2) ⊎ (4 ≤ off)
      → (off + n ≤ offset u (counter u)) ⊎ (offset u (counter u) + 8 ≤ off)
      → slice off n (pushed_bytes u id len) ≡ slice off n u.bytes
  untouched off n outside apart = clear_of_idx outside ∙ clear_of_len apart ∙ clear_of_id apart
    where
      base : List ℕ
      base = splice (offset u (counter u)) (to_le 4 id) u.bytes

      clear_of_idx :
          (off + n ≤ 2) ⊎ (4 ≤ off)
          → slice off n (pushed_bytes u id len)
            ≡ slice off n (splice (offset u (counter u) + 4) (to_le 4 len) base)
      clear_of_idx (inl below) = slice-splice_below off n 2 _ _ below
      clear_of_idx (inr above) = slice-splice_above off n 2 _ _ above

      clear_of_len :
          (off + n ≤ offset u (counter u)) ⊎ (offset u (counter u) + 8 ≤ off)
          → slice off n (splice (offset u (counter u) + 4) (to_le 4 len) base) ≡ slice off n base
      clear_of_len (inl below) = slice-splice_below off n _ _ base (omega arith)
      clear_of_len (inr above) = slice-splice_above off n _ (to_le 4 len) base (omega arith)

      clear_of_id :
          (off + n ≤ offset u (counter u)) ⊎ (offset u (counter u) + 8 ≤ off)
          → slice off n base ≡ slice off n u.bytes
      clear_of_id (inl below) = slice-splice_below off n _ _ u.bytes below
      clear_of_id (inr above) = slice-splice_above off n _ (to_le 4 id) u.bytes (omega arith)
