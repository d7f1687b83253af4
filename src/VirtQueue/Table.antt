-- ===== src/VirtQueue/Table.antt =====
-- crates/virtio-queue/src/lib.rs: `parse_descriptor_table` and `parse_packed_ring`.
pub mod Parsed
use rust_nano_vm.Prelude.{
  ℕ, zero, suc, ◌+◌, ◌*◌, List, [], ◌∷◌, length, ltb, fail_if, Outcome, ok, err, ◌>>=◌, ◌>>◌,
}
use rust_nano_vm.Bytes.Buffer.{read_slice}
use rust_nano_vm.VirtQueue.Error.{
  QueueError, short_table, short_packed_ring, desc_size, packed_desc_size, desc_table_size,
  packed_ring_size,
}
use rust_nano_vm.VirtQueue.Size.{validate_qsize}
use rust_nano_vm.VirtQueue.Desc
use rust_nano_vm.VirtQueue.Desc.{Descriptor}
use rust_nano_vm.VirtQueue.Packed
use rust_nano_vm.VirtQueue.Packed.{PackedDesc}

-- The rounds `i .. i + n` of the loop over the table.
unfoldable pub descriptors_from : ℕ → ℕ → List ℕ → Outcome QueueError (List Descriptor)
descriptors_from zero i buf = ok []
descriptors_from (suc n) i buf = do
  window ← read_slice (i * desc_size) desc_size buf
  d ← Desc.from_bytes window
  rest ← descriptors_from n (i + 1) buf
  ok (d ∷ rest)

unfoldable pub parse_descriptor_table : List ℕ → ℕ → Outcome QueueError (List Descriptor)
parse_descriptor_table buf qsize = do
  validate_qsize qsize
  let need = desc_table_size qsize
  fail_if (ltb (length buf) need) (short_table (length buf) need qsize)
  descriptors_from qsize 0 buf

unfoldable pub packed_from : ℕ → ℕ → List ℕ → Outcome QueueError (List PackedDesc)
packed_from zero i buf = ok []
packed_from (suc n) i buf = do
  window ← read_slice (i * packed_desc_size) packed_desc_size buf
  d ← Packed.from_bytes window
  rest ← packed_from n (i + 1) buf
  ok (d ∷ rest)

unfoldable pub parse_packed_ring : List ℕ → ℕ → Outcome QueueError (List PackedDesc)
parse_packed_ring buf qsize = do
  validate_qsize qsize
  let need = packed_ring_size qsize
  fail_if (ltb (length buf) need) (short_packed_ring (length buf) need qsize)
  packed_from qsize 0 buf
