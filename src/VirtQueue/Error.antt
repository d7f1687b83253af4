-- ===== src/VirtQueue/Error.antt =====
-- crates/virtio-queue/src/lib.rs: `QueueError`, the constants and the ring sizes.
use rust_nano_vm.Prelude.{ℕ, ◌+◌, ◌*◌}

pub data QueueError : Type 0 where
  short_descriptor : (have need : ℕ) → QueueError
  short_buffer : (have need : ℕ) → QueueError
  bad_index : (idx table_len : ℕ) → QueueError
  chain_too_long : (limit : ℕ) → QueueError
  short_ring : (have need qsize : ℕ) → QueueError
  short_table : (have need qsize : ℕ) → QueueError
  bad_queue_size : (qsize max_size : ℕ) → QueueError
  short_packed_ring : (have need qsize : ℕ) → QueueError
  address_overflow : (addr len : ℕ) → QueueError
  guest_memory_out_of_bounds : (addr len mem_start mem_len : ℕ) → QueueError
  descriptor_not_writable : (addr : ℕ) → QueueError
  descriptor_too_large : (len max_len : ℕ) → QueueError

abbrev pub desc_size : ℕ
desc_size = 16

abbrev pub packed_desc_size : ℕ
packed_desc_size = 16

abbrev pub desc_f_next : ℕ
desc_f_next = 1

abbrev pub desc_f_write : ℕ
desc_f_write = 2

abbrev pub desc_f_indirect : ℕ
desc_f_indirect = 4

abbrev pub packed_desc_f_next : ℕ
packed_desc_f_next = 1

abbrev pub packed_desc_f_write : ℕ
packed_desc_f_write = 2

abbrev pub packed_desc_f_indirect : ℕ
packed_desc_f_indirect = 4

abbrev pub packed_desc_f_avail : ℕ
packed_desc_f_avail = 128

abbrev pub packed_desc_f_used : ℕ
packed_desc_f_used = 32768

abbrev pub max_desc_read_bytes : ℕ
max_desc_read_bytes = 16 * 1024 * 1024

abbrev pub max_queue_size : ℕ
max_queue_size = 32768

abbrev pub avail_ring_size : ℕ → ℕ
avail_ring_size qsize = 6 + 2 * qsize

abbrev pub used_ring_size : ℕ → ℕ
used_ring_size qsize = 6 + 8 * qsize

abbrev pub desc_table_size : ℕ → ℕ
desc_table_size qsize = qsize * desc_size

abbrev pub packed_ring_size : ℕ → ℕ
packed_ring_size qsize = qsize * packed_desc_size
