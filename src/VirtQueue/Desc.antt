-- ===== src/VirtQueue/Desc.antt =====
-- crates/virtio-queue/src/lib.rs: `Descriptor`, an entry of the descriptor table.
pub mod RoundTrip
use Prim.Native.Nat.{bit_and}
use rust_nano_vm.Prelude.{
  ℕ, ◌+◌, ◌^◌, ◌<◌, Bool, not, List, ◌++◌, length, ltb, ◌==◌, if◌then◌else◌, Outcome, ok, err,
  ◌>>=◌,
}
use rust_nano_vm.Bytes.Endian.{to_le, IsU16, IsU32, IsU64}
use rust_nano_vm.Bytes.Buffer.{read_le, write_slice}
use rust_nano_vm.VirtQueue.Error.{
  QueueError, short_descriptor, short_buffer, address_overflow, desc_size, desc_f_next,
  desc_f_write, desc_f_indirect,
}

pub record Descriptor : Type 0 where
  pub addr : ℕ
  pub len : ℕ
  pub flags : ℕ
  pub next : ℕ

-- Each field fits its Rust type.
pub record IsDescriptor (d : Descriptor) : Type 0 where
  pub addr_fits : IsU64 d.addr
  pub len_fits : IsU32 d.len
  pub flags_fits : IsU16 d.flags
  pub next_fits : IsU16 d.next

unfoldable pub from_bytes : List ℕ → Outcome QueueError Descriptor
from_bytes buf =
    if ltb (length buf) desc_size then err (short_descriptor (length buf) desc_size) else do
      addr ← read_le 8 0 buf
      len ← read_le 4 8 buf
      flags ← read_le 2 12 buf
      next ← read_le 2 14 buf
      ok (record { addr = addr; len = len; flags = flags; next = next })

-- The buffer after the writes, and the count that is returned.
unfoldable pub write_to : Descriptor → List ℕ → Outcome QueueError (List ℕ × ℕ)
write_to d buf =
    if ltb (length buf) desc_size then err (short_buffer (length buf) desc_size) else do
      buf ← write_slice 0 (to_le 8 d.addr) buf
      buf ← write_slice 8 (to_le 4 d.len) buf
      buf ← write_slice 12 (to_le 2 d.flags) buf
      buf ← write_slice 14 (to_le 2 d.next) buf
      ok (buf, desc_size)

unfoldable pub to_bytes : Descriptor → List ℕ
to_bytes d = to_le 8 d.addr ++ (to_le 4 d.len ++ (to_le 2 d.flags ++ to_le 2 d.next))

unfoldable pub has_next : Descriptor → Bool
has_next d = not (bit_and d.flags desc_f_next == 0)

unfoldable pub is_writable : Descriptor → Bool
is_writable d = not (bit_and d.flags desc_f_write == 0)

unfoldable pub is_indirect : Descriptor → Bool
is_indirect d = not (bit_and d.flags desc_f_indirect == 0)

-- `checked_add` of two u64s.
unfoldable pub end_addr : Descriptor → Outcome QueueError ℕ
end_addr d =
    if ltb (d.addr + d.len) (2 ^ 64)
    then ok (d.addr + d.len)
    else err (address_overflow d.addr d.len)
