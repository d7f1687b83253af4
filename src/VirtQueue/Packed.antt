-- ===== src/VirtQueue/Packed.antt =====
-- crates/virtio-queue/src/lib.rs: `PackedDesc`, an entry of a packed ring.
pub mod RoundTrip
use Prim.Native.Nat.{bit_and}
use rust_nano_vm.Prelude.{
  ℕ, Bool, not, List, ◌++◌, length, ltb, ◌==◌, if◌then◌else◌, Outcome, ok, err, ◌>>=◌,
}
use rust_nano_vm.Bytes.Endian.{to_le, IsU16, IsU32, IsU64}
use rust_nano_vm.Bytes.Buffer.{read_le, write_slice}
use rust_nano_vm.VirtQueue.Error.{
  QueueError, short_descriptor, short_buffer, packed_desc_size, packed_desc_f_avail,
  packed_desc_f_used, packed_desc_f_next, packed_desc_f_write, packed_desc_f_indirect,
}

pub record PackedDesc : Type 0 where
  pub addr : ℕ
  pub len : ℕ
  pub id : ℕ
  pub flags : ℕ

-- Each field fits its Rust type.
pub record IsPackedDesc (d : PackedDesc) : Type 0 where
  pub addr_fits : IsU64 d.addr
  pub len_fits : IsU32 d.len
  pub id_fits : IsU16 d.id
  pub flags_fits : IsU16 d.flags

unfoldable pub from_bytes : List ℕ → Outcome QueueError PackedDesc
from_bytes buf =
    if ltb (length buf) packed_desc_size
    then err (short_descriptor (length buf) packed_desc_size)
    else do
      addr ← read_le 8 0 buf
      len ← read_le 4 8 buf
      id ← read_le 2 12 buf
      flags ← read_le 2 14 buf
      ok (record { addr = addr; len = len; id = id; flags = flags })

unfoldable pub write_to : PackedDesc → List ℕ → Outcome QueueError (List ℕ × ℕ)
write_to d buf =
    if ltb (length buf) packed_desc_size
    then err (short_buffer (length buf) packed_desc_size)
    else do
      buf ← write_slice 0 (to_le 8 d.addr) buf
      buf ← write_slice 8 (to_le 4 d.len) buf
      buf ← write_slice 12 (to_le 2 d.id) buf
      buf ← write_slice 14 (to_le 2 d.flags) buf
      ok (buf, packed_desc_size)

unfoldable pub to_bytes : PackedDesc → List ℕ
to_bytes d = to_le 8 d.addr ++ (to_le 4 d.len ++ (to_le 2 d.id ++ to_le 2 d.flags))

unfoldable pub has_next : PackedDesc → Bool
has_next d = not (bit_and d.flags packed_desc_f_next == 0)

unfoldable pub is_writable : PackedDesc → Bool
is_writable d = not (bit_and d.flags packed_desc_f_write == 0)

unfoldable pub is_indirect : PackedDesc → Bool
is_indirect d = not (bit_and d.flags packed_desc_f_indirect == 0)

unfoldable pub is_avail : PackedDesc → Bool
is_avail d = not (bit_and d.flags packed_desc_f_avail == 0)

unfoldable pub is_used : PackedDesc → Bool
is_used d = not (bit_and d.flags packed_desc_f_used == 0)
