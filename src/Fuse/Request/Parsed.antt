-- ===== src/Fuse/Request/Parsed.antt =====
-- crates/virtio-fs/src/dispatch.rs: no packet of a guest makes `parse_request` panic.
use rust_nano_vm.Prelude.{ℕ, List}
use rust_nano_vm.Bytes.Endian.{of_le}
use rust_nano_vm.Bytes.Buffer.{slice}
use rust_nano_vm.Fuse.InHeader

-- The opcode field of a packet.
abbrev pub raw_opcode : List ℕ → ℕ
raw_opcode buf = of_le (slice 4 4 buf)
