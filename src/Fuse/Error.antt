-- ===== src/Fuse/Error.antt =====
-- crates/virtio-fs/src/lib.rs: `FuseError`, and what the `to_bytes` methods make of a result.
use rust_nano_vm.Prelude.{ℕ, List, Outcome, ok}

pub data FuseError : Type 0 where
  short_header : (have need : ℕ) → FuseError
  short_buffer : (have need : ℕ) → FuseError
  unknown_opcode : (raw : ℕ) → FuseError

-- An array that `write_to` has filled: anything else meets an `expect`.
abbrev pub as_array {ℓ} : {E : Type ℓ} → Outcome E (List ℕ × ℕ) → Outcome E (List ℕ)
as_array (ok (out, n)) = ok out
as_array _ = Outcome.panic
