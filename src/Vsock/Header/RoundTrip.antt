-- ===== src/Vsock/Header/RoundTrip.antt =====
-- crates/virtio-vsock/src/lib.rs: reading a `VsockHeader` from its wire form, and writing it.
use rust_nano_vm.Prelude.{
  ℕ, ◌≤◌, ◌<◌, ◌≡◌, refl, ap, ◌∙◌, arith, ◌⊎◌, inl, inr, List, ◌++◌, length, take, drop, All,
  lt_or_le, Bool-cases, ==→eq, eq→==, ◌==◌, lt→ltb, ok, err,
}
use rust_nano_vm.Bytes.Endian.{IsByte, of_le}
use rust_nano_vm.Bytes.Buffer.{slice}
use rust_nano_vm.Vsock.Header.{
  VsockHeader, IsHeader, from_bytes, write_to, to_bytes, short_header, short_buffer, unknown_op,
  unknown_type,
}
use rust_nano_vm.Vsock.Header.Wire.{
  wire, write_to-wire, to_bytes-wire, decoded, from_bytes-decoded, from_bytes_bad_type,
  op_from_raw_known, from_bytes_bad_op, from_bytes-wire, wire-decoded,
}

-- A header that `write_to` put at the front of a buffer with room for it is read back as it was,
-- and the bytes behind it stay; a buffer of fewer than forty-four bytes is refused. `to_bytes`
-- makes the same forty-four bytes.
pub header_from_bytes-write_to :
    (h : VsockHeader) (buf : List ℕ)
    → IsHeader h
    → ((44 ≤ length buf)
        × (out : List ℕ) × (write_to h buf ≡ ok (out, 44))
        × (from_bytes out ≡ ok h)
        × (to_bytes h ≡ ok (take 44 out))
        × (drop 44 out ≡ drop 44 buf))
      ⊎ ((length buf < 44) × (write_to h buf ≡ err (short_buffer (length buf) 44)))
unfolding write_to
header_from_bytes-write_to h buf v = elim (lt_or_le (length buf) 44) [
  | inl short ↦ inr (short, rw (lt→ltb (length buf) 44 short))
  | inr room ↦ inl (
    room,
    wire h ++ drop 44 buf,
    write_to-wire h buf room,
    from_bytes-wire h (drop 44 buf) v,
    to_bytes-wire h,
    refl,
  )
]

-- Every buffer of bytes is answered, and none panics: a short one is refused with its length, an
-- unknown packet type before an unknown operation, each with the number that was read, and the
-- header of any other is written back as the forty-four bytes that it was read from.
pub wire-from_bytes :
    (buf : List ℕ)
    → All IsByte buf
    → ((length buf < 44) × (from_bytes buf ≡ err (short_header (length buf) 44)))
      ⊎ ((44 ≤ length buf)
          × (¬ (of_le (slice 28 2 buf) ≡ 1))
          × (from_bytes buf ≡ err (unknown_type (of_le (slice 28 2 buf)))))
      ⊎ ((44 ≤ length buf)
          × (of_le (slice 28 2 buf) ≡ 1)
          × (8 ≤ of_le (slice 30 2 buf))
          × (from_bytes buf ≡ err (unknown_op (of_le (slice 30 2 buf)))))
      ⊎ ((44 ≤ length buf)
          × (h : VsockHeader) × (from_bytes buf ≡ ok h)
          × (to_bytes h ≡ ok (take 44 buf)))
unfolding from_bytes
wire-from_bytes buf bytes = elim (lt_or_le (length buf) 44) [
  | inl short ↦ inl (short, rw (lt→ltb (length buf) 44 short))
  | inr room ↦ inr (elim (Bool-cases (of_le (slice 28 2 buf) == 1)) [
    | inr other ↦ inl (
      room,
      (λ e. ground (arith, eq→== _ _ e)),
      from_bytes_bad_type buf room (λ e. ground (arith, eq→== _ _ e)),
    )
    | inl same ↦ inr (elim (lt_or_le (of_le (slice 30 2 buf)) 8) [
      | inr big ↦ inl (room, ==→eq _ _ same, big, from_bytes_bad_op buf room (==→eq _ _ same) big)
      | inl small ↦
          let (o, known, raw) = op_from_raw_known (of_le (slice 30 2 buf)) small in
          inr (
            room,
            decoded buf o,
            from_bytes-decoded buf o room (==→eq _ _ same) known,
            to_bytes-wire (decoded buf o)
                ∙ ap ok (wire-decoded buf o room bytes (==→eq _ _ same) raw),
          )
    ])
  ])
]
