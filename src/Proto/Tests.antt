-- ===== src/Proto/Tests.antt =====
-- Frames of a concrete text format: a number below 256 is its byte, and no other is written.
use rust_nano_vm.Prelude.{
  ℕ, ◌+◌, ◌≤◌, ◌<◌, ◌≡◌, refl, sym, ap, arith, ◌⊎◌, inl, inr, List, [], ◌∷◌, ◌++◌, replicate,
  length, ltb, Bool-cases, if◌then◌else◌, Outcome, ok, err,
}
use rust_nano_vm.Proto.Frame.{
  Json, incomplete, payload_too_large, max_frame_bytes, encode_value, decode_value,
}
use rust_nano_vm.Proto.Frame.RoundTrip.{
  IsJson, frame, decode_value-encode_value, decode_value_piece,
}

to_byte : ℕ → List ℕ × Outcome ℕ (Unit {0})
to_byte n = if ltb n 256 then (n ∷ [], ok tt) else ([], err n)

of_byte : List ℕ → Outcome ℕ ℕ
of_byte (n ∷ []) = ok n
of_byte _ = err 0

abbrev bytes : Json
bytes = record { Value = ℕ; JsonError = ℕ; to_writer = to_byte; from_slice = of_byte }

bytes-IsJson : IsJson bytes
unfolding to_byte of_byte
bytes-IsJson = record {
  from_slice-to_writer = λ v payload h. elim (Bool-cases (ltb v 256)) [
    | inl small ↦ ap of_byte (sym (ap (λ a. a.0) (rw small at h)))
    | inr big ↦ absurd (cc (ap (λ a. a.1) (rw big at h)))
  ];
}

decode_value-encode_value_example :
    (((to_byte 7).1 ≡ ok tt)
      × (length (to_byte 7).0 ≤ max_frame_bytes)
      × (encode_value bytes 7 (1 ∷ [])
          ≡ ((1 ∷ []) ++ frame (to_byte 7).0, ok (4 + length (to_byte 7).0)))
      × (decode_value bytes (frame (to_byte 7).0 ++ (9 ∷ [])) ≡ ok (7, 4 + length (to_byte 7).0)))
    ⊎ (((to_byte 7).1 ≡ ok tt)
        × (max_frame_bytes < length (to_byte 7).0)
        × (encode_value bytes 7 (1 ∷ [])
            ≡ (1 ∷ [], err (payload_too_large (length (to_byte 7).0)))))
    ⊎ (((u : Unit {0}) → ¬ ((to_byte 7).1 ≡ ok u))
        × ((encode_value bytes 7 (1 ∷ [])).0 ≡ (1 ∷ []) ++ (replicate 4 0 ++ (to_byte 7).0))
        × ((n : ℕ) → ¬ ((encode_value bytes 7 (1 ∷ [])).1 ≡ ok n)))
decode_value-encode_value_example = decode_value-encode_value bytes 7 (1 ∷ []) (9 ∷ []) bytes-IsJson

-- Half of a header.
abbrev half : List ℕ
half = 1 ∷ 0 ∷ []

decode_value_piece_example :
    (need : ℕ) × (length half < need)
    × (need ≤ 4 + 1)
    × (decode_value bytes half ≡ err (incomplete (length half) need))
decode_value_piece_example =
    decode_value_piece bytes (7 ∷ []) half (0 ∷ 0 ∷ 7 ∷ []) (omega arith) refl (omega arith)
