-- ===== src/Proto/Frame/RoundTrip.antt =====
-- crates/proto/src/frame.rs: frames read back, one and many, whole and in part.
use rust_nano_vm.Prelude.{
  ℕ, zero, suc, ◌+◌, ◌%◌, ◌^◌, ◌≤◌, ◌<◌, ◌≡◌, refl, ap, sym, ◌∙◌, ◌⊎◌, inl, inr, arith, List, [],
  ◌∷◌, ◌++◌, length, take, replicate, le→not-ltb, lt→ltb, length-append, lt_or_le, Outcome-cases,
  Outcome, ok, err,
}
use rust_nano_vm.Bytes.Endian.{to_le, of_le, of_le-to_le}
use rust_nano_vm.Bytes.Buffer.{slice, splice, read_le_in, read_slice_in, write_slice_in}
use rust_nano_vm.Proto.Frame.{
  Json, FrameError, incomplete, payload_too_large, max_frame_bytes, patch, finish, encode_value,
  decode_value, map_err,
}

-- What was written whole is read back.
pub record IsJson (j : Json) : Type 0 where
  pub from_slice-to_writer :
      (v : j.Value) (payload : List ℕ)
      → j.to_writer v ≡ (payload, ok tt)
      → j.from_slice payload ≡ ok v

abbrev pub frame : List ℕ → List ℕ
frame payload = to_le 4 (length payload) ++ payload

splice_at :
    (out src old rest : List ℕ)
    → length src ≡ length old
    → splice (length out) src (out ++ (old ++ rest)) ≡ out ++ (src ++ rest)
splice_at [] [] [] [] h = refl
splice_at [] [] [] (r ∷ rest) h = refl
splice_at [] [] (o ∷ old) rest h = absurd (omega arith)
splice_at [] (s ∷ src) [] rest h = absurd (omega arith)
splice_at [] (s ∷ src) (o ∷ old) rest h = ap (◌∷◌ s) (splice_at [] src old rest (omega arith))
splice_at (b ∷ out) src old rest h = ap (◌∷◌ b) (splice_at out src old rest h)

take_front : (out rest : List ℕ) → take (length out) (out ++ rest) ≡ out
take_front [] rest = refl
take_front (b ∷ out) rest = ap (◌∷◌ b) (take_front out rest)

take_within : (n : ℕ) (xs ys : List ℕ) → n ≤ length xs → take n (xs ++ ys) ≡ take n xs
take_within zero xs ys h = refl
take_within (suc n) [] ys h = absurd (omega arith)
take_within (suc n) (x ∷ xs) ys h = ap (◌∷◌ x) (take_within n xs ys (omega arith))

module _ (j : Json) where
  encode_value-frame :
      (v : j.Value) (payload out : List ℕ)
      → j.to_writer v ≡ (payload, ok tt)
      → length payload ≤ max_frame_bytes
      → encode_value j v out ≡ (out ++ frame payload, ok (4 + length payload))
  unfolding encode_value finish patch
  encode_value-frame v payload out written fits =
      let size : length payload % 2 ^ 32 ≡ length payload = omega (arith, fits) in
      rw (
        written,
        le→not-ltb max_frame_bytes (length payload) fits,
        patch,
        write_slice_in {E = FrameError j.JsonError} (length out) (to_le 4 (length payload % 2 ^ 32))
            (out ++ (replicate 4 0 ++ payload))
            (omega (arith, length-append out (replicate 4 0 ++ payload))),
        size,
        splice_at out (to_le 4 (length payload)) (replicate 4 0) payload refl,
      )

  encode_value_too_large :
      (v : j.Value) (payload out : List ℕ)
      → j.to_writer v ≡ (payload, ok tt)
      → max_frame_bytes < length payload
      → encode_value j v out ≡ (out, err (payload_too_large (length payload)))
  unfolding encode_value finish
  encode_value_too_large v payload out written big = rw (
    written,
    lt→ltb max_frame_bytes (length payload) big,
    take_front out (replicate 4 0 ++ payload),
  )

  frame-length :
      (payload rest : List ℕ)
      → length payload ≤ max_frame_bytes
      → of_le (slice 0 4 (frame payload ++ rest)) ≡ length payload
  frame-length payload rest fits = of_le-to_le 4 (length payload) (omega (arith, fits))

  payload_slice :
      (payload rest : List ℕ) → slice 4 (length payload) (frame payload ++ rest) ≡ payload
  payload_slice payload rest = take_front payload rest

  decode_value-frame :
      (v : j.Value) (payload rest : List ℕ)
      → j.from_slice payload ≡ ok v
      → length payload ≤ max_frame_bytes
      → decode_value j (frame payload ++ rest) ≡ ok (v, 4 + length payload)
  unfolding decode_value
  decode_value-frame v payload rest read fits =
      let size = length-append payload rest in
      rw (
        le→not-ltb (length (frame payload ++ rest)) 4 (omega arith),
        read_le_in {E = FrameError j.JsonError} 4 0 (frame payload ++ rest) (omega arith),
        frame-length payload rest fits,
        le→not-ltb max_frame_bytes (length payload) fits,
        le→not-ltb (length (frame payload ++ rest)) (4 + length payload) (omega (arith, size)),
        read_slice_in {E = FrameError j.JsonError} 4 (length payload) (frame payload ++ rest)
            (omega (arith, size)),
        payload_slice payload rest,
        read,
      )

  -- A reader that has only a piece of a frame is told that it is incomplete, with the number of
  -- bytes that it has, and asked for more than it has and no more than the frame has.
  pub decode_value_piece :
      (payload buf rest : List ℕ)
      → length payload ≤ max_frame_bytes
      → buf ++ rest ≡ frame payload
      → length buf < 4 + length payload
      → (need : ℕ) × (length buf < need)
        × (need ≤ 4 + length payload)
        × (decode_value j buf ≡ err (incomplete (length buf) need))
  unfolding decode_value
  decode_value_piece payload buf rest fits joined short = elim (lt_or_le (length buf) 4) [
    | inl header ↦ (4, header, omega arith, rw (lt→ltb (length buf) 4 header))
    | inr room ↦
        let len : of_le (slice 0 4 buf) ≡ length payload =
          ap of_le (sym (take_within 4 buf rest room) ∙ ap (take 4) joined)
          ∙ of_le-to_le 4 (length payload) (omega (arith, fits)) in
        (
          4 + length payload,
          short,
          omega arith,
          rw (
            le→not-ltb (length buf) 4 room,
            read_le_in {E = FrameError j.JsonError} 4 0 buf room,
            len,
            le→not-ltb max_frame_bytes (length payload) fits,
            lt→ltb (length buf) (4 + length payload) short,
          ),
        )
  ]

  encode_value_failed :
      (v : j.Value) (out : List ℕ)
      → ((u : Unit {0}) → ¬ ((j.to_writer v).1 ≡ ok u))
      → ((encode_value j v out).0 ≡ out ++ (replicate 4 0 ++ (j.to_writer v).0))
        × ((n : ℕ) → ¬ ((encode_value j v out).1 ≡ ok n))
  unfolding encode_value finish
  encode_value_failed v out bad =
      go (out ++ (replicate 4 0 ++ (j.to_writer v).0)) (length out) (length (j.to_writer v).0)
        (j.to_writer v).1 bad
    where
      go :
          (whole : List ℕ) (start n : ℕ) (written : Outcome j.JsonError (Unit {0}))
          → ((u : Unit {0}) → ¬ (written ≡ ok u))
          → ((finish j whole start n (map_err written)).0 ≡ whole)
            × ((k : ℕ) → ¬ ((finish j whole start n (map_err written)).1 ≡ ok k))
      go whole start n (ok u) no_value = absurd (no_value u refl)
      go whole start n (err e) no_value = (refl, λ k h. cc h)
      go whole start n Outcome.panic no_value = (refl, λ k h. cc h)

  -- Where serde reads back what it wrote: a value whose text has at most 16 MiB is appended as a
  -- frame, which decodes to the value and to the frame's length, whatever bytes follow it. A longer
  -- one is refused and the buffer is as it was. A value that serde does not write whole is refused,
  -- and leaves an empty header and what was written of it in the buffer.
  pub decode_value-encode_value :
      (v : j.Value) (out rest : List ℕ)
      → IsJson j
      → (((j.to_writer v).1 ≡ ok tt)
          × (length (j.to_writer v).0 ≤ max_frame_bytes)
          × (encode_value j v out
              ≡ (out ++ frame (j.to_writer v).0, ok (4 + length (j.to_writer v).0)))
          × (decode_value j (frame (j.to_writer v).0 ++ rest)
              ≡ ok (v, 4 + length (j.to_writer v).0)))
        ⊎ (((j.to_writer v).1 ≡ ok tt)
            × (max_frame_bytes < length (j.to_writer v).0)
            × (encode_value j v out ≡ (out, err (payload_too_large (length (j.to_writer v).0)))))
        ⊎ (((u : Unit {0}) → ¬ ((j.to_writer v).1 ≡ ok u))
            × ((encode_value j v out).0 ≡ out ++ (replicate 4 0 ++ (j.to_writer v).0))
            × ((n : ℕ) → ¬ ((encode_value j v out).1 ≡ ok n)))
  decode_value-encode_value v out rest law = elim (Outcome-cases (j.to_writer v).1) [
    | inr bad ↦
        let (left, refused) = encode_value_failed v out bad in inr (inr (bad, left, refused))
    | inl (u, e) ↦
        let payload = (j.to_writer v).0 in
        let written : j.to_writer v ≡ (payload, ok tt) = λ i. (payload, e i) in
        elim (lt_or_le max_frame_bytes (length payload)) [
          | inl big ↦ inr (inl (e, big, encode_value_too_large v payload out written big))
          | inr fits ↦ inl (
            e,
            fits,
            encode_value-frame v payload out written fits,
            decode_value-frame v payload rest (law.from_slice-to_writer v payload written) fits,
          )
        ]
  ]
