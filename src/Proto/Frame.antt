-- ===== src/Proto/Frame.antt =====
-- crates/proto/src/frame.rs: length-prefixed frames.
pub mod RoundTrip
use rust_nano_vm.Prelude.{
  ℕ, zero, suc, ◌+◌, ◌*◌, ◌%◌, ◌^◌, ◌≡◌, Bool, List, [], ◌∷◌, ◌++◌, length, take, drop, replicate,
  ltb, if◌then◌else◌, Outcome, ok, err, ◌>>=◌,
}
use rust_nano_vm.Bytes.Endian.{to_le, of_le}
use rust_nano_vm.Bytes.Buffer.{slice, read_le, read_slice, write_slice}

abbrev pub header_bytes : ℕ
header_bytes = 4

abbrev pub max_frame_bytes : ℕ
max_frame_bytes = 16777216

-- What serde_json does with a type: `to_writer` appends bytes and says whether the value was
-- written whole, and `from_slice` reads a whole slice.
pub record Json : Type 1 where
  pub Value : Type 0
  pub JsonError : Type 0
  pub to_writer : Value → List ℕ × Outcome JsonError (Unit {0})
  pub from_slice : List ℕ → Outcome JsonError Value

pub data FrameError (E : Type 0) : Type 0 where
  incomplete : (have need : ℕ) → FrameError E
  invalid_length : (len : ℕ) → FrameError E
  bad_payload : E → FrameError E
  payload_too_large : (bytes : ℕ) → FrameError E

abbrev pub map_err : {A E : Type 0} → Outcome E A → Outcome (FrameError E) A
map_err (ok a) = ok a
map_err (err e) = err (bad_payload e)
map_err Outcome.panic = Outcome.panic

module _ (j : Json) where
  -- The buffer after a call, and what the call came to.
  abbrev pub Encoded : Type 0
  Encoded = List ℕ × Outcome (FrameError j.JsonError) ℕ

  -- The header is patched into its place.
  unfoldable pub patch : List ℕ → ℕ → ℕ → Encoded
  patch out header_start payload_len =
      elim (write_slice {E = FrameError j.JsonError} header_start (to_le 4 (payload_len % 2 ^ 32))
        out) [
          | ok out' ↦ (out', ok (header_bytes + payload_len))
          | err e ↦ (out, err e)
          | Outcome.panic ↦ (out, Outcome.panic)
        ]

  unfoldable pub finish : List ℕ → ℕ → ℕ → Outcome (FrameError j.JsonError) (Unit {0}) → Encoded
  finish out header_start payload_len (ok _) =
      if ltb max_frame_bytes payload_len
      then (take header_start out, err (payload_too_large payload_len))
      else patch out header_start payload_len
  finish out header_start payload_len (err e) = (out, err e)
  finish out header_start payload_len Outcome.panic = (out, Outcome.panic)

  unfoldable pub encode_value : j.Value → List ℕ → Encoded
  encode_value v out =
      let (payload, written) = j.to_writer v in
      finish (out ++ (replicate header_bytes 0 ++ payload)) (length out) (length payload)
        (map_err written)

  -- The value, and the bytes that it took.
  unfoldable pub decode_value : List ℕ → Outcome (FrameError j.JsonError) (j.Value × ℕ)
  decode_value buf =
      if ltb (length buf) header_bytes then err (incomplete (length buf) header_bytes) else do
        len ← read_le 4 0 buf
        if ltb max_frame_bytes len then err (invalid_length len) else do
          let total = header_bytes + len
          if ltb (length buf) total then err (incomplete (length buf) total) else do
            payload ← read_slice header_bytes len buf
            v ← map_err (j.from_slice payload)
            ok (v, total)
