-- ===== src/Fuse/OutHeader.antt =====
-- crates/virtio-fs/src/lib.rs: `FuseOutHeader`. The i32 `error` is its 32-bit pattern.
use rust_nano_vm.Prelude.{
  ℕ, Bool, not, ◌==◌, refl, List, [], ◌∷◌, length, replicate, ltb, if◌then◌else◌, Outcome, ok, err,
  ◌>>=◌,
}
use rust_nano_vm.Words.{wrapping_add, wrapping_sub}
use rust_nano_vm.Bytes.Endian.{to_le}
use rust_nano_vm.Bytes.Buffer.{read_le, write_slice}
use rust_nano_vm.Bytes.Wire.{Wire, IsWire}
use rust_nano_vm.Fuse.Flat.{Flat, flat-IsWire}
use rust_nano_vm.Fuse.Error.{FuseError, short_header, short_buffer, as_array}

abbrev pub fuse_out_hdr_len : ℕ
fuse_out_hdr_len = 16

pub record FuseOutHeader : Type 0 where
  pub len : ℕ
  pub error : ℕ
  pub unique : ℕ

unfoldable pub from_bytes : List ℕ → Outcome FuseError FuseOutHeader
from_bytes buf =
    if ltb (length buf) fuse_out_hdr_len
    then err (short_header (length buf) fuse_out_hdr_len)
    else do
      len ← read_le 4 0 buf
      error ← read_le 4 4 buf
      unique ← read_le 8 8 buf
      ok (record { len = len; error = error; unique = unique })

unfoldable pub write_to : FuseOutHeader → List ℕ → Outcome FuseError (List ℕ × ℕ)
write_to s buf =
    if ltb (length buf) fuse_out_hdr_len
    then err (short_buffer (length buf) fuse_out_hdr_len)
    else do
      buf ← write_slice 0 (to_le 4 s.len) buf
      buf ← write_slice 4 (to_le 4 s.error) buf
      buf ← write_slice 8 (to_le 8 s.unique) buf
      ok (buf, fuse_out_hdr_len)

unfoldable pub to_bytes : FuseOutHeader → Outcome FuseError (List ℕ)
to_bytes s = as_array (write_to s (replicate fuse_out_hdr_len 0))

-- `FuseOutHeader::ok`, whose sum wraps as in a build without overflow checks.
unfoldable pub ok_header : ℕ → ℕ → FuseOutHeader
ok_header unique body_len = record {
  len = wrapping_add 32 fuse_out_hdr_len body_len;
  error = 0;
  unique = unique;
}

-- `FuseOutHeader::err`: the negated number.
unfoldable pub err_header : ℕ → ℕ → FuseOutHeader
err_header unique errno = record {
  len = fuse_out_hdr_len;
  error = wrapping_sub 32 0 errno;
  unique = unique;
}

unfoldable pub is_error : FuseOutHeader → Bool
is_error h = not (h.error == 0)

abbrev pub wire : Wire FuseError FuseOutHeader
wire = record {
  len = fuse_out_hdr_len;
  widths = 4 ∷ 4 ∷ 8 ∷ [];
  values = λ s. s.len ∷ s.error ∷ s.unique ∷ [];
  short_read = short_header;
  short_write = short_buffer;
  from_bytes = from_bytes;
  write_to = write_to;
  to_bytes = to_bytes;
}

flat : Flat wire
unfolding from_bytes write_to to_bytes
flat = record {
  build = λ len error unique. record { len = len; error = error; unique = unique };
  all_fields = refl;
  reading = λ buf. refl;
  writing = λ s buf. refl;
  making = λ s. refl;
  rebuilt = λ s. refl;
  read_back = λ buf. refl;
}

pub wire-IsWire : IsWire wire
wire-IsWire = flat-IsWire flat
