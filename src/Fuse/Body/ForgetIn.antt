-- ===== src/Fuse/Body/ForgetIn.antt =====
-- crates/virtio-fs/src/body.rs: `FuseForgetIn`.
use rust_nano_vm.Prelude.{
  ℕ, refl, List, [], ◌∷◌, length, replicate, ltb, if◌then◌else◌, Outcome, ok, err, ◌>>=◌,
}
use rust_nano_vm.Bytes.Endian.{to_le}
use rust_nano_vm.Bytes.Buffer.{read_le, write_slice}
use rust_nano_vm.Bytes.Wire.{Wire, IsWire}
use rust_nano_vm.Fuse.Flat.{Flat, flat-IsWire}
use rust_nano_vm.Fuse.Error.{FuseError, short_header, short_buffer, as_array}

abbrev pub fuse_forget_in_len : ℕ
fuse_forget_in_len = 8

pub record FuseForgetIn : Type 0 where
  pub nlookup : ℕ

unfoldable pub from_bytes : List ℕ → Outcome FuseError FuseForgetIn
from_bytes buf =
    if ltb (length buf) fuse_forget_in_len
    then err (short_header (length buf) fuse_forget_in_len)
    else do nlookup ← read_le 8 0 buf; ok (record { nlookup = nlookup })

unfoldable pub write_to : FuseForgetIn → List ℕ → Outcome FuseError (List ℕ × ℕ)
write_to s buf =
    if ltb (length buf) fuse_forget_in_len
    then err (short_buffer (length buf) fuse_forget_in_len)
    else do buf ← write_slice 0 (to_le 8 s.nlookup) buf; ok (buf, fuse_forget_in_len)

unfoldable pub to_bytes : FuseForgetIn → Outcome FuseError (List ℕ)
to_bytes s = as_array (write_to s (replicate fuse_forget_in_len 0))

abbrev pub wire : Wire FuseError FuseForgetIn
wire = record {
  len = fuse_forget_in_len;
  widths = 8 ∷ [];
  values = λ s. s.nlookup ∷ [];
  short_read = short_header;
  short_write = short_buffer;
  from_bytes = from_bytes;
  write_to = write_to;
  to_bytes = to_bytes;
}

flat : Flat wire
unfolding from_bytes write_to to_bytes
flat = record {
  build = λ nlookup. record { nlookup = nlookup };
  all_fields = refl;
  reading = λ buf. refl;
  writing = λ s buf. refl;
  making = λ s. refl;
  rebuilt = λ s. refl;
  read_back = λ buf. refl;
}

pub wire-IsWire : IsWire wire
wire-IsWire = flat-IsWire flat
