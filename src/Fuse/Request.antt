-- ===== src/Fuse/Request.antt =====
-- crates/virtio-fs/src/dispatch.rs: `FuseRequest` and `parse_request`.
pub mod Bodies
pub mod Parsed
pub mod RoundTrip
use rust_nano_vm.Prelude.{
  ℕ, ◌+◌, ◌-◌, Option, none, some, List, [], ◌∷◌, length, drop, ◌==◌, if◌then◌else◌, Outcome, ok,
  err, ◌>>=◌,
}
use rust_nano_vm.Bytes.Buffer.{read_slice}
use rust_nano_vm.Fuse.Error.{FuseError, short_header}
use rust_nano_vm.Fuse.Opcode.{FuseOpcode}
use rust_nano_vm.Fuse.InHeader.{FuseInHeader, fuse_in_hdr_len}
use rust_nano_vm.Fuse.InHeader
use rust_nano_vm.Fuse.Body.InitIn.{FuseInitIn}
use rust_nano_vm.Fuse.Body.InitIn
use rust_nano_vm.Fuse.Body.ForgetIn.{FuseForgetIn}
use rust_nano_vm.Fuse.Body.ForgetIn
use rust_nano_vm.Fuse.Body.GetattrIn.{FuseGetattrIn}
use rust_nano_vm.Fuse.Body.GetattrIn
use rust_nano_vm.Fuse.Body.SetattrIn.{FuseSetattrIn}
use rust_nano_vm.Fuse.Body.SetattrIn
use rust_nano_vm.Fuse.Body.MknodIn.{FuseMknodIn}
use rust_nano_vm.Fuse.Body.MknodIn
use rust_nano_vm.Fuse.Body.MkdirIn.{FuseMkdirIn}
use rust_nano_vm.Fuse.Body.MkdirIn
use rust_nano_vm.Fuse.Body.RenameIn.{FuseRenameIn}
use rust_nano_vm.Fuse.Body.RenameIn
use rust_nano_vm.Fuse.Body.LinkIn.{FuseLinkIn}
use rust_nano_vm.Fuse.Body.LinkIn
use rust_nano_vm.Fuse.Body.OpenIn.{FuseOpenIn}
use rust_nano_vm.Fuse.Body.OpenIn
use rust_nano_vm.Fuse.Body.ReadIn.{FuseReadIn}
use rust_nano_vm.Fuse.Body.ReadIn
use rust_nano_vm.Fuse.Body.WriteIn.{FuseWriteIn}
use rust_nano_vm.Fuse.Body.WriteIn
use rust_nano_vm.Fuse.Body.ReleaseIn.{FuseReleaseIn}
use rust_nano_vm.Fuse.Body.ReleaseIn
use rust_nano_vm.Fuse.Body.FsyncIn.{FuseFsyncIn}
use rust_nano_vm.Fuse.Body.FsyncIn
use rust_nano_vm.Fuse.Body.FlushIn.{FuseFlushIn}
use rust_nano_vm.Fuse.Body.FlushIn

pub data FuseRequest : Type 0 where
  init : FuseInitIn → FuseRequest
  forget : FuseForgetIn → FuseRequest
  getattr : FuseGetattrIn → FuseRequest
  setattr : FuseSetattrIn → FuseRequest
  lookup : (name : List ℕ) → FuseRequest
  readlink : FuseRequest
  mknod : (body : FuseMknodIn) (name : List ℕ) → FuseRequest
  mkdir : (body : FuseMkdirIn) (name : List ℕ) → FuseRequest
  unlink : (name : List ℕ) → FuseRequest
  rmdir : (name : List ℕ) → FuseRequest
  symlink : (name target : List ℕ) → FuseRequest
  rename : (body : FuseRenameIn) (old_name new_name : List ℕ) → FuseRequest
  link : (body : FuseLinkIn) (name : List ℕ) → FuseRequest
  open_op : FuseOpenIn → FuseRequest
  read : FuseReadIn → FuseRequest
  write : (body : FuseWriteIn) (data_bytes : List ℕ) → FuseRequest
  statfs : FuseRequest
  release : FuseReleaseIn → FuseRequest
  fsync : FuseFsyncIn → FuseRequest
  flush : FuseFlushIn → FuseRequest
  opendir : FuseOpenIn → FuseRequest
  readdir : FuseReadIn → FuseRequest
  releasedir : FuseReleaseIn → FuseRequest
  destroy : FuseRequest

-- The bytes before the first NUL, and those after it.
abbrev with_byte : ℕ → Option (List ℕ × List ℕ) → Option (List ℕ × List ℕ)
with_byte b none = none
with_byte b (some (before, after)) = some (b ∷ before, after)

unfoldable pub at_nul : List ℕ → Option (List ℕ × List ℕ)
at_nul [] = none
at_nul (b ∷ bs) = let rest = at_nul bs in if b == 0 then some ([], bs) else with_byte b rest

unfoldable pub split_nul : List ℕ → Outcome FuseError (List ℕ × List ℕ)
split_nul buf = elim (at_nul buf) [
  | some parts ↦ ok parts
  | none ↦ err (short_header (length buf) (length buf + 1))
]

unfoldable pub split_two_nul_strings : List ℕ → Outcome FuseError (List ℕ × List ℕ)
split_two_nul_strings buf = do
  (first, rest) ← split_nul buf
  (second, _) ← split_nul rest
  ok (first, second)

-- The match of `parse_request`, on the bytes after the header.
unfoldable pub parse_body : FuseOpcode → List ℕ → Outcome FuseError FuseRequest
parse_body FuseOpcode.init body = InitIn.from_bytes body >>= λ b. ok (FuseRequest.init b)
parse_body FuseOpcode.forget body = ForgetIn.from_bytes body >>= λ b. ok (FuseRequest.forget b)
parse_body FuseOpcode.getattr body = GetattrIn.from_bytes body >>= λ b. ok (FuseRequest.getattr b)
parse_body FuseOpcode.setattr body = SetattrIn.from_bytes body >>= λ b. ok (FuseRequest.setattr b)
parse_body FuseOpcode.lookup body = ok (FuseRequest.lookup body)
parse_body FuseOpcode.readlink body = ok FuseRequest.readlink
parse_body FuseOpcode.mknod body =
    MknodIn.from_bytes body >>= λ b. ok (FuseRequest.mknod b (drop MknodIn.fuse_mknod_in_len body))
parse_body FuseOpcode.mkdir body =
    MkdirIn.from_bytes body >>= λ b. ok (FuseRequest.mkdir b (drop MkdirIn.fuse_mkdir_in_len body))
parse_body FuseOpcode.unlink body = ok (FuseRequest.unlink body)
parse_body FuseOpcode.rmdir body = ok (FuseRequest.rmdir body)
parse_body FuseOpcode.symlink body =
    split_two_nul_strings body >>= λ names. ok (FuseRequest.symlink names.0 names.1)
parse_body FuseOpcode.rename body = RenameIn.from_bytes body >>= λ b.
    split_two_nul_strings (drop RenameIn.fuse_rename_in_len body) >>= λ names.
    ok (FuseRequest.rename b names.0 names.1)
parse_body FuseOpcode.link body =
    LinkIn.from_bytes body >>= λ b. ok (FuseRequest.link b (drop LinkIn.fuse_link_in_len body))
parse_body FuseOpcode.open_op body = OpenIn.from_bytes body >>= λ b. ok (FuseRequest.open_op b)
parse_body FuseOpcode.read body = ReadIn.from_bytes body >>= λ b. ok (FuseRequest.read b)
parse_body FuseOpcode.write body =
    WriteIn.from_bytes body >>= λ b. ok (FuseRequest.write b (drop WriteIn.fuse_write_in_len body))
parse_body FuseOpcode.statfs body = ok FuseRequest.statfs
parse_body FuseOpcode.release body = ReleaseIn.from_bytes body >>= λ b. ok (FuseRequest.release b)
parse_body FuseOpcode.fsync body = FsyncIn.from_bytes body >>= λ b. ok (FuseRequest.fsync b)
parse_body FuseOpcode.flush body = FlushIn.from_bytes body >>= λ b. ok (FuseRequest.flush b)
parse_body FuseOpcode.opendir body = OpenIn.from_bytes body >>= λ b. ok (FuseRequest.opendir b)
parse_body FuseOpcode.readdir body = ReadIn.from_bytes body >>= λ b. ok (FuseRequest.readdir b)
parse_body FuseOpcode.releasedir body =
    ReleaseIn.from_bytes body >>= λ b. ok (FuseRequest.releasedir b)
parse_body FuseOpcode.destroy body = ok FuseRequest.destroy

-- `&buf[FUSE_IN_HDR_LEN..]` would panic on a buffer that is shorter than a header.
unfoldable pub parse_request : List ℕ → Outcome FuseError (FuseInHeader × FuseRequest)
parse_request buf = do
  hdr ← InHeader.from_bytes buf
  body ← read_slice fuse_in_hdr_len (length buf - fuse_in_hdr_len) buf
  req ← parse_body hdr.opcode body
  ok (hdr, req)

-- The operation that a request is one of.
abbrev pub opcode_of : FuseRequest → FuseOpcode
opcode_of (FuseRequest.init b) = FuseOpcode.init
opcode_of (FuseRequest.forget b) = FuseOpcode.forget
opcode_of (FuseRequest.getattr b) = FuseOpcode.getattr
opcode_of (FuseRequest.setattr b) = FuseOpcode.setattr
opcode_of (FuseRequest.lookup name) = FuseOpcode.lookup
opcode_of FuseRequest.readlink = FuseOpcode.readlink
opcode_of (FuseRequest.mknod b rest) = FuseOpcode.mknod
opcode_of (FuseRequest.mkdir b rest) = FuseOpcode.mkdir
opcode_of (FuseRequest.unlink name) = FuseOpcode.unlink
opcode_of (FuseRequest.rmdir name) = FuseOpcode.rmdir
opcode_of (FuseRequest.symlink name target) = FuseOpcode.symlink
opcode_of (FuseRequest.rename b old_name new_name) = FuseOpcode.rename
opcode_of (FuseRequest.link b rest) = FuseOpcode.link
opcode_of (FuseRequest.open_op b) = FuseOpcode.open_op
opcode_of (FuseRequest.read b) = FuseOpcode.read
opcode_of (FuseRequest.write b rest) = FuseOpcode.write
opcode_of FuseRequest.statfs = FuseOpcode.statfs
opcode_of (FuseRequest.release b) = FuseOpcode.release
opcode_of (FuseRequest.fsync b) = FuseOpcode.fsync
opcode_of (FuseRequest.flush b) = FuseOpcode.flush
opcode_of (FuseRequest.opendir b) = FuseOpcode.opendir
opcode_of (FuseRequest.readdir b) = FuseOpcode.readdir
opcode_of (FuseRequest.releasedir b) = FuseOpcode.releasedir
opcode_of FuseRequest.destroy = FuseOpcode.destroy
