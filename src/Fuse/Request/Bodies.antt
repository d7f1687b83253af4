-- ===== src/Fuse/Request/Bodies.antt =====
-- crates/virtio-fs/src/dispatch.rs: which bodies are taken as requests, by the operation.
use rust_nano_vm.Prelude.{
  ℕ, ◌+◌, ◌≤◌, ◌<◌, ◌≡◌, refl, ap, sym, ◌∙◌, ◌⊎◌, inl, inr, subst, arith, none, some, Bool-cases,
  ◌==◌, if◌then◌else◌, tally, List, [], ◌∷◌, length, drop, All, Outcome, ok, err, ◌>>=◌,
}
use rust_nano_vm.Bytes.Endian.{IsByte}
use rust_nano_vm.Bytes.Wire.{Wire, IsWire, to_bytes-from_bytes}
use rust_nano_vm.Fuse.Error.{FuseError, short_header}
use rust_nano_vm.Fuse.Opcode.{FuseOpcode}
use rust_nano_vm.Fuse.Request.{
  FuseRequest, at_nul, split_nul, split_two_nul_strings, parse_body, opcode_of,
}
use rust_nano_vm.Fuse.Body.InitIn
use rust_nano_vm.Fuse.Body.ForgetIn
use rust_nano_vm.Fuse.Body.GetattrIn
use rust_nano_vm.Fuse.Body.SetattrIn
use rust_nano_vm.Fuse.Body.MknodIn
use rust_nano_vm.Fuse.Body.MkdirIn
use rust_nano_vm.Fuse.Body.RenameIn
use rust_nano_vm.Fuse.Body.LinkIn
use rust_nano_vm.Fuse.Body.OpenIn
use rust_nano_vm.Fuse.Body.ReadIn
use rust_nano_vm.Fuse.Body.WriteIn
use rust_nano_vm.Fuse.Body.ReleaseIn
use rust_nano_vm.Fuse.Body.FsyncIn
use rust_nano_vm.Fuse.Body.FlushIn

-- The struct that the body of a request of an operation begins with.
abbrev pub struct_len : FuseOpcode → ℕ
struct_len FuseOpcode.lookup = 0
struct_len FuseOpcode.forget = ForgetIn.fuse_forget_in_len
struct_len FuseOpcode.getattr = GetattrIn.fuse_getattr_in_len
struct_len FuseOpcode.setattr = SetattrIn.fuse_setattr_in_len
struct_len FuseOpcode.readlink = 0
struct_len FuseOpcode.symlink = 0
struct_len FuseOpcode.mknod = MknodIn.fuse_mknod_in_len
struct_len FuseOpcode.mkdir = MkdirIn.fuse_mkdir_in_len
struct_len FuseOpcode.unlink = 0
struct_len FuseOpcode.rmdir = 0
struct_len FuseOpcode.rename = RenameIn.fuse_rename_in_len
struct_len FuseOpcode.link = LinkIn.fuse_link_in_len
struct_len FuseOpcode.open_op = OpenIn.fuse_open_in_len
struct_len FuseOpcode.read = ReadIn.fuse_read_in_len
struct_len FuseOpcode.write = WriteIn.fuse_write_in_len
struct_len FuseOpcode.statfs = 0
struct_len FuseOpcode.release = ReleaseIn.fuse_release_in_len
struct_len FuseOpcode.fsync = FsyncIn.fuse_fsync_in_len
struct_len FuseOpcode.flush = FlushIn.fuse_flush_in_len
struct_len FuseOpcode.init = InitIn.fuse_init_in_len
struct_len FuseOpcode.opendir = OpenIn.fuse_open_in_len
struct_len FuseOpcode.readdir = ReadIn.fuse_read_in_len
struct_len FuseOpcode.releasedir = ReleaseIn.fuse_release_in_len
struct_len FuseOpcode.destroy = 0

-- How many NUL-terminated names the parser takes apart behind it.
abbrev pub name_count : FuseOpcode → ℕ
name_count FuseOpcode.symlink = 2
name_count FuseOpcode.rename = 2
name_count _ = 0

abbrev pub nuls : List ℕ → ℕ
nuls = tally (λ b. if b == 0 then 1 else 0)

-- A body that has the struct and the terminators of the names, and one that lacks either.
abbrev pub Whole : FuseOpcode → List ℕ → Type 0
Whole op body = (struct_len op ≤ length body) × (name_count op ≤ nuls (drop (struct_len op) body))

abbrev pub Lacking : FuseOpcode → List ℕ → Type 0
Lacking op body = (length body < struct_len op) ⊎ (nuls (drop (struct_len op) body) < name_count op)

-- What the parser owes for a body: a request of the operation exactly for a whole one, and else a
-- refusal that asks for more bytes than there are.
abbrev pub Judged : FuseOpcode → List ℕ → Outcome FuseError FuseRequest → Type 0
Judged op body (ok req) = (opcode_of req ≡ op) × Whole op body
Judged op body (err (short_header have need)) = (have < need) × Lacking op body
Judged op body (err _) = ⊥
Judged op body Outcome.panic = ⊥

module _ {A : Type 0} (w : Wire FuseError A) (laws : IsWire w) where
  body-Judged :
      (op : FuseOpcode) (body : List ℕ) (k : A → Outcome FuseError FuseRequest)
      → All IsByte body
      → w.len ≡ struct_len op
      → ((have need : ℕ) → w.short_read have need ≡ short_header have need)
      → (struct_len op ≤ length body → (a : A) → Judged op body (k a))
      → Judged op body (w.from_bytes body >>= k)
  body-Judged op body k bytes size short right = elim (to_bytes-from_bytes w laws body bytes) [
    | inl (room, a, read, _, _) ↦
        subst (λ r. Judged op body (r >>= k)) (sym read) (right (omega arith) a)
    | inr (less, refused) ↦
        subst (λ r. Judged op body (r >>= k)) (sym (refused ∙ ap err (short (length body) w.len)))
          (less, inl (omega arith))
  ]

-- A list without a NUL has none, and one with a NUL has one more than what is behind the first.
at_nul-nuls :
    (buf : List ℕ)
    → ((at_nul buf ≡ none) × (nuls buf ≡ 0))
      ⊎ ((parts : List ℕ × List ℕ) × (at_nul buf ≡ some parts) × (nuls buf ≡ 1 + nuls parts.1))
unfolding at_nul
at_nul-nuls [] = inl (refl, refl)
at_nul-nuls (b ∷ bs) = elim (Bool-cases (b == 0)) [
  | inl e ↦ inr (([], bs), rw e refl, rw e refl)
  | inr e ↦ elim (at_nul-nuls bs) [
    | inl (no_nul, count) ↦ inl (rw (e, no_nul) refl, rw e (omega (arith, count)))
    | inr ((before, behind), found, count) ↦
        inr ((b ∷ before, behind), rw (e, found) refl, rw e (omega (arith, count)))
  ]
]

split_nul-nuls :
    (buf : List ℕ)
    → ((split_nul buf ≡ err (short_header (length buf) (length buf + 1))) × (nuls buf ≡ 0))
      ⊎ ((parts : List ℕ × List ℕ) × (split_nul buf ≡ ok parts) × (nuls buf ≡ 1 + nuls parts.1))
unfolding split_nul
split_nul-nuls buf = elim (at_nul-nuls buf) [
  | inl (e, count) ↦ inl (rw (split_nul, e) refl, count)
  | inr (parts, e, count) ↦ inr (parts, rw (split_nul, e) refl, count)
]

two-Judged :
    (op : FuseOpcode) (body : List ℕ) (k : List ℕ × List ℕ → Outcome FuseError FuseRequest)
    → name_count op ≡ 2
    → (2 ≤ nuls (drop (struct_len op) body) → (parts : List ℕ × List ℕ) → Judged op body (k parts))
    → Judged op body (split_two_nul_strings (drop (struct_len op) body) >>= k)
unfolding split_two_nul_strings
two-Judged op body k two right = elim (split_nul-nuls (drop (struct_len op) body)) [
  | inl (e, count) ↦ rw e (omega arith, inr (omega (arith, two, count)))
  | inr (parts, e, count) ↦ elim (split_nul-nuls parts.1) [
    | inl (e', count') ↦ rw (e, e') (omega arith, inr (omega (arith, two, count, count')))
    | inr (more, e', count') ↦ rw (e, e') (right (omega (arith, count, count')) (parts.0, more.0))
  ]
]

-- A body of which nothing is asked.
any-Whole : (body : List ℕ) → (0 ≤ length body) × (0 ≤ nuls body)
any-Whole body = (omega arith, omega arith)

pub parse_body-Judged :
    (op : FuseOpcode) (body : List ℕ) → All IsByte body → Judged op body (parse_body op body)
unfolding parse_body
parse_body-Judged FuseOpcode.init body bytes =
    body-Judged InitIn.wire InitIn.wire-IsWire FuseOpcode.init body _ bytes refl (λ have need. refl)
      (λ room a. (refl, (room, omega arith)))
parse_body-Judged FuseOpcode.forget body bytes =
    body-Judged ForgetIn.wire ForgetIn.wire-IsWire FuseOpcode.forget body _ bytes refl
      (λ have need. refl) (λ room a. (refl, (room, omega arith)))
parse_body-Judged FuseOpcode.getattr body bytes =
    body-Judged GetattrIn.wire GetattrIn.wire-IsWire FuseOpcode.getattr body _ bytes refl
      (λ have need. refl) (λ room a. (refl, (room, omega arith)))
parse_body-Judged FuseOpcode.setattr body bytes =
    body-Judged SetattrIn.wire SetattrIn.wire-IsWire FuseOpcode.setattr body _ bytes refl
      (λ have need. refl) (λ room a. (refl, (room, omega arith)))
parse_body-Judged FuseOpcode.lookup body bytes = (refl, any-Whole body)
parse_body-Judged FuseOpcode.readlink body bytes = (refl, any-Whole body)
parse_body-Judged FuseOpcode.mknod body bytes =
    body-Judged MknodIn.wire MknodIn.wire-IsWire FuseOpcode.mknod body _ bytes refl
      (λ have need. refl) (λ room a. (refl, (room, omega arith)))
parse_body-Judged FuseOpcode.mkdir body bytes =
    body-Judged MkdirIn.wire MkdirIn.wire-IsWire FuseOpcode.mkdir body _ bytes refl
      (λ have need. refl) (λ room a. (refl, (room, omega arith)))
parse_body-Judged FuseOpcode.unlink body bytes = (refl, any-Whole body)
parse_body-Judged FuseOpcode.rmdir body bytes = (refl, any-Whole body)
parse_body-Judged FuseOpcode.symlink body bytes =
    two-Judged FuseOpcode.symlink body _ refl (λ enough parts. (refl, (omega arith, enough)))
parse_body-Judged FuseOpcode.rename body bytes =
    body-Judged RenameIn.wire RenameIn.wire-IsWire FuseOpcode.rename body _ bytes refl
      (λ have need. refl)
      (λ room a. two-Judged FuseOpcode.rename body _ refl (λ enough parts. (refl, (room, enough))))
parse_body-Judged FuseOpcode.link body bytes =
    body-Judged LinkIn.wire LinkIn.wire-IsWire FuseOpcode.link body _ bytes refl (λ have need. refl)
      (λ room a. (refl, (room, omega arith)))
parse_body-Judged FuseOpcode.open_op body bytes =
    body-Judged OpenIn.wire OpenIn.wire-IsWire FuseOpcode.open_op body _ bytes refl
      (λ have need. refl) (λ room a. (refl, (room, omega arith)))
parse_body-Judged FuseOpcode.read body bytes =
    body-Judged ReadIn.wire ReadIn.wire-IsWire FuseOpcode.read body _ bytes refl (λ have need. refl)
      (λ room a. (refl, (room, omega arith)))
parse_body-Judged FuseOpcode.write body bytes =
    body-Judged WriteIn.wire WriteIn.wire-IsWire FuseOpcode.write body _ bytes refl
      (λ have need. refl) (λ room a. (refl, (room, omega arith)))
parse_body-Judged FuseOpcode.statfs body bytes = (refl, any-Whole body)
parse_body-Judged FuseOpcode.release body bytes =
    body-Judged ReleaseIn.wire ReleaseIn.wire-IsWire FuseOpcode.release body _ bytes refl
      (λ have need. refl) (λ room a. (refl, (room, omega arith)))
parse_body-Judged FuseOpcode.fsync body bytes =
    body-Judged FsyncIn.wire FsyncIn.wire-IsWire FuseOpcode.fsync body _ bytes refl
      (λ have need. refl) (λ room a. (refl, (room, omega arith)))
parse_body-Judged FuseOpcode.flush body bytes =
    body-Judged FlushIn.wire FlushIn.wire-IsWire FuseOpcode.flush body _ bytes refl
      (λ have need. refl) (λ room a. (refl, (room, omega arith)))
parse_body-Judged FuseOpcode.opendir body bytes =
    body-Judged OpenIn.wire OpenIn.wire-IsWire FuseOpcode.opendir body _ bytes refl
      (λ have need. refl) (λ room a. (refl, (room, omega arith)))
parse_body-Judged FuseOpcode.readdir body bytes =
    body-Judged ReadIn.wire ReadIn.wire-IsWire FuseOpcode.readdir body _ bytes refl
      (λ have need. refl) (λ room a. (refl, (room, omega arith)))
parse_body-Judged FuseOpcode.releasedir body bytes =
    body-Judged ReleaseIn.wire ReleaseIn.wire-IsWire FuseOpcode.releasedir body _ bytes refl
      (λ have need. refl) (λ room a. (refl, (room, omega arith)))
parse_body-Judged FuseOpcode.destroy body bytes = (refl, any-Whole body)
