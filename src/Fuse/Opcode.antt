-- ===== src/Fuse/Opcode.antt =====
-- crates/virtio-fs/src/lib.rs: `FuseOpcode`, the operation of a request.
use rust_nano_vm.Prelude.{
  ℕ, subst, Bool-cases, ==→eq, Option, some, none, Option-cases, ◌≡◌, refl, ap, sym, ◌∙◌, ◌⊎◌, inl,
  inr, [], ◌∷◌, ◌==◌, Outcome, ok, err,
}
use rust_nano_vm.Maps.{Map, nat_key, get}
use rust_nano_vm.Fuse.Error.{FuseError, unknown_opcode}

pub data FuseOpcode : Type 0 where
  lookup forget getattr setattr readlink symlink mknod mkdir unlink rmdir rename link open_op read
        write statfs release fsync flush init opendir readdir releasedir destroy :
      FuseOpcode

-- The arms of the match.
abbrev pub opcodes : Map ℕ FuseOpcode
opcodes =
    (1, lookup)
    ∷ (2, forget)
    ∷ (3, getattr)
    ∷ (4, setattr)
    ∷ (5, readlink)
    ∷ (6, symlink)
    ∷ (8, mknod)
    ∷ (9, mkdir)
    ∷ (10, unlink)
    ∷ (11, rmdir)
    ∷ (12, rename)
    ∷ (13, link)
    ∷ (14, open_op)
    ∷ (15, read)
    ∷ (16, write)
    ∷ (17, statfs)
    ∷ (18, release)
    ∷ (20, fsync)
    ∷ (25, flush)
    ∷ (26, init)
    ∷ (27, opendir)
    ∷ (28, readdir)
    ∷ (29, releasedir)
    ∷ (38, destroy)
    ∷ []

abbrev known : ℕ → Option FuseOpcode → Outcome FuseError FuseOpcode
known raw (some op) = ok op
known raw none = err (unknown_opcode raw)

unfoldable pub from_raw : ℕ → Outcome FuseError FuseOpcode
from_raw raw = known raw (get raw opcodes)

unfoldable pub as_raw : FuseOpcode → ℕ
as_raw lookup = 1
as_raw forget = 2
as_raw getattr = 3
as_raw setattr = 4
as_raw readlink = 5
as_raw symlink = 6
as_raw mknod = 8
as_raw mkdir = 9
as_raw unlink = 10
as_raw rmdir = 11
as_raw rename = 12
as_raw link = 13
as_raw open_op = 14
as_raw read = 15
as_raw write = 16
as_raw statfs = 17
as_raw release = 18
as_raw fsync = 20
as_raw flush = 25
as_raw init = 26
as_raw opendir = 27
as_raw readdir = 28
as_raw releasedir = 29
as_raw destroy = 38

pub from_raw-as_raw : (op : FuseOpcode) → from_raw (as_raw op) ≡ ok op
unfolding from_raw as_raw get
from_raw-as_raw lookup = refl
from_raw-as_raw forget = refl
from_raw-as_raw getattr = refl
from_raw-as_raw setattr = refl
from_raw-as_raw readlink = refl
from_raw-as_raw symlink = refl
from_raw-as_raw mknod = refl
from_raw-as_raw mkdir = refl
from_raw-as_raw unlink = refl
from_raw-as_raw rmdir = refl
from_raw-as_raw rename = refl
from_raw-as_raw link = refl
from_raw-as_raw open_op = refl
from_raw-as_raw read = refl
from_raw-as_raw write = refl
from_raw-as_raw statfs = refl
from_raw-as_raw release = refl
from_raw-as_raw fsync = refl
from_raw-as_raw flush = refl
from_raw-as_raw init = refl
from_raw-as_raw opendir = refl
from_raw-as_raw readdir = refl
from_raw-as_raw releasedir = refl
from_raw-as_raw destroy = refl

-- Each arm is right.
abbrev Entries : Map ℕ FuseOpcode → Type 0
Entries [] = Unit {0}
Entries ((raw, op) ∷ m) = (as_raw op ≡ raw) × Entries m

all_right : Entries opcodes
unfolding as_raw
all_right = (
  refl,
  (
    refl,
    (
      refl,
      (
        refl,
        (
          refl,
          (
            refl,
            (
              refl,
              (
                refl,
                (
                  refl,
                  (
                    refl,
                    (
                      refl,
                      (
                        refl,
                        (
                          refl,
                          (
                            refl,
                            (
                              refl,
                              (
                                refl,
                                (refl, (refl, (refl, (refl, (refl, (refl, (refl, (refl, tt)))))))),
                              ),
                            ),
                          ),
                        ),
                      ),
                    ),
                  ),
                ),
              ),
            ),
          ),
        ),
      ),
    ),
  ),
)

get-Entries :
    (m : Map ℕ FuseOpcode) (raw : ℕ) (op : FuseOpcode)
    → Entries m
    → get raw m ≡ some op
    → as_raw op ≡ raw
unfolding get
get-Entries [] raw op h e = absurd (cc e)
get-Entries ((k, v) ∷ m) raw op (right, h) e = elim (Bool-cases (raw == k)) [
  | inl same ↦
      let found : v ≡ op = cc (rw (get, same) at e) in
      subst (λ op. as_raw op ≡ raw) found (right ∙ sym (==→eq raw k same))
  | inr other ↦ get-Entries m raw op h (rw (get, other) at e)
]

-- Every number is an operation's, or is none's and refused.
pub from_raw_known :
    (raw : ℕ)
    → ((op : FuseOpcode) × (from_raw raw ≡ ok op) × (as_raw op ≡ raw))
      ⊎ (((op : FuseOpcode) → ¬ (as_raw op ≡ raw)) × (from_raw raw ≡ err (unknown_opcode raw)))
unfolding from_raw
from_raw_known raw = elim (Option-cases (get raw opcodes)) [
  | inl e ↦
      let refused : from_raw raw ≡ err (unknown_opcode raw) = rw (from_raw, e) refl in
      inr (λ op same. cc (sym (from_raw-as_raw op) ∙ ap from_raw same ∙ refused), refused)
  | inr (op, e) ↦ inl (op, rw e refl, get-Entries opcodes raw op all_right e)
]
