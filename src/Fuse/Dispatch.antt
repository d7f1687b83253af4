-- ===== src/Fuse/Dispatch.antt =====
-- crates/virtio-fs/src/dispatch.rs: `FuseHandler` and `dispatch`. An errno is its 32-bit pattern.
pub mod Replies
use rust_nano_vm.Prelude.{
  ℕ, ◌-◌, ◌%◌, ◌^◌, Option, none, some, List, [], ◌++◌, length, ltb, if◌then◌else◌, Outcome, ok,
  err, ◌>>=◌,
}
use rust_nano_vm.Fuse.Error.{FuseError}
use rust_nano_vm.Fuse.InHeader.{FuseInHeader}
use rust_nano_vm.Fuse.OutHeader.{ok_header, err_header}
use rust_nano_vm.Fuse.OutHeader
use rust_nano_vm.Fuse.Request.{FuseRequest}
use rust_nano_vm.Fuse.Body.InitIn.{FuseInitIn}
use rust_nano_vm.Fuse.Body.ForgetIn.{FuseForgetIn}
use rust_nano_vm.Fuse.Body.GetattrIn.{FuseGetattrIn}
use rust_nano_vm.Fuse.Body.SetattrIn.{FuseSetattrIn}
use rust_nano_vm.Fuse.Body.MknodIn.{FuseMknodIn}
use rust_nano_vm.Fuse.Body.MkdirIn.{FuseMkdirIn}
use rust_nano_vm.Fuse.Body.RenameIn.{FuseRenameIn}
use rust_nano_vm.Fuse.Body.LinkIn.{FuseLinkIn}
use rust_nano_vm.Fuse.Body.OpenIn.{FuseOpenIn}
use rust_nano_vm.Fuse.Body.ReadIn.{FuseReadIn}
use rust_nano_vm.Fuse.Body.WriteIn.{FuseWriteIn}
use rust_nano_vm.Fuse.Body.ReleaseIn.{FuseReleaseIn}
use rust_nano_vm.Fuse.Body.FsyncIn.{FuseFsyncIn}
use rust_nano_vm.Fuse.Body.FlushIn.{FuseFlushIn}
use rust_nano_vm.Fuse.Body.AttrOut.{FuseAttrOut}
use rust_nano_vm.Fuse.Body.AttrOut
use rust_nano_vm.Fuse.Body.EntryOut.{FuseEntryOut}
use rust_nano_vm.Fuse.Body.EntryOut
use rust_nano_vm.Fuse.Body.InitOut.{FuseInitOut}
use rust_nano_vm.Fuse.Body.InitOut
use rust_nano_vm.Fuse.Body.OpenOut.{FuseOpenOut}
use rust_nano_vm.Fuse.Body.OpenOut
use rust_nano_vm.Fuse.Body.StatfsOut.{FuseStatfsOut}
use rust_nano_vm.Fuse.Body.StatfsOut
use rust_nano_vm.Fuse.Body.WriteOut.{FuseWriteOut}
use rust_nano_vm.Fuse.Body.WriteOut

abbrev pub enosys : ℕ
enosys = 38

-- A method changes the handler's state and gives a value, an errno, or a panic.
abbrev pub Method : Type 0 → Type 0 → Type 0
Method S A = S → S × Outcome ℕ A

pub record FuseHandler : Type 1 where
  pub State : Type 0
  pub init : FuseInHeader → FuseInitIn → Method State FuseInitOut
  pub forget : FuseInHeader → FuseForgetIn → State → State
  pub getattr : FuseInHeader → FuseGetattrIn → Method State FuseAttrOut
  pub setattr : FuseInHeader → FuseSetattrIn → Method State FuseAttrOut
  pub lookup : FuseInHeader → List ℕ → Method State FuseEntryOut
  pub readlink : FuseInHeader → Method State (List ℕ)
  pub mknod : FuseInHeader → FuseMknodIn → List ℕ → Method State FuseEntryOut
  pub mkdir : FuseInHeader → FuseMkdirIn → List ℕ → Method State FuseEntryOut
  pub unlink : FuseInHeader → List ℕ → Method State (Unit {0})
  pub rmdir : FuseInHeader → List ℕ → Method State (Unit {0})
  pub symlink : FuseInHeader → List ℕ → List ℕ → Method State FuseEntryOut
  pub rename : FuseInHeader → FuseRenameIn → List ℕ → List ℕ → Method State (Unit {0})
  pub link : FuseInHeader → FuseLinkIn → List ℕ → Method State FuseEntryOut
  pub open_file : FuseInHeader → FuseOpenIn → Method State FuseOpenOut
  pub read : FuseInHeader → FuseReadIn → Method State (List ℕ)
  pub write : FuseInHeader → FuseWriteIn → List ℕ → Method State FuseWriteOut
  pub statfs : FuseInHeader → Method State FuseStatfsOut
  pub release : FuseInHeader → FuseReleaseIn → Method State (Unit {0})
  pub fsync : FuseInHeader → FuseFsyncIn → Method State (Unit {0})
  pub flush : FuseInHeader → FuseFlushIn → Method State (Unit {0})
  pub opendir : FuseInHeader → FuseOpenIn → Method State FuseOpenOut
  pub readdir : FuseInHeader → FuseReadIn → Method State (List ℕ)
  pub releasedir : FuseInHeader → FuseReleaseIn → Method State (Unit {0})
  pub destroy : FuseInHeader → State → State

-- The trait's default methods.
abbrev pub unimplemented : Type 0 → FuseHandler
unimplemented S = record {
  State = S;
  init = λ hdr req s. (s, err enosys);
  forget = λ hdr req s. s;
  getattr = λ hdr req s. (s, err enosys);
  setattr = λ hdr req s. (s, err enosys);
  lookup = λ hdr req s. (s, err enosys);
  readlink = λ hdr s. (s, err enosys);
  mknod = λ hdr req name s. (s, err enosys);
  mkdir = λ hdr req name s. (s, err enosys);
  unlink = λ hdr req s. (s, err enosys);
  rmdir = λ hdr req s. (s, err enosys);
  symlink = λ hdr req name s. (s, err enosys);
  rename = λ hdr req name more s. (s, err enosys);
  link = λ hdr req name s. (s, err enosys);
  open_file = λ hdr req s. (s, err enosys);
  read = λ hdr req s. (s, err enosys);
  write = λ hdr req name s. (s, err enosys);
  statfs = λ hdr s. (s, err enosys);
  release = λ hdr req s. (s, err enosys);
  fsync = λ hdr req s. (s, err enosys);
  flush = λ hdr req s. (s, err enosys);
  opendir = λ hdr req s. (s, err enosys);
  readdir = λ hdr req s. (s, err enosys);
  releasedir = λ hdr req s. (s, err enosys);
  destroy = λ hdr s. s;
}

-- `i32::unsigned_abs`
unfoldable pub unsigned_abs : ℕ → ℕ
unsigned_abs errno = if ltb errno (2 ^ 31) then errno else 2 ^ 32 - errno

unfoldable pub encode_result : ℕ → Outcome ℕ (List ℕ) → Outcome FuseError (List ℕ)
encode_result unique (ok body) =
    OutHeader.to_bytes (ok_header unique (length body % 2 ^ 32)) >>= λ hdr. ok (hdr ++ body)
encode_result unique (err errno) = OutHeader.to_bytes (err_header unique (unsigned_abs errno))
encode_result unique Outcome.panic = Outcome.panic

-- What an arm of `dispatch` makes of a method's result: `map(|r| r.to_bytes().to_vec())`, and
-- `map(|()| vec![])`.
abbrev pub in_bytes :
    {A : Type 0} → (A → Outcome FuseError (List ℕ)) → Outcome ℕ A → Outcome ℕ (List ℕ)
in_bytes to_bytes (ok a) = elim (to_bytes a) [ ok bytes ↦ ok bytes | _ ↦ Outcome.panic ]
in_bytes to_bytes (err errno) = err errno
in_bytes to_bytes Outcome.panic = Outcome.panic

abbrev pub empty : Unit {0} → Outcome FuseError (List ℕ)
empty u = ok []

abbrev pub raw : List ℕ → Outcome FuseError (List ℕ)
raw bytes = ok bytes

module _ (h : FuseHandler) where
  abbrev pub Reply : Type 0
  Reply = h.State × Option (Outcome FuseError (List ℕ))

  abbrev pub replied :
      {A : Type 0} → ℕ → (A → Outcome FuseError (List ℕ)) → h.State × Outcome ℕ A → Reply
  replied unique to_bytes (s, r) = (s, some (encode_result unique (in_bytes to_bytes r)))

  unfoldable pub dispatch : FuseInHeader → FuseRequest → h.State → Reply
  dispatch hdr (FuseRequest.init body) s = replied hdr.unique InitOut.to_bytes (h.init hdr body s)
  dispatch hdr (FuseRequest.forget body) s = (h.forget hdr body s, none)
  dispatch hdr (FuseRequest.getattr body) s =
      replied hdr.unique AttrOut.to_bytes (h.getattr hdr body s)
  dispatch hdr (FuseRequest.setattr body) s =
      replied hdr.unique AttrOut.to_bytes (h.setattr hdr body s)
  dispatch hdr (FuseRequest.lookup name) s =
      replied hdr.unique EntryOut.to_bytes (h.lookup hdr name s)
  dispatch hdr FuseRequest.readlink s = replied hdr.unique raw (h.readlink hdr s)
  dispatch hdr (FuseRequest.mknod body rest) s =
      replied hdr.unique EntryOut.to_bytes (h.mknod hdr body rest s)
  dispatch hdr (FuseRequest.mkdir body rest) s =
      replied hdr.unique EntryOut.to_bytes (h.mkdir hdr body rest s)
  dispatch hdr (FuseRequest.unlink name) s = replied hdr.unique empty (h.unlink hdr name s)
  dispatch hdr (FuseRequest.rmdir name) s = replied hdr.unique empty (h.rmdir hdr name s)
  dispatch hdr (FuseRequest.symlink name target) s =
      replied hdr.unique EntryOut.to_bytes (h.symlink hdr name target s)
  dispatch hdr (FuseRequest.rename body old_name new_name) s =
      replied hdr.unique empty (h.rename hdr body old_name new_name s)
  dispatch hdr (FuseRequest.link body rest) s =
      replied hdr.unique EntryOut.to_bytes (h.link hdr body rest s)
  dispatch hdr (FuseRequest.open_op body) s =
      replied hdr.unique OpenOut.to_bytes (h.open_file hdr body s)
  dispatch hdr (FuseRequest.read body) s = replied hdr.unique raw (h.read hdr body s)
  dispatch hdr (FuseRequest.write body rest) s =
      replied hdr.unique WriteOut.to_bytes (h.write hdr body rest s)
  dispatch hdr FuseRequest.statfs s = replied hdr.unique StatfsOut.to_bytes (h.statfs hdr s)
  dispatch hdr (FuseRequest.release body) s = replied hdr.unique empty (h.release hdr body s)
  dispatch hdr (FuseRequest.fsync body) s = replied hdr.unique empty (h.fsync hdr body s)
  dispatch hdr (FuseRequest.flush body) s = replied hdr.unique empty (h.flush hdr body s)
  dispatch hdr (FuseRequest.opendir body) s =
      replied hdr.unique OpenOut.to_bytes (h.opendir hdr body s)
  dispatch hdr (FuseRequest.readdir body) s = replied hdr.unique raw (h.readdir hdr body s)
  dispatch hdr (FuseRequest.releasedir body) s = replied hdr.unique empty (h.releasedir hdr body s)
  dispatch hdr FuseRequest.destroy s = (h.destroy hdr s, none)
