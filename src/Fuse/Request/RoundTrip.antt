-- ===== src/Fuse/Request/RoundTrip.antt =====
-- crates/virtio-fs/src/dispatch.rs: what a guest lays out is what `parse_request` gives.
use rust_nano_vm.Prelude.{ℕ, ◌≡◌, List, [], ◌∷◌, ◌++◌, All}
use rust_nano_vm.Bytes.Wire.{Wire, AllFit, encoded}
use rust_nano_vm.Fuse.InHeader.{widths, values}
use rust_nano_vm.Fuse.InHeader
use rust_nano_vm.Fuse.Request.{FuseRequest}
use rust_nano_vm.Fuse.Body.InitIn
use rust_nano_vm.Fuse.Body.ForgetIn
use rust_nano_vm.Fuse.Body.GetattrIn
use rust_nano_vm.Fuse.Body.SetattrIn
use rust_nano_vm.Fuse.Body.MknodIn
use rust_nano_vm.Fuse.Body.MkdirIn
use rust_nano_vm.Fuse.Body.RenameIn
use rust_nano_vm.Fuse.Body.LinkIn
use rust_nano_vm.Fuse.Body.OpenIn
use rust_nano_vm.Fuse.Body.ReadIn
use rust_nano_vm.Fuse.Body.WriteIn
use rust_nano_vm.Fuse.Body.ReleaseIn
use rust_nano_vm.Fuse.Body.FsyncIn
use rust_nano_vm.Fuse.Body.FlushIn

abbrev two_names : List ℕ → List ℕ → List ℕ
two_names first second = first ++ (0 ∷ (second ++ (0 ∷ [])))

-- The bytes that follow the header of a request, as the FUSE protocol lays them out.
abbrev pub layout : FuseRequest → List ℕ
layout (FuseRequest.init body) = encoded InitIn.wire.widths (InitIn.wire.values body)
layout (FuseRequest.forget body) = encoded ForgetIn.wire.widths (ForgetIn.wire.values body)
layout (FuseRequest.getattr body) = encoded GetattrIn.wire.widths (GetattrIn.wire.values body)
layout (FuseRequest.setattr body) = encoded SetattrIn.wire.widths (SetattrIn.wire.values body)
layout (FuseRequest.lookup name) = name
layout FuseRequest.readlink = []
layout (FuseRequest.mknod body rest) =
    encoded MknodIn.wire.widths (MknodIn.wire.values body) ++ rest
layout (FuseRequest.mkdir body rest) =
    encoded MkdirIn.wire.widths (MkdirIn.wire.values body) ++ rest
layout (FuseRequest.unlink name) = name
layout (FuseRequest.rmdir name) = name
layout (FuseRequest.symlink name target) = two_names name target
layout (FuseRequest.rename body old_name new_name) =
    encoded RenameIn.wire.widths (RenameIn.wire.values body) ++ two_names old_name new_name
layout (FuseRequest.link body rest) = encoded LinkIn.wire.widths (LinkIn.wire.values body) ++ rest
layout (FuseRequest.open_op body) = encoded OpenIn.wire.widths (OpenIn.wire.values body)
layout (FuseRequest.read body) = encoded ReadIn.wire.widths (ReadIn.wire.values body)
layout (FuseRequest.write body rest) =
    encoded WriteIn.wire.widths (WriteIn.wire.values body) ++ rest
layout FuseRequest.statfs = []
layout (FuseRequest.release body) = encoded ReleaseIn.wire.widths (ReleaseIn.wire.values body)
layout (FuseRequest.fsync body) = encoded FsyncIn.wire.widths (FsyncIn.wire.values body)
layout (FuseRequest.flush body) = encoded FlushIn.wire.widths (FlushIn.wire.values body)
layout (FuseRequest.opendir body) = encoded OpenIn.wire.widths (OpenIn.wire.values body)
layout (FuseRequest.readdir body) = encoded ReadIn.wire.widths (ReadIn.wire.values body)
layout (FuseRequest.releasedir body) = encoded ReleaseIn.wire.widths (ReleaseIn.wire.values body)
layout FuseRequest.destroy = []

abbrev NoNul : List ℕ → Type 0
NoNul name = All (λ b. ¬ (b ≡ 0)) name

-- The numbers fit their fields, and the two names that are told apart by a NUL have none.
abbrev pub IsRequest : FuseRequest → Type 0
IsRequest (FuseRequest.init body) = AllFit InitIn.wire.widths (InitIn.wire.values body)
IsRequest (FuseRequest.forget body) = AllFit ForgetIn.wire.widths (ForgetIn.wire.values body)
IsRequest (FuseRequest.getattr body) = AllFit GetattrIn.wire.widths (GetattrIn.wire.values body)
IsRequest (FuseRequest.setattr body) = AllFit SetattrIn.wire.widths (SetattrIn.wire.values body)
IsRequest (FuseRequest.lookup name) = Unit {0}
IsRequest FuseRequest.readlink = Unit {0}
IsRequest (FuseRequest.mknod body rest) = AllFit MknodIn.wire.widths (MknodIn.wire.values body)
IsRequest (FuseRequest.mkdir body rest) = AllFit MkdirIn.wire.widths (MkdirIn.wire.values body)
IsRequest (FuseRequest.unlink name) = Unit {0}
IsRequest (FuseRequest.rmdir name) = Unit {0}
IsRequest (FuseRequest.symlink name target) = NoNul name × NoNul target
IsRequest (FuseRequest.rename body old_name new_name) =
    AllFit RenameIn.wire.widths (RenameIn.wire.values body) × NoNul old_name × NoNul new_name
IsRequest (FuseRequest.link body rest) = AllFit LinkIn.wire.widths (LinkIn.wire.values body)
IsRequest (FuseRequest.open_op body) = AllFit OpenIn.wire.widths (OpenIn.wire.values body)
IsRequest (FuseRequest.read body) = AllFit ReadIn.wire.widths (ReadIn.wire.values body)
IsRequest (FuseRequest.write body rest) = AllFit WriteIn.wire.widths (WriteIn.wire.values body)
IsRequest FuseRequest.statfs = Unit {0}
IsRequest (FuseRequest.release body) = AllFit ReleaseIn.wire.widths (ReleaseIn.wire.values body)
IsRequest (FuseRequest.fsync body) = AllFit FsyncIn.wire.widths (FsyncIn.wire.values body)
IsRequest (FuseRequest.flush body) = AllFit FlushIn.wire.widths (FlushIn.wire.values body)
IsRequest (FuseRequest.opendir body) = AllFit OpenIn.wire.widths (OpenIn.wire.values body)
IsRequest (FuseRequest.readdir body) = AllFit ReadIn.wire.widths (ReadIn.wire.values body)
IsRequest (FuseRequest.releasedir body) = AllFit ReleaseIn.wire.widths (ReleaseIn.wire.values body)
IsRequest FuseRequest.destroy = Unit {0}
