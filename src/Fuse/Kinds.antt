-- ===== src/Fuse/Kinds.antt =====
-- crates/virtio-fs/src/body.rs: what holds of every body, and of the header of a reply.
use rust_nano_vm.Prelude.{
  ℕ, ◌≤◌, ◌<◌, ◌≡◌, refl, ap, ◌∙◌, ◌⊎◌, inl, inr, List, length, take, drop, All, ok, err,
}
use rust_nano_vm.Bytes.Endian.{IsByte}
use rust_nano_vm.Bytes.Wire.{Wire, IsWire, AllFit, from_bytes-write_to, to_bytes-from_bytes}
use rust_nano_vm.Fuse.Error.{FuseError, short_header, short_buffer}
use rust_nano_vm.Fuse.Body.InitIn
use rust_nano_vm.Fuse.Body.InitOut
use rust_nano_vm.Fuse.Body.Attr
use rust_nano_vm.Fuse.Body.EntryOut
use rust_nano_vm.Fuse.Body.OpenIn
use rust_nano_vm.Fuse.Body.OpenOut
use rust_nano_vm.Fuse.Body.ReadIn
use rust_nano_vm.Fuse.Body.WriteIn
use rust_nano_vm.Fuse.Body.WriteOut
use rust_nano_vm.Fuse.Body.FlushIn
use rust_nano_vm.Fuse.Body.ReleaseIn
use rust_nano_vm.Fuse.Body.ForgetIn
use rust_nano_vm.Fuse.Body.GetattrIn
use rust_nano_vm.Fuse.Body.AttrOut
use rust_nano_vm.Fuse.Body.SetattrIn
use rust_nano_vm.Fuse.Body.StatfsOut
use rust_nano_vm.Fuse.Body.MknodIn
use rust_nano_vm.Fuse.Body.MkdirIn
use rust_nano_vm.Fuse.Body.FsyncIn
use rust_nano_vm.Fuse.Body.RenameIn
use rust_nano_vm.Fuse.Body.LinkIn
use rust_nano_vm.Fuse.Body.DirentHeader
use rust_nano_vm.Fuse.OutHeader

-- The structs of a FUSE message that have nothing but numbers.
pub data Kind : Type 0 where
  init_in init_out attr entry_out open_in open_out read_in write_in write_out flush_in release_in
        forget_in getattr_in attr_out setattr_in statfs_out mknod_in mkdir_in fsync_in rename_in
        link_in dirent_header out_header :
      Kind

abbrev pub Carrier : Kind → Type 0
Carrier init_in = InitIn.FuseInitIn
Carrier init_out = InitOut.FuseInitOut
Carrier attr = Attr.FuseAttr
Carrier entry_out = EntryOut.FuseEntryOut
Carrier open_in = OpenIn.FuseOpenIn
Carrier open_out = OpenOut.FuseOpenOut
Carrier read_in = ReadIn.FuseReadIn
Carrier write_in = WriteIn.FuseWriteIn
Carrier write_out = WriteOut.FuseWriteOut
Carrier flush_in = FlushIn.FuseFlushIn
Carrier release_in = ReleaseIn.FuseReleaseIn
Carrier forget_in = ForgetIn.FuseForgetIn
Carrier getattr_in = GetattrIn.FuseGetattrIn
Carrier attr_out = AttrOut.FuseAttrOut
Carrier setattr_in = SetattrIn.FuseSetattrIn
Carrier statfs_out = StatfsOut.FuseStatfsOut
Carrier mknod_in = MknodIn.FuseMknodIn
Carrier mkdir_in = MkdirIn.FuseMkdirIn
Carrier fsync_in = FsyncIn.FuseFsyncIn
Carrier rename_in = RenameIn.FuseRenameIn
Carrier link_in = LinkIn.FuseLinkIn
Carrier dirent_header = DirentHeader.FuseDirentHeader
Carrier out_header = OutHeader.FuseOutHeader

abbrev pub wire_of : (k : Kind) → Wire FuseError (Carrier k)
wire_of init_in = InitIn.wire
wire_of init_out = InitOut.wire
wire_of attr = Attr.wire
wire_of entry_out = EntryOut.wire
wire_of open_in = OpenIn.wire
wire_of open_out = OpenOut.wire
wire_of read_in = ReadIn.wire
wire_of write_in = WriteIn.wire
wire_of write_out = WriteOut.wire
wire_of flush_in = FlushIn.wire
wire_of release_in = ReleaseIn.wire
wire_of forget_in = ForgetIn.wire
wire_of getattr_in = GetattrIn.wire
wire_of attr_out = AttrOut.wire
wire_of setattr_in = SetattrIn.wire
wire_of statfs_out = StatfsOut.wire
wire_of mknod_in = MknodIn.wire
wire_of mkdir_in = MkdirIn.wire
wire_of fsync_in = FsyncIn.wire
wire_of rename_in = RenameIn.wire
wire_of link_in = LinkIn.wire
wire_of dirent_header = DirentHeader.wire
wire_of out_header = OutHeader.wire

wire_of-IsWire : (k : Kind) → IsWire (wire_of k)
wire_of-IsWire init_in = InitIn.wire-IsWire
wire_of-IsWire init_out = InitOut.wire-IsWire
wire_of-IsWire attr = Attr.wire-IsWire
wire_of-IsWire entry_out = EntryOut.wire-IsWire
wire_of-IsWire open_in = OpenIn.wire-IsWire
wire_of-IsWire open_out = OpenOut.wire-IsWire
wire_of-IsWire read_in = ReadIn.wire-IsWire
wire_of-IsWire write_in = WriteIn.wire-IsWire
wire_of-IsWire write_out = WriteOut.wire-IsWire
wire_of-IsWire flush_in = FlushIn.wire-IsWire
wire_of-IsWire release_in = ReleaseIn.wire-IsWire
wire_of-IsWire forget_in = ForgetIn.wire-IsWire
wire_of-IsWire getattr_in = GetattrIn.wire-IsWire
wire_of-IsWire attr_out = AttrOut.wire-IsWire
wire_of-IsWire setattr_in = SetattrIn.wire-IsWire
wire_of-IsWire statfs_out = StatfsOut.wire-IsWire
wire_of-IsWire mknod_in = MknodIn.wire-IsWire
wire_of-IsWire mkdir_in = MkdirIn.wire-IsWire
wire_of-IsWire fsync_in = FsyncIn.wire-IsWire
wire_of-IsWire rename_in = RenameIn.wire-IsWire
wire_of-IsWire link_in = LinkIn.wire-IsWire
wire_of-IsWire dirent_header = DirentHeader.wire-IsWire
wire_of-IsWire out_header = OutHeader.wire-IsWire

refuses :
    (k : Kind)
    → ((have need : ℕ) → (wire_of k).short_read have need ≡ short_header have need)
      × ((have need : ℕ) → (wire_of k).short_write have need ≡ short_buffer have need)
refuses init_in = (λ have need. refl, λ have need. refl)
refuses init_out = (λ have need. refl, λ have need. refl)
refuses attr = (λ have need. refl, λ have need. refl)
refuses entry_out = (λ have need. refl, λ have need. refl)
refuses open_in = (λ have need. refl, λ have need. refl)
refuses open_out = (λ have need. refl, λ have need. refl)
refuses read_in = (λ have need. refl, λ have need. refl)
refuses write_in = (λ have need. refl, λ have need. refl)
refuses write_out = (λ have need. refl, λ have need. refl)
refuses flush_in = (λ have need. refl, λ have need. refl)
refuses release_in = (λ have need. refl, λ have need. refl)
refuses forget_in = (λ have need. refl, λ have need. refl)
refuses getattr_in = (λ have need. refl, λ have need. refl)
refuses attr_out = (λ have need. refl, λ have need. refl)
refuses setattr_in = (λ have need. refl, λ have need. refl)
refuses statfs_out = (λ have need. refl, λ have need. refl)
refuses mknod_in = (λ have need. refl, λ have need. refl)
refuses mkdir_in = (λ have need. refl, λ have need. refl)
refuses fsync_in = (λ have need. refl, λ have need. refl)
refuses rename_in = (λ have need. refl, λ have need. refl)
refuses link_in = (λ have need. refl, λ have need. refl)
refuses dirent_header = (λ have need. refl, λ have need. refl)
refuses out_header = (λ have need. refl, λ have need. refl)

-- Every struct whose fields fit their types, written by its `write_to` at the front of a buffer
-- with room for it, is read back as it was by its `from_bytes`; the bytes behind it stay, and its
-- `to_bytes` makes the same bytes. A buffer that is too short is refused, with its length and the
-- struct's.
pub kind_from_bytes-write_to :
    (k : Kind) (s : Carrier k) (buf : List ℕ)
    → AllFit (wire_of k).widths ((wire_of k).values s)
    → (((wire_of k).len ≤ length buf)
        × (out : List ℕ) × ((wire_of k).write_to s buf ≡ ok (out, (wire_of k).len))
        × ((wire_of k).from_bytes out ≡ ok s)
        × ((wire_of k).to_bytes s ≡ ok (take (wire_of k).len out))
        × (drop (wire_of k).len out ≡ drop (wire_of k).len buf))
      ⊎ ((length buf < (wire_of k).len)
          × ((wire_of k).write_to s buf ≡ err (short_buffer (length buf) (wire_of k).len)))
kind_from_bytes-write_to k s buf fit =
    elim (from_bytes-write_to (wire_of k) (wire_of-IsWire k) s buf fit) [
      | inl there ↦ inl there
      | inr (short, e) ↦ inr (short, e ∙ ap err ((refuses k).1 _ _))
    ]

-- The `from_bytes` of every struct reads any bytes that are enough, without a panic, and the
-- struct's `to_bytes` makes the bytes that it was read from; fewer bytes are refused, with their
-- number and the struct's.
pub kind_to_bytes-from_bytes :
    (k : Kind) (buf : List ℕ)
    → All IsByte buf
    → (((wire_of k).len ≤ length buf)
        × (s : Carrier k) × ((wire_of k).from_bytes buf ≡ ok s)
        × AllFit (wire_of k).widths ((wire_of k).values s)
        × ((wire_of k).to_bytes s ≡ ok (take (wire_of k).len buf)))
      ⊎ ((length buf < (wire_of k).len)
          × ((wire_of k).from_bytes buf ≡ err (short_header (length buf) (wire_of k).len)))
kind_to_bytes-from_bytes k buf bytes =
    elim (to_bytes-from_bytes (wire_of k) (wire_of-IsWire k) buf bytes) [
      | inl there ↦ inl there
      | inr (short, e) ↦ inr (short, e ∙ ap err ((refuses k).0 _ _))
    ]
