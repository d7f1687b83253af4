-- ===== src/Fuse/Dispatch/Replies.antt =====
-- crates/virtio-fs/src/dispatch.rs: the reply that a guest gets.
use rust_nano_vm.Prelude.{
  ℕ, ◌+◌, ◌%◌, ◌^◌, ◌≤◌, ◌≡◌, refl, ap, ◌∙◌, ◌⊎◌, inl, inr, arith, Option, none, some, List, [],
  ◌∷◌, ◌++◌, length, drop, length-append, lt_or_le, Outcome, ok, err, ◌>>=◌,
}
use rust_nano_vm.Words.{wrapping_sub}
use rust_nano_vm.Bytes.Endian.{IsU64}
use rust_nano_vm.Bytes.Wire.{AllFit, encoded, from_bytes-encoded, drop-encoded, length-encoded}
use rust_nano_vm.Fuse.Error.{FuseError}
use rust_nano_vm.Fuse.Opcode.{FuseOpcode}
use rust_nano_vm.Fuse.InHeader.{FuseInHeader}
use rust_nano_vm.Fuse.OutHeader.{
  FuseOutHeader, fuse_out_hdr_len, ok_header, err_header, wire, wire-IsWire,
}
use rust_nano_vm.Fuse.OutHeader
use rust_nano_vm.Fuse.Request.{FuseRequest, opcode_of}
use rust_nano_vm.Fuse.Dispatch.{
  FuseHandler, unsigned_abs, encode_result, in_bytes, Reply, replied, raw, empty, dispatch,
}
use rust_nano_vm.Fuse.Body.AttrOut
use rust_nano_vm.Fuse.Body.EntryOut
use rust_nano_vm.Fuse.Body.InitOut
use rust_nano_vm.Fuse.Body.OpenOut
use rust_nano_vm.Fuse.Body.StatfsOut
use rust_nano_vm.Fuse.Body.WriteOut

-- The bytes of a reply are a header for the request, whose length is theirs, and the body.
pub record Encoded (unique error : ℕ) (body : List ℕ) (r : Outcome FuseError (List ℕ))
    : Type 0 where
  pub out : List ℕ
  pub hdr : FuseOutHeader
  pub made : r ≡ ok out
  pub read : OutHeader.from_bytes out ≡ ok hdr
  pub for_request : hdr.unique ≡ unique
  pub sized : hdr.len ≡ length out
  pub errno : hdr.error ≡ error
  pub behind : drop 16 out ≡ body

-- What a method's result becomes.
abbrev pub IsReply : ℕ → Outcome ℕ (List ℕ) → Outcome FuseError (List ℕ) → Type 0
IsReply unique (ok body) r = (2 ^ 32 ≤ 16 + length body) ⊎ Encoded unique 0 body r
IsReply unique (err errno) r = Encoded unique (wrapping_sub 32 0 (unsigned_abs errno)) [] r
IsReply unique Outcome.panic r = r ≡ Outcome.panic

header-Encoded :
    (hdr : FuseOutHeader) (body : List ℕ) (r : Outcome FuseError (List ℕ))
    → AllFit wire.widths (wire.values hdr)
    → hdr.len ≡ 16 + length body
    → r ≡ ok (encoded wire.widths (wire.values hdr) ++ body)
    → Encoded hdr.unique hdr.error body r
header-Encoded hdr body r fit size made =
    let bytes = encoded wire.widths (wire.values hdr) in
    record {
      out = bytes ++ body;
      hdr = hdr;
      made = made;
      read = from_bytes-encoded wire wire-IsWire hdr body fit;
      for_request = refl;
      sized =
          omega (
            arith,
            size,
            length-append bytes body,
            length-encoded wire.widths (wire.values hdr) fit,
          );
      errno = refl;
      behind = drop-encoded wire wire-IsWire hdr body fit;
    }

append_nil : (xs : List ℕ) → xs ≡ xs ++ []
append_nil [] = refl
append_nil (x ∷ xs) = ap (◌∷◌ x) (append_nil xs)

encode_result-IsReply :
    (unique : ℕ) (r : Outcome ℕ (List ℕ)) → IsU64 unique → IsReply unique r (encode_result unique r)
unfolding encode_result ok_header err_header
encode_result-IsReply unique (ok body) fits = elim (lt_or_le (16 + length body) (2 ^ 32)) [
  | inr big ↦ inl big
  | inl small ↦
      let hdr = ok_header unique (length body % 2 ^ 32) in
      let fit : AllFit wire.widths (wire.values hdr) = (omega arith, (omega arith, (fits, tt))) in
      inr (
        header-Encoded hdr body (encode_result unique (ok body)) fit (omega (arith, small))
          (ap (λ r. r >>= λ hdr. ok (hdr ++ body)) (wire-IsWire.makes hdr fit)))
]
encode_result-IsReply unique (err errno) fits =
    let hdr = err_header unique (unsigned_abs errno) in
    let fit : AllFit wire.widths (wire.values hdr) = (omega arith, (omega arith, (fits, tt))) in
    header-Encoded hdr [] (encode_result unique (err errno)) fit (omega arith)
      (wire-IsWire.makes hdr fit ∙ ap ok (append_nil (encoded wire.widths (wire.values hdr))))
encode_result-IsReply unique Outcome.panic fits = refl

-- The operations that a guest gets no reply to.
abbrev pub Silent : FuseOpcode → Type 0
Silent FuseOpcode.forget = Unit {0}
Silent FuseOpcode.destroy = Unit {0}
Silent _ = ⊥

module _ (h : FuseHandler) where
  abbrev Result : Type 0
  Result = h.State × Option (Outcome ℕ (List ℕ))

  abbrev given : {A : Type 0} → (A → Outcome FuseError (List ℕ)) → h.State × Outcome ℕ A → Result
  given to_bytes (s, r) = (s, some (in_bytes to_bytes r))

  -- The handler's method for a request, with its result as the bytes of a body.
  unfoldable pub called : FuseInHeader → FuseRequest → h.State → Result
  called hdr (FuseRequest.init body) s = given InitOut.to_bytes (h.init hdr body s)
  called hdr (FuseRequest.forget body) s = (h.forget hdr body s, none)
  called hdr (FuseRequest.getattr body) s = given AttrOut.to_bytes (h.getattr hdr body s)
  called hdr (FuseRequest.setattr body) s = given AttrOut.to_bytes (h.setattr hdr body s)
  called hdr (FuseRequest.lookup name) s = given EntryOut.to_bytes (h.lookup hdr name s)
  called hdr FuseRequest.readlink s = given raw (h.readlink hdr s)
  called hdr (FuseRequest.mknod body rest) s = given EntryOut.to_bytes (h.mknod hdr body rest s)
  called hdr (FuseRequest.mkdir body rest) s = given EntryOut.to_bytes (h.mkdir hdr body rest s)
  called hdr (FuseRequest.unlink name) s = given empty (h.unlink hdr name s)
  called hdr (FuseRequest.rmdir name) s = given empty (h.rmdir hdr name s)
  called hdr (FuseRequest.symlink name target) s =
      given EntryOut.to_bytes (h.symlink hdr name target s)
  called hdr (FuseRequest.rename body old_name new_name) s =
      given empty (h.rename hdr body old_name new_name s)
  called hdr (FuseRequest.link body rest) s = given EntryOut.to_bytes (h.link hdr body rest s)
  called hdr (FuseRequest.open_op body) s = given OpenOut.to_bytes (h.open_file hdr body s)
  called hdr (FuseRequest.read body) s = given raw (h.read hdr body s)
  called hdr (FuseRequest.write body rest) s = given WriteOut.to_bytes (h.write hdr body rest s)
  called hdr FuseRequest.statfs s = given StatfsOut.to_bytes (h.statfs hdr s)
  called hdr (FuseRequest.release body) s = given empty (h.release hdr body s)
  called hdr (FuseRequest.fsync body) s = given empty (h.fsync hdr body s)
  called hdr (FuseRequest.flush body) s = given empty (h.flush hdr body s)
  called hdr (FuseRequest.opendir body) s = given OpenOut.to_bytes (h.opendir hdr body s)
  called hdr (FuseRequest.readdir body) s = given raw (h.readdir hdr body s)
  called hdr (FuseRequest.releasedir body) s = given empty (h.releasedir hdr body s)
  called hdr FuseRequest.destroy s = (h.destroy hdr s, none)

module _ (h : FuseHandler) (hdr : FuseInHeader) (fits : IsU64 hdr.unique) where
  abbrev Outward : FuseOpcode → Reply h → Result h → Type 0
  Outward op (s, reply) (s', result) =
      (s ≡ s')
      × ((Silent op × (reply ≡ none))
          ⊎ ((¬ Silent op)
              × (r : Outcome ℕ (List ℕ)) × (result ≡ some r)
              × (reply ≡ some (encode_result hdr.unique r))
              × IsReply hdr.unique r (encode_result hdr.unique r)))

  spoken :
      {A : Type 0} (op : FuseOpcode) (to_bytes : A → Outcome FuseError (List ℕ))
      (m : h.State × Outcome ℕ A)
      → (¬ Silent op)
      → Outward op (replied h hdr.unique to_bytes m) (given h to_bytes m)
  spoken op to_bytes (s, r) loud = (
    refl,
    inr (
      loud,
      in_bytes to_bytes r,
      refl,
      refl,
      encode_result-IsReply hdr.unique (in_bytes to_bytes r) fits,
    ),
  )

  -- The handler's state after a dispatch is that of its method for the request. A guest gets no
  -- reply to a FORGET or a DESTROY, and one to every other request. The reply has a header that is
  -- read back with the request's id and the reply's length. Where the method succeeds, its error is
  -- 0 and the method's bytes are behind it, unless header and body together reach 2 ^ 32 bytes;
  -- where the method gives an errno, its error is the negated number and nothing is behind it.
  pub dispatch_lem :
      (req : FuseRequest) (s : h.State)
      → ((dispatch h hdr req s).0 ≡ (called h hdr req s).0)
        × ((Silent (opcode_of req) × ((dispatch h hdr req s).1 ≡ none))
            ⊎ ((¬ Silent (opcode_of req))
                × (r : Outcome ℕ (List ℕ)) × ((called h hdr req s).1 ≡ some r)
                × ((dispatch h hdr req s).1 ≡ some (encode_result hdr.unique r))
                × IsReply hdr.unique r (encode_result hdr.unique r)))
  unfolding dispatch called
  dispatch_lem (FuseRequest.init body) s =
      spoken FuseOpcode.init InitOut.to_bytes (h.init hdr body s) (λ silent. silent)
  dispatch_lem (FuseRequest.forget body) s = (refl, inl (tt, refl))
  dispatch_lem (FuseRequest.getattr body) s =
      spoken FuseOpcode.getattr AttrOut.to_bytes (h.getattr hdr body s) (λ silent. silent)
  dispatch_lem (FuseRequest.setattr body) s =
      spoken FuseOpcode.setattr AttrOut.to_bytes (h.setattr hdr body s) (λ silent. silent)
  dispatch_lem (FuseRequest.lookup name) s =
      spoken FuseOpcode.lookup EntryOut.to_bytes (h.lookup hdr name s) (λ silent. silent)
  dispatch_lem FuseRequest.readlink s =
      spoken FuseOpcode.readlink raw (h.readlink hdr s) (λ silent. silent)
  dispatch_lem (FuseRequest.mknod body rest) s =
      spoken FuseOpcode.mknod EntryOut.to_bytes (h.mknod hdr body rest s) (λ silent. silent)
  dispatch_lem (FuseRequest.mkdir body rest) s =
      spoken FuseOpcode.mkdir EntryOut.to_bytes (h.mkdir hdr body rest s) (λ silent. silent)
  dispatch_lem (FuseRequest.unlink name) s =
      spoken FuseOpcode.unlink empty (h.unlink hdr name s) (λ silent. silent)
  dispatch_lem (FuseRequest.rmdir name) s =
      spoken FuseOpcode.rmdir empty (h.rmdir hdr name s) (λ silent. silent)
  dispatch_lem (FuseRequest.symlink name target) s =
      spoken FuseOpcode.symlink EntryOut.to_bytes (h.symlink hdr name target s) (λ silent. silent)
  dispatch_lem (FuseRequest.rename body old_name new_name) s =
      spoken FuseOpcode.rename empty (h.rename hdr body old_name new_name s) (λ silent. silent)
  dispatch_lem (FuseRequest.link body rest) s =
      spoken FuseOpcode.link EntryOut.to_bytes (h.link hdr body rest s) (λ silent. silent)
  dispatch_lem (FuseRequest.open_op body) s =
      spoken FuseOpcode.open_op OpenOut.to_bytes (h.open_file hdr body s) (λ silent. silent)
  dispatch_lem (FuseRequest.read body) s =
      spoken FuseOpcode.read raw (h.read hdr body s) (λ silent. silent)
  dispatch_lem (FuseRequest.write body rest) s =
      spoken FuseOpcode.write WriteOut.to_bytes (h.write hdr body rest s) (λ silent. silent)
  dispatch_lem FuseRequest.statfs s =
      spoken FuseOpcode.statfs StatfsOut.to_bytes (h.statfs hdr s) (λ silent. silent)
  dispatch_lem (FuseRequest.release body) s =
      spoken FuseOpcode.release empty (h.release hdr body s) (λ silent. silent)
  dispatch_lem (FuseRequest.fsync body) s =
      spoken FuseOpcode.fsync empty (h.fsync hdr body s) (λ silent. silent)
  dispatch_lem (FuseRequest.flush body) s =
      spoken FuseOpcode.flush empty (h.flush hdr body s) (λ silent. silent)
  dispatch_lem (FuseRequest.opendir body) s =
      spoken FuseOpcode.opendir OpenOut.to_bytes (h.opendir hdr body s) (λ silent. silent)
  dispatch_lem (FuseRequest.readdir body) s =
      spoken FuseOpcode.readdir raw (h.readdir hdr body s) (λ silent. silent)
  dispatch_lem (FuseRequest.releasedir body) s =
      spoken FuseOpcode.releasedir empty (h.releasedir hdr body s) (λ silent. silent)
  dispatch_lem FuseRequest.destroy s = (refl, inl (tt, refl))
