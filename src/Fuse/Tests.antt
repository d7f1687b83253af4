-- ===== src/Fuse/Tests.antt =====
-- The FUSE messages at concrete inputs.
use rust_nano_vm.Prelude.{
  ◌+◌, ◌*◌, ◌^◌, ℕ, suc, ◌≤◌, ◌<◌, ◌≡◌, ◌⊎◌, arith, some, none, List, [], ◌∷◌, length, take, drop,
  true, Outcome, ok, err,
}
use rust_nano_vm.Bytes.Endian.{to_le, to_le-IsByte}
use rust_nano_vm.Bytes.Wire.{AllFit, encoded}
use rust_nano_vm.Fuse.Error.{short_header, short_buffer}
use rust_nano_vm.Fuse.Body.OpenIn.{FuseOpenIn}
use rust_nano_vm.Fuse.Kinds.{Kind, wire_of, kind_from_bytes-write_to, kind_to_bytes-from_bytes}
use rust_nano_vm.Fuse.Opcode.{FuseOpcode}
use rust_nano_vm.Fuse.InHeader.{FuseInHeader, widths, values}
use rust_nano_vm.Fuse.InHeader
use rust_nano_vm.Fuse.Request.{FuseRequest, opcode_of}
use rust_nano_vm.Fuse.Dispatch.{FuseHandler, unimplemented, encode_result, dispatch}
use rust_nano_vm.Fuse.Dispatch.Replies.{Silent, called, IsReply, dispatch_lem}
use rust_nano_vm.Fuse.Dirent.{with_capacity, new}
use rust_nano_vm.Fuse.Dirent.Record.{Entry}
use rust_nano_vm.Fuse.Dirent.RoundTrip.{push_all, read_all, seen, chosen, read_all-push_all}

abbrev open_body : FuseOpenIn
open_body = record { flags = 2; open_flags = 0 }

abbrev room : List ℕ
room = to_le 10 7

kind_from_bytes-write_to_example :
    ((8 ≤ length room)
      × (out : List ℕ) × ((wire_of Kind.open_in).write_to open_body room ≡ ok (out, 8))
      × ((wire_of Kind.open_in).from_bytes out ≡ ok open_body)
      × ((wire_of Kind.open_in).to_bytes open_body ≡ ok (take 8 out))
      × (drop 8 out ≡ drop 8 room))
    ⊎ ((length room < 8)
        × ((wire_of Kind.open_in).write_to open_body room ≡ err (short_buffer (length room) 8)))
kind_from_bytes-write_to_example =
    kind_from_bytes-write_to Kind.open_in open_body room (omega arith, (omega arith, tt))

kind_to_bytes-from_bytes_example :
    ((8 ≤ length room)
      × (s : FuseOpenIn) × ((wire_of Kind.open_in).from_bytes room ≡ ok s)
      × AllFit (wire_of Kind.open_in).widths ((wire_of Kind.open_in).values s)
      × ((wire_of Kind.open_in).to_bytes s ≡ ok (take 8 room)))
    ⊎ ((length room < 8)
        × ((wire_of Kind.open_in).from_bytes room ≡ err (short_header (length room) 8)))
kind_to_bytes-from_bytes_example = kind_to_bytes-from_bytes Kind.open_in room (to_le-IsByte 10 7)

abbrev header : FuseInHeader
header = record {
  len = 48;
  opcode = FuseOpcode.rename;
  unique = 9;
  nodeid = 1;
  uid = 0;
  gid = 0;
  pid = 77;
  total_extlen = 0;
  padding = 0;
}

abbrev request : FuseRequest
request = FuseRequest.rename (record { newdir = 1 }) (97 ∷ []) (98 ∷ 99 ∷ [])

abbrev header_bytes : List ℕ
header_bytes = encoded widths (values header)

-- A packet of an operation with a short body: a READ of no bytes behind its header.
abbrev short_read : List ℕ
short_read = to_le 40 (40 + 15 * 2 ^ 32)

abbrev no_files : FuseHandler
no_files = unimplemented (Unit {0})

dispatch_lem_example :
    ((dispatch no_files header request tt).0 ≡ (called no_files header request tt).0)
    × ((Silent (opcode_of request) × ((dispatch no_files header request tt).1 ≡ none))
        ⊎ ((¬ Silent (opcode_of request))
            × (r : Outcome ℕ (List ℕ)) × ((called no_files header request tt).1 ≡ some r)
            × ((dispatch no_files header request tt).1 ≡ some (encode_result 9 r))
            × IsReply 9 r (encode_result 9 r)))
dispatch_lem_example = dispatch_lem no_files header (omega arith) request tt

abbrev entries : List Entry
entries =
    record { ino = 7; off = 1; ftype = 4; name = 46 ∷ [] }
    ∷ record { ino = 8; off = 2; ftype = 8; name = 97 ∷ 98 ∷ [] }
    ∷ record { ino = 9; off = 3; ftype = 8; name = 99 ∷ [] }
    ∷ []

read_all-push_all_example :
    (length (push_all (with_capacity 70) entries).0.buf ≤ 70)
    × (read_all
          (suc (length (chosen 70 0 entries)))
          (new (push_all (with_capacity 70) entries).0.buf)
        ≡ (seen (chosen 70 0 entries), true))
read_all-push_all_example = read_all-push_all 70 entries (
  (omega arith, omega arith, omega arith),
  ((omega arith, omega arith, omega arith), ((omega arith, omega arith, omega arith), tt)),
)
