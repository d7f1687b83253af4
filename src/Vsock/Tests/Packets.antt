-- ===== src/Vsock/Tests/Packets.antt =====
-- Headers and single connections at concrete inputs.
use rust_nano_vm.Prelude.{
  ℕ, ◌+◌, ◌≤◌, ◌<◌, ◌≡◌, refl, arith, ◌⊎◌, List, [], ◌∷◌, replicate, drop, take, length, Any, All,
  ok, err,
}
use rust_nano_vm.Bytes.Endian.{IsByte, of_le}
use rust_nano_vm.Bytes.Buffer.{slice}
use rust_nano_vm.Vsock.Header
use rust_nano_vm.Vsock.Header.{
  VsockHeader, VsockOp, stream, short_buffer, short_header, unknown_type, unknown_op,
}
use rust_nano_vm.Vsock.Header.RoundTrip.{header_from_bytes-write_to, wire-from_bytes}
use rust_nano_vm.Vsock.Endpoint.{ConnectionId, endpoint, incoming}
use rust_nano_vm.Vsock.State.{ConnectionState, established, endpoint_mismatch, invalid_op}
use rust_nano_vm.Vsock.Connection
use rust_nano_vm.Vsock.Connection.{Connection}
use rust_nano_vm.Vsock.Connection.Lifecycle.{
  Edge, Call, Opens, credited, recv_header_lem, handshake, run, call,
}
use rust_nano_vm.Vsock.Connection.Credit.{Window, charged, record_send-send_credit}

-- A guest with context id 3 calls the agent's port.
abbrev pub call_in : VsockHeader
call_in = record {
  src_cid = 3;
  dst_cid = 0;
  src_port = 1024;
  dst_port = 5000;
  len = 0;
  vtype = stream;
  op = VsockOp.request;
  flags = 0;
  buf_alloc = 4096;
  fwd_cnt = 0;
}

abbrev pub pair : ConnectionId
pair = record { local = endpoint 0 5000; remote = endpoint 3 1024 }

abbrev opened : Connection
opened = record {
  id = pair;
  state = established;
  local_buf_alloc = 65536;
  fwd_cnt = 0;
  peer_buf_alloc = 4096;
  peer_fwd_cnt = 4294967290;
  tx_cnt = 4;
}

-- Ten bytes are on their way, four of them sent since the counter wrapped.
wrapped-Window : Window opened 4294967300 4294967290
wrapped-Window = record {
  tx_counts = refl;
  peer_counts = refl;
  alloc_fits = omega arith;
  forwarded_le = omega arith;
  room = omega arith;
}

wrapped_credit : Connection.send_credit opened ≡ 4086
unfolding Connection.send_credit
wrapped_credit = refl

abbrev nines : List ℕ
nines = replicate 50 9

header_from_bytes-write_to_example :
    ((44 ≤ length nines)
      × (out : List ℕ) × (Header.write_to call_in nines ≡ ok (out, 44))
      × (Header.from_bytes out ≡ ok call_in)
      × (Header.to_bytes call_in ≡ ok (take 44 out))
      × (drop 44 out ≡ drop 44 nines))
    ⊎ ((length nines < 44) × (Header.write_to call_in nines ≡ err (short_buffer (length nines) 44)))
header_from_bytes-write_to_example = header_from_bytes-write_to call_in nines (record {
  src_cid_fits = omega arith;
  dst_cid_fits = omega arith;
  src_port_fits = omega arith;
  dst_port_fits = omega arith;
  len_fits = omega arith;
  flags_fits = omega arith;
  buf_alloc_fits = omega arith;
  fwd_cnt_fits = omega arith;
})

abbrev ones : List ℕ
ones = replicate 45 1

wire-from_bytes_example :
    ((length ones < 44) × (Header.from_bytes ones ≡ err (short_header (length ones) 44)))
    ⊎ ((44 ≤ length ones)
        × (¬ (of_le (slice 28 2 ones) ≡ 1))
        × (Header.from_bytes ones ≡ err (unknown_type (of_le (slice 28 2 ones)))))
    ⊎ ((44 ≤ length ones)
        × (of_le (slice 28 2 ones) ≡ 1)
        × (8 ≤ of_le (slice 30 2 ones))
        × (Header.from_bytes ones ≡ err (unknown_op (of_le (slice 30 2 ones)))))
    ⊎ ((44 ≤ length ones)
        × (h : VsockHeader) × (Header.from_bytes ones ≡ ok h)
        × (Header.to_bytes h ≡ ok (take 44 ones)))
wire-from_bytes_example = wire-from_bytes ones bytes
  where
    bytes : All IsByte ones
    bytes = omega arith

recv_header_lem_example :
    ((¬ (incoming call_in ≡ opened.id))
      × (Connection.recv_header opened call_in
          ≡ (opened, err (endpoint_mismatch opened.id (incoming call_in)))))
    ⊎ ((incoming call_in ≡ opened.id)
        × (t : ConnectionState) × Edge opened.state call_in.op t
        × (Connection.recv_header opened call_in
            ≡ (record (credited opened call_in) { state = t }, ok tt)))
    ⊎ ((incoming call_in ≡ opened.id)
        × ((t : ConnectionState) → ¬ Edge opened.state call_in.op t)
        × (Connection.recv_header opened call_in
            ≡ (credited opened call_in, err (invalid_op call_in.op opened.state))))
recv_header_lem_example = recv_header_lem opened call_in

call_is_accepted :
    (run (Connection.new pair 65536) (Call.listens ∷ Call.receives call_in ∷ [])).state
    ≡ established
unfolding run call Connection.new Connection.listen Connection.recv_header Connection.with_state
    Connection.next_state
call_is_accepted = refl

handshake_example : Any (Opens pair) (Call.listens ∷ Call.receives call_in ∷ [])
handshake_example =
    handshake pair 65536 (Call.listens ∷ Call.receives call_in ∷ []) call_is_accepted

record_send-send_credit_example :
    (Connection.record_send opened 4086 ≡ (charged opened 4086, ok tt))
    × (((4086 ≤ Connection.send_credit opened)
          × Window (charged opened 4086) (4294967300 + 4086) 4294967290
          × (Connection.send_credit (charged opened 4086) + 4086 ≡ Connection.send_credit opened))
        ⊎ ((Connection.send_credit opened < 4086)
            × (Connection.send_credit (charged opened 4086) + 4086
                ≡ Connection.send_credit opened + 4294967296)
            × (Connection.send_credit opened < Connection.send_credit (charged opened 4086))))
record_send-send_credit_example =
    record_send-send_credit opened 4294967300 4294967290 4086 wrapped-Window refl (omega arith)
