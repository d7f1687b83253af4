-- ===== src/Vsock/Tests/Tables.antt =====
-- Tables of connections at concrete inputs.
use rust_nano_vm.Prelude.{◌≡◌, refl, ◌⊎◌, some, none, List, [], ◌∷◌}
use rust_nano_vm.Maps.{get, insert, remove}
use rust_nano_vm.Vsock.Header.{VsockHeader, VsockOp}
use rust_nano_vm.Vsock.Endpoint.{ConnectionId, id_key}
use rust_nano_vm.Vsock.Reply.{deliver_payload, default_config}
use rust_nano_vm.Vsock.Connection
use rust_nano_vm.Vsock.Connection.{Connection}
use rust_nano_vm.Vsock.Connection.Credit.{charged}
use rust_nano_vm.Vsock.Table
use rust_nano_vm.Vsock.Table.{
  ConnectionTable, new, connection, is_listening, put, dispatch, prepare_data,
}
use rust_nano_vm.Vsock.Table.Spec.{both_ways, react, view, IsTable}
use rust_nano_vm.Vsock.Table.Shapes.{Reacted}
use rust_nano_vm.Vsock.Table.Refines.{dispatch-Reacted}
use rust_nano_vm.Vsock.Table.Isolation.{serve, only, only_replies, alone, serve-alone}
use rust_nano_vm.Vsock.Table.Sending.{
  Event, happen, happens, happens-IsTable, data_packet, prepare_data_lem,
}
use rust_nano_vm.Vsock.Tests.Packets.{call_in, pair}

abbrev data_in : VsockHeader
data_in = record call_in { op = VsockOp.rw; len = 12 }

-- Another port of the same guest.
abbrev other_in : VsockHeader
other_in = record call_in { src_port = 1025 }

abbrev history : List Event
history = Event.listens 5000 ∷ Event.receives call_in ∷ []

abbrev one_call : ConnectionTable
one_call = happens (new default_config) history

one_call-IsTable : IsTable one_call
one_call-IsTable = happens-IsTable default_config history

dispatch-Reacted_example :
    Reacted one_call data_in
      (react (is_listening one_call 5000) (view one_call pair) VsockOp.rw)
      (dispatch one_call data_in)
dispatch-Reacted_example = dispatch-Reacted one_call data_in one_call-IsTable

serve-alone_example :
    only_replies pair (serve one_call (other_in ∷ data_in ∷ []))
    ≡ alone
        (one_call.cfg)
        (is_listening one_call 5000)
        (view one_call pair)
        (only pair (other_in ∷ data_in ∷ []))
serve-alone_example = serve-alone one_call pair (other_in ∷ data_in ∷ []) one_call-IsTable

prepare_data_lem_example :
    ((view one_call pair ≡ some both_ways)
      × (c : Connection) × (connection one_call pair ≡ some c)
      × (prepare_data one_call pair 9
          ≡ (put one_call pair (charged c 9), some (data_packet one_call.cfg pair 9)))
      × ((j : ConnectionId)
          → (j ≡ pair) ⊎ (connection (prepare_data one_call pair 9).0 j ≡ connection one_call j)))
    ⊎ ((¬ (view one_call pair ≡ some both_ways))
        × ((prepare_data one_call pair 9).1 ≡ none)
        × ((j : ConnectionId)
            → connection (prepare_data one_call pair 9).0 j ≡ connection one_call j))
prepare_data_lem_example = prepare_data_lem one_call pair 9 one_call-IsTable

data_is_delivered : (dispatch one_call data_in).1 ≡ deliver_payload pair 12
unfolding dispatch happens happen new get insert remove Table.listen Table.handle
    Table.handle_request Table.handle_data Table.data_on Connection.new Connection.listen
    Connection.recv_header Connection.next_state Connection.with_state
data_is_delivered = refl
