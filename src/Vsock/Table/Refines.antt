-- ===== src/Vsock/Table/Refines.antt =====
-- crates/virtio-vsock/src/conn_table.rs: every dispatch does what the specification of the packet's
-- pair of endpoints says, and nothing to any other pair.
use rust_nano_vm.Prelude.{◌≡◌, refl, subst, inl, inr, true, none, some, Option-cases, Bool-cases}
use rust_nano_vm.Maps.{nat_key}
use rust_nano_vm.Maps.Laws.{get-insert_self}
use rust_nano_vm.Vsock.Header.{VsockHeader, VsockOp}
use rust_nano_vm.Vsock.Endpoint.{id_key, incoming, id_eq_refl}
use rust_nano_vm.Vsock.State.{established}
use rust_nano_vm.Vsock.Reply.{send}
use rust_nano_vm.Vsock.Connection.{Connection, recv_header, next_state, with_state, is_established}
use rust_nano_vm.Vsock.Connection
use rust_nano_vm.Vsock.Table.{
  ConnectionTable, connection, is_listening, put, rst_static, rst_for, reply_header, handle_request,
  handle_data, handle_rst, handle_shutdown, handle_response, handle_credit, handle, dispatch,
}
use rust_nano_vm.Vsock.Table.Spec.{both_ways, accept, react, render, view, IsFiled, IsTable}
use rust_nano_vm.Vsock.Table.Shapes.{Reacted, kept, stored}
use rust_nano_vm.Vsock.Table.Live.{on_open, on_half}

-- The connection that an accepted `Request` makes.
abbrev fresh : ConnectionTable → VsockHeader → Connection
fresh t hdr = record {
  id = incoming hdr;
  state = established;
  local_buf_alloc = t.cfg.default_buf_alloc;
  fwd_cnt = 0;
  peer_buf_alloc = hdr.buf_alloc;
  peer_fwd_cnt = hdr.fwd_cnt;
  tx_cnt = 0;
}

accepted :
    (t : ConnectionTable) (hdr : VsockHeader)
    → connection t (incoming hdr) ≡ none
    → is_listening t hdr.dst_port ≡ true
    → hdr.op ≡ VsockOp.request
    → handle_request t (incoming hdr) hdr ≡ (
      put t (incoming hdr) (fresh t hdr),
      send (reply_header (put t (incoming hdr) (fresh t hdr)) (incoming hdr) VsockOp.response),
    )
unfolding handle_request Connection.listen Connection.new recv_header with_state next_state
accepted t hdr vacant heard is_op = rw (heard, vacant, id_eq_refl (incoming hdr), is_op)

answered :
    (t : ConnectionTable) (hdr : VsockHeader)
    → send (reply_header (put t (incoming hdr) (fresh t hdr)) (incoming hdr) VsockOp.response)
      ≡ render t.cfg hdr accept
unfolding reply_header
answered t hdr = rw (get-insert_self (incoming hdr) (fresh t hdr) t.connections)

module _ (t : ConnectionTable) (hdr : VsockHeader) where
  on_vacant :
      (op : VsockOp)
      → IsTable t
      → connection t (incoming hdr) ≡ none
      → hdr.op ≡ op
      → Reacted t hdr (react (is_listening t hdr.dst_port) none op) (handle op t (incoming hdr) hdr)
  unfolding react handle handle_request handle_data handle_rst handle_shutdown handle_response
      handle_credit rst_for rst_static
  on_vacant VsockOp.request ok_table found is_op = elim (Bool-cases (is_listening t hdr.dst_port)) [
    | inr e ↦ rw (handle_request, react, e) (kept t hdr _ _ ok_table (rw found) refl)
    | inl e ↦
        rw (accepted t hdr found e is_op, react, e)
          (stored t hdr (some both_ways, accept) _ (fresh t hdr)
            (record { filed = refl; live = inl refl; window = refl; returned = refl }) refl
            (answered t hdr))
  ]
  on_vacant VsockOp.rst ok_table found is_op =
      rw (handle_rst, found) (kept t hdr _ _ ok_table (rw found) refl)
  on_vacant VsockOp.invalid ok_table found is_op = kept t hdr _ _ ok_table (rw found) refl
  on_vacant VsockOp.response ok_table found is_op =
      rw (handle_response, found) (kept t hdr _ _ ok_table (rw found) refl)
  on_vacant VsockOp.shutdown ok_table found is_op =
      rw (handle_shutdown, found) (kept t hdr _ _ ok_table (rw found) refl)
  on_vacant VsockOp.rw ok_table found is_op =
      rw (handle_data, found) (kept t hdr _ _ ok_table (rw found) refl)
  on_vacant VsockOp.credit_update ok_table found is_op =
      rw (handle_credit, found) (kept t hdr _ _ ok_table (rw found) refl)
  on_vacant VsockOp.credit_request ok_table found is_op =
      rw (handle_credit, found) (kept t hdr _ _ ok_table (rw found) refl)

-- In a table whose connections are filed under their own pairs and live, a dispatch moves the
-- packet's pair and replies as the specification says, and the packet's pair again has no
-- connection or a live one of its own. Every other pair's connection, the listeners and the
-- configuration are as they were.
pub dispatch-Reacted :
    (t : ConnectionTable) (hdr : VsockHeader)
    → IsTable t
    → Reacted t hdr
        (react (is_listening t hdr.dst_port) (view t (incoming hdr)) hdr.op)
        (dispatch t hdr)
unfolding dispatch
dispatch-Reacted t hdr ok_table = elim (Option-cases (connection t (incoming hdr))) [
  | inl vacant ↦ rw vacant (on_vacant t hdr hdr.op ok_table vacant refl)
  | inr (c, found) ↦
      let entry = subst (IsFiled t.cfg (incoming hdr)) found (ok_table (incoming hdr)) in
      elim entry.live [
        | inl up ↦
            rw (found, up)
              (on_open t hdr c (is_listening t hdr.dst_port) hdr.op ok_table found entry up refl)
        | inr shut ↦
            rw (found, shut)
              (on_half t hdr c (is_listening t hdr.dst_port) hdr.op ok_table found entry shut refl)
      ]
]

pub dispatch-IsTable :
    (t : ConnectionTable) (hdr : VsockHeader) → IsTable t → IsTable (dispatch t hdr).0
dispatch-IsTable t hdr ok_table id =
    let r = dispatch-Reacted t hdr ok_table in
    rw r.cfg_same (elim (r.others id) [ inl e ↦ rw e r.filed | inr kept ↦ rw kept (ok_table id) ])
