-- ===== src/Vsock/Table/Live.antt =====
-- crates/virtio-vsock/src/conn_table.rs: a dispatch to a pair that has a connection.
use rust_nano_vm.Prelude.{◌≡◌, refl, inl, inr, Bool, some, Bool-cases}
use rust_nano_vm.Maps.{nat_key}
use rust_nano_vm.Vsock.Header.{VsockHeader, VsockOp}
use rust_nano_vm.Vsock.Endpoint.{id_key, incoming}
use rust_nano_vm.Vsock.State.{established, close_wait}
use rust_nano_vm.Vsock.Connection.{Connection, next_state, with_state}
use rust_nano_vm.Vsock.Table.{
  ConnectionTable, connection, is_listening, rst_static, rst_for, handle_request, data_on,
  handle_data, handle_rst, control_on, handle_shutdown, handle_response, handle_credit, handle,
}
use rust_nano_vm.Vsock.Table.Spec.{both_ways, half_closed, react, IsEntry, IsTable}
use rust_nano_vm.Vsock.Table.Shapes.{Reacted, kept, stored, evicted, recv_header-live, moved}

module _ (t : ConnectionTable) (hdr : VsockHeader) (c : Connection) (l : Bool) where
  pub on_open :
      (op : VsockOp)
      → IsTable t
      → connection t (incoming hdr) ≡ some c
      → IsEntry t.cfg (incoming hdr) c
      → c.state ≡ established
      → hdr.op ≡ op
      → Reacted t hdr (react l (some both_ways) op) (handle op t (incoming hdr) hdr)
  unfolding react handle handle_request handle_data handle_rst handle_shutdown handle_response
      handle_credit data_on control_on next_state with_state rst_for rst_static
  on_open VsockOp.invalid ok_table found entry up is_op =
      kept t hdr _ _ ok_table (rw (found, up)) refl
  on_open VsockOp.request ok_table found entry up is_op =
      elim (Bool-cases (is_listening t hdr.dst_port)) [
        | inl e ↦ rw (handle_request, e, found) (kept t hdr _ _ ok_table (rw (found, up)) refl)
        | inr e ↦ rw (handle_request, e) (kept t hdr _ _ ok_table (rw (found, up)) refl)
      ]
  on_open VsockOp.response ok_table found entry up is_op =
      rw (handle_response, found, recv_header-live c hdr _ _ entry.filed up is_op)
        (evicted t hdr _ _ _ refl refl)
  on_open VsockOp.rst ok_table found entry up is_op =
      rw (handle_rst, found, recv_header-live c hdr _ _ entry.filed up is_op)
        (evicted t hdr _ _ _ refl refl)
  on_open VsockOp.shutdown ok_table found entry up is_op =
      rw (handle_shutdown, found, recv_header-live c hdr _ _ entry.filed up is_op)
        (stored t hdr _ _ _ (moved t hdr c close_wait entry (inr refl)) refl refl)
  on_open VsockOp.rw ok_table found entry up is_op =
      rw (handle_data, found, recv_header-live c hdr _ _ entry.filed up is_op, up)
        (stored t hdr _ _ _ (moved t hdr c established entry (inl refl)) refl refl)
  on_open VsockOp.credit_update ok_table found entry up is_op =
      rw (handle_credit, found, recv_header-live c hdr _ _ entry.filed up is_op)
        (stored t hdr _ _ _ (moved t hdr c established entry (inl refl)) refl refl)
  on_open VsockOp.credit_request ok_table found entry up is_op =
      rw (handle_credit, found, recv_header-live c hdr _ _ entry.filed up is_op)
        (stored t hdr _ _ _ (moved t hdr c established entry (inl refl)) refl refl)

  pub on_half :
      (op : VsockOp)
      → IsTable t
      → connection t (incoming hdr) ≡ some c
      → IsEntry t.cfg (incoming hdr) c
      → c.state ≡ close_wait
      → hdr.op ≡ op
      → Reacted t hdr (react l (some half_closed) op) (handle op t (incoming hdr) hdr)
  unfolding react handle handle_request handle_data handle_rst handle_shutdown handle_response
      handle_credit data_on control_on next_state with_state rst_for rst_static
  on_half VsockOp.invalid ok_table found entry up is_op =
      kept t hdr _ _ ok_table (rw (found, up)) refl
  on_half VsockOp.request ok_table found entry up is_op =
      elim (Bool-cases (is_listening t hdr.dst_port)) [
        | inl e ↦ rw (handle_request, e, found) (kept t hdr _ _ ok_table (rw (found, up)) refl)
        | inr e ↦ rw (handle_request, e) (kept t hdr _ _ ok_table (rw (found, up)) refl)
      ]
  on_half VsockOp.response ok_table found entry up is_op =
      rw (handle_response, found, recv_header-live c hdr _ _ entry.filed up is_op)
        (evicted t hdr _ _ _ refl refl)
  on_half VsockOp.rst ok_table found entry up is_op =
      rw (handle_rst, found, recv_header-live c hdr _ _ entry.filed up is_op)
        (evicted t hdr _ _ _ refl refl)
  on_half VsockOp.shutdown ok_table found entry up is_op =
      rw (handle_shutdown, found, recv_header-live c hdr _ _ entry.filed up is_op)
        (evicted t hdr _ _ _ refl refl)
  on_half VsockOp.rw ok_table found entry up is_op =
      rw (handle_data, found, data_on, up) (kept t hdr _ _ ok_table (rw (found, up)) refl)
  on_half VsockOp.credit_update ok_table found entry up is_op =
      rw (handle_credit, found, recv_header-live c hdr _ _ entry.filed up is_op)
        (stored t hdr _ _ _ (moved t hdr c close_wait entry (inr refl)) refl refl)
  on_half VsockOp.credit_request ok_table found entry up is_op =
      rw (handle_credit, found, recv_header-live c hdr _ _ entry.filed up is_op)
        (stored t hdr _ _ _ (moved t hdr c close_wait entry (inr refl)) refl refl)
