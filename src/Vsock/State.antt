-- ===== src/Vsock/State.antt =====
-- crates/virtio-vsock/src/lib.rs: the states of a connection and the errors of its methods.
use rust_nano_vm.Vsock.Header.{VsockOp}
use rust_nano_vm.Vsock.Endpoint.{ConnectionId}

pub data ConnectionState : Type 0 where
  closed listen syn_sent established fin_wait close_wait : ConnectionState

pub data ConnectionError : Type 0 where
  invalid_op : VsockOp → ConnectionState → ConnectionError
  invalid_state_transition : ConnectionState → ConnectionError
  endpoint_mismatch : (expected got : ConnectionId) → ConnectionError
  not_writable : ConnectionState → ConnectionError
