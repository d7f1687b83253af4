-- ===== src/Vsock/Reply.antt =====
-- crates/virtio-vsock/src/conn_table.rs: what a dispatch asks of its caller, and the table's
-- configuration.
use rust_nano_vm.Prelude.{ℕ}
use rust_nano_vm.Vsock.Header.{VsockHeader, hypervisor_cid}
use rust_nano_vm.Vsock.Endpoint.{ConnectionId}

pub data Reply : Type 0 where
  send : VsockHeader → Reply
  deliver_payload : (conn_id : ConnectionId) (bytes : ℕ) → Reply
  none : Reply

pub record TableConfig : Type 0 where
  pub local_cid : ℕ
  pub default_buf_alloc : ℕ

-- `TableConfig::default`
abbrev pub default_config : TableConfig
default_config = record { local_cid = hypervisor_cid; default_buf_alloc = 65536 }
