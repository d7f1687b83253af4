-- ===== src/Vsock/Mmio/Registers.antt =====
-- crates/virtio-vsock/src/mmio.rs: the constants of the register block, and the offsets of the
-- registers.
use rust_nano_vm.Prelude.{ℕ, ◌==◌, ◌^◌, if◌then◌else◌}

abbrev pub virtio_mmio_magic : ℕ
virtio_mmio_magic = 0x74726976

abbrev pub virtio_mmio_version : ℕ
virtio_mmio_version = 2

abbrev pub virtio_id_vsock : ℕ
virtio_id_vsock = 19

abbrev pub nanovm_vendor_id : ℕ
nanovm_vendor_id = 0x4e414e4f

abbrev pub virtio_f_version_1 : ℕ
virtio_f_version_1 = 2 ^ 32

abbrev pub virtio_vsock_num_queues : ℕ
virtio_vsock_num_queues = 3

abbrev pub queue_size_max : ℕ
queue_size_max = 256

abbrev pub status_driver_ok : ℕ
status_driver_ok = 4

abbrev pub virtio_mmio_int_vring : ℕ
virtio_mmio_int_vring = 1

-- The registers below the config space, and the offsets that are none.
pub data Register : Type 0 where
  magic version device_id vendor_id device_features device_features_sel driver_features
        driver_features_sel queue_sel queue_num_max queue_num queue_ready queue_notify
        interrupt_status interrupt_ack status queue_desc_low queue_desc_high queue_driver_low
        queue_driver_high queue_device_low queue_device_high config_generation unassigned :
      Register

abbrev pub config_space : ℕ
config_space = 0x100

unfoldable pub register_at : ℕ → Register
register_at offset =
    if offset == 0x000
    then Register.magic
    else if offset == 0x004
    then Register.version
    else if offset == 0x008
    then Register.device_id
    else if offset == 0x00c
    then Register.vendor_id
    else if offset == 0x010
    then Register.device_features
    else if offset == 0x014
    then Register.device_features_sel
    else if offset == 0x020
    then Register.driver_features
    else if offset == 0x024
    then Register.driver_features_sel
    else if offset == 0x030
    then Register.queue_sel
    else if offset == 0x034
    then Register.queue_num_max
    else if offset == 0x038
    then Register.queue_num
    else if offset == 0x044
    then Register.queue_ready
    else if offset == 0x050
    then Register.queue_notify
    else if offset == 0x060
    then Register.interrupt_status
    else if offset == 0x064
    then Register.interrupt_ack
    else if offset == 0x070
    then Register.status
    else if offset == 0x080
    then Register.queue_desc_low
    else if offset == 0x084
    then Register.queue_desc_high
    else if offset == 0x090
    then Register.queue_driver_low
    else if offset == 0x094
    then Register.queue_driver_high
    else if offset == 0x0a0
    then Register.queue_device_low
    else if offset == 0x0a4
    then Register.queue_device_high
    else if offset == 0x0fc
    then Register.config_generation
    else Register.unassigned
