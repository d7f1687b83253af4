-- ===== src/Vsock/Mmio.antt =====
-- crates/virtio-vsock/src/mmio.rs: the registers that a driver finds and sets up the device by. A
-- QueueNotify is its queue's index.
pub mod Registers
pub mod Shape
pub mod Programming
pub mod Config
use Prim.Native.Nat.{bit_and, bit_or}
use rust_nano_vm.Prelude.{
  ℕ, zero, suc, ◌+◌, ◌-◌, ◌*◌, ◌/◌, ◌%◌, ◌^◌, Bool, true, false, not, ◌||◌, Option, none, some,
  List, [], ◌∷◌, length, get_elem?, modify, replicate, ltb, leb, ◌==◌, if◌then◌else◌, map,
}
use rust_nano_vm.Words.{wrapping_add}
use rust_nano_vm.Bytes.Endian.{to_le, of_le}
use rust_nano_vm.Vsock.Queue.{QueueConfig}
use rust_nano_vm.Vsock.Mmio.Registers.{
  Register, config_space, nanovm_vendor_id, queue_size_max, register_at, status_driver_ok,
  virtio_f_version_1, virtio_id_vsock, virtio_mmio_int_vring, virtio_mmio_magic,
  virtio_mmio_version, virtio_vsock_num_queues,
}

pub record MmioTransport : Type 0 where
  pub device_id : ℕ
  pub device_features : ℕ
  pub config : List ℕ
  pub device_features_sel : ℕ
  pub driver_features : ℕ
  pub driver_features_sel : ℕ
  pub status : ℕ
  pub queue_sel : ℕ
  pub queues : List QueueConfig
  pub interrupt_status : ℕ
  pub config_generation : ℕ
  pub pending_notify : Option ℕ

-- `QueueConfig::default`
abbrev pub unset : QueueConfig
unset = record { size = 0; ready = false; desc = 0; driver = 0; device = 0 }

unfoldable pub new_vsock : ℕ → MmioTransport
new_vsock guest_cid = record {
  device_id = virtio_id_vsock;
  device_features = virtio_f_version_1;
  config = to_le 8 guest_cid;
  device_features_sel = 0;
  driver_features = 0;
  driver_features_sel = 0;
  status = 0;
  queue_sel = 0;
  queues = replicate virtio_vsock_num_queues unset;
  interrupt_status = 0;
  config_generation = 0;
  pending_notify = none;
}

unfoldable pub driver_ok : MmioTransport → Bool
driver_ok t = not (bit_and t.status status_driver_ok == 0)

abbrev pub queue : MmioTransport → ℕ → Option QueueConfig
queue t index = get_elem? t.queues index

unfoldable pub take_notify : MmioTransport → MmioTransport × Option ℕ
take_notify t = (record t { pending_notify = none }, t.pending_notify)

unfoldable pub raise_interrupt : MmioTransport → MmioTransport
raise_interrupt t = record t { interrupt_status = bit_or t.interrupt_status virtio_mmio_int_vring }

unfoldable pub interrupt_asserted : MmioTransport → Bool
interrupt_asserted t = not (t.interrupt_status == 0)

abbrev pub current_queue : MmioTransport → Option QueueConfig
current_queue t = queue t t.queue_sel

unfoldable pub with_current_queue : MmioTransport → (QueueConfig → QueueConfig) → MmioTransport
with_current_queue t f = record t { queues = modify t.queue_sel f t.queues }

-- The masks keep one half of a u64, and the halves that are joined have no bit in common.
abbrev pub low_half : ℕ → ℕ
low_half addr = addr % 2 ^ 32

abbrev pub high_half : ℕ → ℕ
high_half addr = addr / 2 ^ 32 * 2 ^ 32

abbrev pub set_low : ℕ → ℕ → ℕ
set_low addr low = high_half addr + low

abbrev pub set_high : ℕ → ℕ → ℕ
set_high addr high = low_half addr + high * 2 ^ 32

unfoldable pub read_device_features : MmioTransport → ℕ
read_device_features t =
    if t.device_features_sel == 0
    then t.device_features % 2 ^ 32
    else if t.device_features_sel == 1
    then t.device_features / 2 ^ 32
    else 0

unfoldable pub write_driver_features : MmioTransport → ℕ → MmioTransport
write_driver_features t v =
    if t.driver_features_sel == 0
    then record t { driver_features = set_low t.driver_features v }
    else if t.driver_features_sel == 1
    then record t { driver_features = set_high t.driver_features v }
    else t

unfoldable pub reset : MmioTransport → MmioTransport
reset t = record t {
  status = 0;
  driver_features = 0;
  driver_features_sel = 0;
  device_features_sel = 0;
  queue_sel = 0;
  interrupt_status = 0;
  pending_notify = none;
  queues = map (λ _. unset) t.queues;
}

unfoldable pub write_status : MmioTransport → ℕ → MmioTransport
write_status t v = if v == 0 then reset t else record t { status = v }

-- `read_config` for at most 8 bytes: a byte out of range is 0.
abbrev pub byte_or_zero : Option ℕ → ℕ
byte_or_zero none = 0
byte_or_zero (some b) = b

abbrev pub config_bytes : List ℕ → ℕ → ℕ → List ℕ
config_bytes config off zero = []
config_bytes config off (suc n) =
    byte_or_zero (get_elem? config off) ∷ config_bytes config (suc off) n

unfoldable pub read_config : MmioTransport → ℕ → ℕ → ℕ
read_config t off size = of_le (config_bytes t.config off size)

-- The loop of `write_config`: the bytes after it, and `wrote`.
abbrev pub write_bytes : List ℕ → ℕ → ℕ → ℕ → List ℕ × Bool
write_bytes config off zero value = (config, false)
write_bytes config off (suc n) value =
    let (config', wrote) =
      write_bytes (modify off (λ _. value % 256) config) (suc off) n (value / 256) in
    (config', ltb off (length config) || wrote)

unfoldable pub write_config : MmioTransport → ℕ → ℕ → ℕ → MmioTransport
write_config t off size value =
    let (config, wrote) = write_bytes t.config off size value in
    record t {
      config = config;
      config_generation =
          if wrote then wrapping_add 32 t.config_generation 1 else t.config_generation;
    }

abbrev ready_bit : Option QueueConfig → ℕ
ready_bit none = 0
ready_bit (some q) = if q.ready then 1 else 0

unfoldable pub read_register : MmioTransport → Register → ℕ
read_register t Register.magic = virtio_mmio_magic
read_register t Register.version = virtio_mmio_version
read_register t Register.device_id = t.device_id
read_register t Register.vendor_id = nanovm_vendor_id
read_register t Register.device_features = read_device_features t
read_register t Register.queue_num_max = queue_size_max
read_register t Register.queue_ready = ready_bit (current_queue t)
read_register t Register.interrupt_status = t.interrupt_status
read_register t Register.status = t.status
read_register t Register.config_generation = t.config_generation
read_register t _ = 0

unfoldable pub read : MmioTransport → ℕ → ℕ → ℕ
read t offset size =
    if leb config_space offset
    then read_config t (offset - config_space) size
    else read_register t (register_at offset)

unfoldable pub write_register : MmioTransport → Register → ℕ → MmioTransport
write_register t Register.device_features_sel v = record t { device_features_sel = v }
write_register t Register.driver_features v = write_driver_features t v
write_register t Register.driver_features_sel v = record t { driver_features_sel = v }
write_register t Register.queue_sel v = record t { queue_sel = v }
write_register t Register.queue_num v = with_current_queue t (λ q. record q { size = v })
write_register t Register.queue_ready v =
    with_current_queue t (λ q. record q { ready = not (bit_and v 1 == 0) })
write_register t Register.queue_notify v = record t { pending_notify = some v }
write_register t Register.interrupt_ack v = record t {
  interrupt_status = bit_and t.interrupt_status (2 ^ 32 - 1 - v);
}
write_register t Register.status v = write_status t v
write_register t Register.queue_desc_low v =
    with_current_queue t (λ q. record q { desc = set_low q.desc v })
write_register t Register.queue_desc_high v =
    with_current_queue t (λ q. record q { desc = set_high q.desc v })
write_register t Register.queue_driver_low v =
    with_current_queue t (λ q. record q { driver = set_low q.driver v })
write_register t Register.queue_driver_high v =
    with_current_queue t (λ q. record q { driver = set_high q.driver v })
write_register t Register.queue_device_low v =
    with_current_queue t (λ q. record q { device = set_low q.device v })
write_register t Register.queue_device_high v =
    with_current_queue t (λ q. record q { device = set_high q.device v })
write_register t _ v = t

unfoldable pub write : MmioTransport → ℕ → ℕ → ℕ → MmioTransport
write t offset size value =
    if leb config_space offset
    then write_config t (offset - config_space) size value
    else write_register t (register_at offset) (value % 2 ^ 32)
