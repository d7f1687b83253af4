-- ===== src/Vsock/Mmio/Shape.antt =====
-- crates/virtio-vsock/src/mmio.rs: what holds of the registers whatever a driver writes.
use Prim.Native.Nat.{bit_and, bit_or, bitwise, bit_and-bitwise}
use rust_nano_vm.Prelude.{
  min, ℕ, zero, suc, ◌-◌, ◌/◌, ◌%◌, ◌^◌, ◌≤◌, ◌≡◌, refl, ap, ◌∙◌, List, [], ◌∷◌, map, arith, length,
  All, modify, length-modify, modify-All, leb, ◌==◌, Bool-cases, inl, inr,
}
use rust_nano_vm.Bytes.Endian.{IsByte, IsU32, IsU64, to_le-IsByte, length-to_le}
use rust_nano_vm.Vsock.Queue.{QueueConfig}
use rust_nano_vm.Vsock.Mmio.{
  MmioTransport, unset, new_vsock, with_current_queue, write_driver_features, reset, write_status,
  write_bytes, write_config, write_register, write, raise_interrupt,
}
use rust_nano_vm.Vsock.Mmio.Registers.{
  Register, virtio_id_vsock, virtio_f_version_1, virtio_vsock_num_queues, config_space, register_at,
}

abbrev pub IsQueueConfig : QueueConfig → Type 0
IsQueueConfig q = IsU32 q.size × IsU64 q.desc × IsU64 q.driver × IsU64 q.device

-- The three queues, and the config space.
abbrev pub IsQueues : List QueueConfig → Type 0
IsQueues qs = (length qs ≡ virtio_vsock_num_queues) × All IsQueueConfig qs

abbrev pub IsConfig : List ℕ → Type 0
IsConfig config = (length config ≡ 8) × All IsByte config

-- A vsock device with its three queues, in which each register fits its type and no interrupt bit
-- but that of the rings is set.
abbrev pub IsTransport : MmioTransport → Type 0
IsTransport t =
    ((t.device_id ≡ virtio_id_vsock) × (t.device_features ≡ virtio_f_version_1))
    × IsQueues t.queues
    × IsConfig t.config
    × IsU64 t.driver_features
    × IsU32 t.status
    × (t.interrupt_status ≤ 1)

unset-IsQueueConfig : IsQueueConfig unset
unset-IsQueueConfig = (omega arith, omega arith, omega arith, omega arith)

pub new_vsock-IsTransport : (guest_cid : ℕ) → IsTransport (new_vsock guest_cid)
unfolding new_vsock
new_vsock-IsTransport guest_cid =
    let u = unset-IsQueueConfig in
    (
      (refl, refl),
      (refl, (u, (u, (u, tt)))),
      (length-to_le 8 guest_cid, to_le-IsByte 8 guest_cid),
      omega arith,
      omega arith,
      omega arith,
    )

-- A change of the selected queue.
modify-IsQueues :
    (i : ℕ) (f : QueueConfig → QueueConfig) (qs : List QueueConfig)
    → ((q : QueueConfig) → IsQueueConfig q → IsQueueConfig (f q))
    → IsQueues qs
    → IsQueues (modify i f qs)
modify-IsQueues i f qs keeps (three, fits) =
    (length-modify i f qs ∙ three, modify-All IsQueueConfig i f qs keeps fits)

unset-All :
    (qs : List QueueConfig)
    → (length (map (λ _. unset) qs) ≡ length qs) × All IsQueueConfig (map (λ _. unset) qs)
unset-All [] = (refl, tt)
unset-All (q ∷ qs) = let (same, fits) = unset-All qs in (ap suc same, (unset-IsQueueConfig, fits))

write_bytes-IsConfig :
    (off n value : ℕ) (config : List ℕ)
    → IsConfig config
    → IsConfig (write_bytes config off n value).0
write_bytes-IsConfig off zero value config h = h
write_bytes-IsConfig off (suc n) value config (eight, bytes) =
    write_bytes-IsConfig (suc off) n (value / 256) (modify off (λ _. value % 256) config) (
      length-modify off _ config ∙ eight,
      modify-All IsByte off (λ _. value % 256) config (λ b h. omega arith) bytes,
    )

-- One bit of the interrupt register.
masked : (i b : ℕ) → i ≤ 1 → bit_and i b ≡ min i (b % 2)
masked i b h = (λ j. bit_and-bitwise i b j) ∙ digit i h
  where
    digit : (i : ℕ) → i ≤ 1 → bitwise (λ b. zero) min i b ≡ min i (b % 2)
    digit zero h = omega arith
    digit (suc zero) h = omega arith
    digit (suc (suc i)) h = absurd (omega arith)

pub raised : (i : ℕ) → i ≤ 1 → bit_or i 1 ≡ 1
raised zero h = refl
raised (suc zero) h = refl
raised (suc (suc i)) h = absurd (omega arith)

pub raise_interrupt-IsTransport :
    (t : MmioTransport) → IsTransport t → IsTransport (raise_interrupt t)
unfolding raise_interrupt
raise_interrupt-IsTransport t (same, queues, config, features, status, interrupt) =
    (same, queues, config, features, status, omega (arith, raised t.interrupt_status interrupt))

-- A write to a register keeps the shape, whatever the value.
module _ (t : MmioTransport) (v : ℕ) (v_fits : IsU32 v) (h : IsTransport t) where
  changed :
      (f : QueueConfig → QueueConfig)
      → ((q : QueueConfig) → IsQueueConfig q → IsQueueConfig (f q))
      → IsTransport (with_current_queue t f)
  unfolding with_current_queue
  changed f keeps =
      let (same, queues, config, features, status, interrupt) = h in
      (
        same,
        modify-IsQueues t.queue_sel f t.queues keeps queues,
        config,
        features,
        status,
        interrupt,
      )

  reset-IsTransport : IsTransport (reset t)
  unfolding reset
  reset-IsTransport =
      let (same, (three, queues), config, features, status, interrupt) = h in
      let (kept, fits) = unset-All t.queues in
      (same, (kept ∙ three, fits), config, omega arith, omega arith, omega arith)

  status_written : IsTransport (write_status t v)
  unfolding write_status
  status_written = elim (Bool-cases (v == 0)) [
    | inl e ↦ rw e reset-IsTransport
    | inr e ↦
        let (same, queues, config, features, status, interrupt) = h in
        rw e (same, queues, config, features, v_fits, interrupt)
  ]

  features_written : IsTransport (write_driver_features t v)
  unfolding write_driver_features
  features_written =
      let (same, queues, config, features, status, interrupt) = h in
      elim (Bool-cases (t.driver_features_sel == 0)) [
        | inl e ↦ rw e (same, queues, config, omega arith, status, interrupt)
        | inr e ↦ elim (Bool-cases (t.driver_features_sel == 1)) [
          | inl e' ↦ rw (e, e') (same, queues, config, omega arith, status, interrupt)
          | inr e' ↦ rw (e, e') h
        ]
      ]

  write_register-IsTransport : (r : Register) → IsTransport (write_register t r v)
  unfolding write_register
  write_register-IsTransport Register.driver_features = features_written
  write_register-IsTransport Register.status = status_written
  write_register-IsTransport Register.interrupt_ack =
      let (same, queues, config, features, status, interrupt) = h in
      (
        same,
        queues,
        config,
        features,
        status,
        omega (arith, masked t.interrupt_status (2 ^ 32 - 1 - v) interrupt),
      )
  write_register-IsTransport Register.queue_num =
      changed _ (λ q (size, desc, driver, device). (v_fits, desc, driver, device))
  write_register-IsTransport Register.queue_ready = changed _ (λ q k. k)
  write_register-IsTransport Register.queue_desc_low =
      changed _ (λ q (size, desc, driver, device). (size, omega arith, driver, device))
  write_register-IsTransport Register.queue_desc_high =
      changed _ (λ q (size, desc, driver, device). (size, omega arith, driver, device))
  write_register-IsTransport Register.queue_driver_low =
      changed _ (λ q (size, desc, driver, device). (size, desc, omega arith, device))
  write_register-IsTransport Register.queue_driver_high =
      changed _ (λ q (size, desc, driver, device). (size, desc, omega arith, device))
  write_register-IsTransport Register.queue_device_low =
      changed _ (λ q (size, desc, driver, device). (size, desc, driver, omega arith))
  write_register-IsTransport Register.queue_device_high =
      changed _ (λ q (size, desc, driver, device). (size, desc, driver, omega arith))
  write_register-IsTransport _ = h

-- A driver's write of any size and value at any offset keeps the shape: a vsock device of virtio 1
-- with its three queues, each register and each address within its type, the config space of 8
-- bytes, and no interrupt bit but that of the rings.
pub write-IsTransport :
    (t : MmioTransport) (offset size value : ℕ)
    → IsTransport t
    → IsTransport (write t offset size value)
unfolding write write_config
write-IsTransport t offset size value h = elim (Bool-cases (leb config_space offset)) [
  | inl e ↦
      let (same, queues, config, features, status, interrupt) = h in
      rw e (
        same,
        queues,
        write_bytes-IsConfig (offset - config_space) size value t.config config,
        features,
        status,
        interrupt,
      )
  | inr e ↦
      rw e (write_register-IsTransport t (value % 2 ^ 32) (omega arith) h (register_at offset))
]
