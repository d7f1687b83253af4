-- ===== src/Vsock/Mmio/Programming.antt =====
-- crates/virtio-vsock/src/mmio.rs: how a driver sets a queue up, and how it resets the device.
use rust_nano_vm.Prelude.{
  ℕ, zero, suc, ◌/◌, ◌%◌, ◌^◌, ◌<◌, ◌≡◌, refl, ap, sym, ◌∙◌, ◌⊎◌, inl, inr, true, none, some, List,
  [], ◌∷◌, map, replicate, arith, length, get_elem?, modify, get_elem?-modify_self,
  get_elem?-modify_other, ◌==◌, ==→eq, Bool-cases,
}
use rust_nano_vm.Vsock.Queue.{QueueConfig}
use rust_nano_vm.Vsock.Mmio.{
  MmioTransport, unset, queue, new_vsock, with_current_queue, set_low, set_high, reset,
  write_status, write_register, write,
}
use rust_nano_vm.Vsock.Mmio.Registers.{register_at}
use rust_nano_vm.Vsock.Mmio.Shape.{IsQueueConfig, IsTransport}

-- 32-bit writes, each an offset and a value.
unfoldable pub writes : MmioTransport → List (ℕ × ℕ) → MmioTransport
writes t [] = t
writes t ((offset, value) ∷ ws) = writes (write t offset 4 value) ws

-- What a driver writes to set up a queue: its index, its size, the three addresses by halves, and
-- that it is ready.
abbrev pub set_up : ℕ → QueueConfig → List (ℕ × ℕ)
set_up i c =
    (0x030, i)
    ∷ (0x038, c.size)
    ∷ (0x080, c.desc % 2 ^ 32)
    ∷ (0x084, c.desc / 2 ^ 32)
    ∷ (0x090, c.driver % 2 ^ 32)
    ∷ (0x094, c.driver / 2 ^ 32)
    ∷ (0x0a0, c.device % 2 ^ 32)
    ∷ (0x0a4, c.device / 2 ^ 32)
    ∷ (0x044, 1)
    ∷ []

-- The changes that the writes after the first make of the selected queue.
abbrev changes : QueueConfig → List (QueueConfig → QueueConfig)
changes c =
    (λ q. record q { size = c.size % 2 ^ 32 })
    ∷ (λ q. record q { desc = set_low q.desc (c.desc % 2 ^ 32 % 2 ^ 32) })
    ∷ (λ q. record q { desc = set_high q.desc (c.desc / 2 ^ 32 % 2 ^ 32) })
    ∷ (λ q. record q { driver = set_low q.driver (c.driver % 2 ^ 32 % 2 ^ 32) })
    ∷ (λ q. record q { driver = set_high q.driver (c.driver / 2 ^ 32 % 2 ^ 32) })
    ∷ (λ q. record q { device = set_low q.device (c.device % 2 ^ 32 % 2 ^ 32) })
    ∷ (λ q. record q { device = set_high q.device (c.device / 2 ^ 32 % 2 ^ 32) })
    ∷ (λ q. record q { ready = true })
    ∷ []

abbrev applied {ℓ} : {A : Type ℓ} → List (A → A) → A → A
applied [] x = x
applied (f ∷ fs) x = applied fs (f x)

abbrev modified {ℓ} : {A : Type ℓ} → ℕ → List (A → A) → List A → List A
modified i [] xs = xs
modified i (f ∷ fs) xs = modified i fs (modify i f xs)

module _ {ℓ} {A : Type ℓ} where
  get_elem?-modified :
      (i : ℕ) (fs : List (A → A)) (xs : List A) (x : A)
      → get_elem? xs i ≡ some x
      → get_elem? (modified i fs xs) i ≡ some (applied fs x)
  get_elem?-modified i [] xs x h = h
  get_elem?-modified i (f ∷ fs) xs x h =
      get_elem?-modified i fs (modify i f xs) (f x) (get_elem?-modify_self i f xs x h)

  get_elem?-modified_other :
      (i j : ℕ) (fs : List (A → A)) (xs : List A)
      → (j ≡ i) ⊎ (get_elem? (modified i fs xs) j ≡ get_elem? xs j)
  get_elem?-modified_other i j [] xs = inr refl
  get_elem?-modified_other i j (f ∷ fs) xs = elim (get_elem?-modify_other i j f xs) [
    | inl e ↦ inl e
    | inr e ↦ elim (get_elem?-modified_other i j fs (modify i f xs)) [
      | inl same ↦ inl same
      | inr e' ↦ inr (e' ∙ e)
    ]
  ]

  get_elem?-in : (i : ℕ) (xs : List A) → i < length xs → (x : A) × (get_elem? xs i ≡ some x)
  get_elem?-in i [] h = absurd (omega arith)
  get_elem?-in zero (x ∷ xs) h = (x, refl)
  get_elem?-in (suc i) (x ∷ xs) h = get_elem?-in i xs (omega arith)

-- The two halves of an address, each written in its turn.
halves :
    (old addr : ℕ)
    → addr < 2 ^ 64
    → set_high (set_low old (addr % 2 ^ 32 % 2 ^ 32)) (addr / 2 ^ 32 % 2 ^ 32) ≡ addr
halves old addr h = omega arith

all_changed : (c q : QueueConfig) → IsQueueConfig c → c.ready ≡ true → applied (changes c) q ≡ c
all_changed c q (size, desc, driver, device) ready =
    let size_same : c.size % 2 ^ 32 ≡ c.size = omega arith in
    λ k. record {
      size = size_same k;
      ready = sym ready k;
      desc = halves q.desc c.desc desc k;
      driver = halves q.driver c.driver driver k;
      device = halves q.device c.device device k;
    }

-- After a driver has written a queue's index, its size, the halves of its three addresses and that
-- it is ready, the transport has that queue set up with the 64-bit addresses, every other queue as
-- it was, and the status as it was.
pub set_up_lem :
    (t : MmioTransport) (i : ℕ) (c : QueueConfig)
    → IsTransport t
    → i < 3
    → IsQueueConfig c
    → c.ready ≡ true
    → (queue (writes t (set_up i c)) i ≡ some c)
      × ((j : ℕ) → (j ≡ i) ⊎ (queue (writes t (set_up i c)) j ≡ queue t j))
      × ((writes t (set_up i c)).status ≡ t.status)
unfolding writes write register_at write_register with_current_queue
set_up_lem t i c (_, (three, _), _, _, _, _) lt fits ready =
    let sel : i % 2 ^ 32 ≡ i = omega arith in
    let (q, there) = get_elem?-in i t.queues (omega (arith, three)) in
    (
      rw sel (
          get_elem?-modified i (changes c) t.queues q there ∙ ap some (all_changed c q fits ready)),
      λ j. rw sel (get_elem?-modified_other i j (changes c) t.queues),
      refl,
    )

unset_three : (qs : List QueueConfig) → length qs ≡ 3 → map (λ _. unset) qs ≡ replicate 3 unset
unset_three (q1 ∷ q2 ∷ q3 ∷ []) h = refl
unset_three [] h = absurd (omega arith)
unset_three (q1 ∷ []) h = absurd (omega arith)
unset_three (q1 ∷ q2 ∷ []) h = absurd (omega arith)
unset_three (q1 ∷ q2 ∷ q3 ∷ q4 ∷ qs) h = absurd (omega arith)

-- A driver's write to the status register puts the value there and changes nothing else, unless
-- the value is 0: then the device is as a new one but for its config space and the generation of
-- that.
pub write_status_lem :
    (t : MmioTransport) (size value cid : ℕ)
    → IsTransport t
    → value < 2 ^ 32
    → ((¬ (value ≡ 0)) × (write t 0x070 size value ≡ record t { status = value }))
      ⊎ ((value ≡ 0)
          × (write t 0x070 size value ≡ record (new_vsock cid) {
            config = t.config;
            config_generation = t.config_generation;
          }))
unfolding write register_at write_register write_status reset new_vsock
write_status_lem t size value cid ((id_same, features_same), (three, _), _, _, _, _) lt =
    let same : value % 2 ^ 32 ≡ value = omega arith in
    elim (Bool-cases (value == 0)) [
      | inl e ↦ inr (
        ==→eq _ _ e,
        rw (same, write_status, e)
            λ k. record {
              device_id = id_same k;
              device_features = features_same k;
              config = t.config;
              device_features_sel = 0;
              driver_features = 0;
              driver_features_sel = 0;
              status = 0;
              queue_sel = 0;
              queues = unset_three t.queues three k;
              interrupt_status = 0;
              config_generation = t.config_generation;
              pending_notify = none;
            },
      )
      | inr e ↦ inl (ground (arith, e), rw (same, write_status, e) refl)
    ]
