-- ===== src/VirtQueue/Size.antt =====
-- crates/virtio-queue/src/lib.rs: `validate_qsize`.
use rust_nano_vm.Prelude.{
  ℕ, ◌≤◌, ◌≡◌, arith, true, not, ◌||◌, ◌==◌, ltb, ◌⊎◌, Outcome, ok, err, fail_if,
}
use rust_nano_vm.Words.{is_power_of_two, is_power_of_two-pos}
use rust_nano_vm.VirtQueue.Error.{QueueError, bad_queue_size, max_queue_size}

unfoldable pub validate_qsize : ℕ → Outcome QueueError (Unit {0})
validate_qsize qsize =
    fail_if ((qsize == 0 || ltb max_queue_size qsize) || not (is_power_of_two 16 qsize))
      (bad_queue_size qsize max_queue_size)

-- What `validate_qsize` lets through.
abbrev pub IsSize : ℕ → Type 0
IsSize qsize = (qsize ≤ max_queue_size) × (is_power_of_two 16 qsize ≡ true)

pub validate_qsize_cases :
    (q : ℕ)
    → (IsSize q × (validate_qsize q ≡ ok tt))
      ⊎ ((IsSize q → ⊥) × (validate_qsize q ≡ err (bad_queue_size q max_queue_size)))
unfolding validate_qsize
validate_qsize_cases q = ground (arith, is_power_of_two-pos 16 q)
