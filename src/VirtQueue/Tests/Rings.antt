-- ===== src/VirtQueue/Tests/Rings.antt =====
-- The available and the used ring at concrete inputs.
use rust_nano_vm.Prelude.{◌+◌, ◌%◌, ◌^◌, ◌≡◌, refl, arith, true, [], ◌∷◌, replicate, ok}
use rust_nano_vm.Words.{is_power_of_two, wrapping_sub}
use rust_nano_vm.VirtQueue.Avail
use rust_nano_vm.VirtQueue.Avail.{AvailRing, AvailIter, iter_new, heads, head}
use rust_nano_vm.VirtQueue.Avail.Produced as Produced
use rust_nano_vm.VirtQueue.Avail.Produced.{produced, iter_new_lem}
use rust_nano_vm.VirtQueue.Used.{UsedRing, push_all}
use rust_nano_vm.VirtQueue.Used.Push as Push
use rust_nano_vm.VirtQueue.Used.Push.{counter}
use rust_nano_vm.VirtQueue.Used.Sequence.{seen, push_all_lem}

-- Two slots, and the counter at 1: the driver has wrapped since the device saw 65535.
abbrev avail : AvailRing
avail = record { bytes = 0 ∷ 0 ∷ 1 ∷ 0 ∷ 5 ∷ 0 ∷ 6 ∷ 0 ∷ 0 ∷ 0 ∷ []; qsize = 2 }

avail-IsRing : Produced.IsRing avail
unfolding is_power_of_two
avail-IsRing = record { size = (omega arith, refl); room = omega arith }

wrapped_run : heads 5 (record { ring = avail; next = 65535; end = 1 }) ≡ (ok 6 ∷ ok 5 ∷ [], true)
unfolding heads Avail.next_head head
wrapped_run = refl

iter_new_lem_example :
    (it : AvailIter) × (iter_new avail 65535 ≡ ok it)
    × (heads (2 ^ 16) it ≡ (produced avail 65535 (wrapping_sub 16 1 65535), true))
iter_new_lem_example = iter_new_lem avail 65535 avail-IsRing (omega arith) (omega arith)

-- Two slots, and the counter at 65535.
abbrev used : UsedRing
used = record { bytes = 0 ∷ 0 ∷ 255 ∷ 255 ∷ replicate 18 0; qsize = 2 }

used-IsRing : Push.IsRing used
unfolding is_power_of_two
used-IsRing = record { size = (omega arith, refl); room = omega arith }

push_all_lem_example :
    (u' : UsedRing) × (push_all used ((5, 300) ∷ (6, 0) ∷ []) ≡ ok u')
    × (seen u' (counter used) 2 ≡ ok (5, 300) ∷ ok (6, 0) ∷ [])
    × (counter u' % 2 ^ 16 ≡ (counter used + 2) % 2 ^ 16)
push_all_lem_example =
    push_all_lem used ((5, 300) ∷ (6, 0) ∷ []) used-IsRing (omega arith) (omega arith)
