-- ===== src/ControlPlane/WarmPool/Tests.antt =====
-- Runs of the pool of crates/control-plane/src/warm_pool.rs, with a target depth of one VM.
use rust_nano_vm.Prelude.{ℕ, ◌≡◌, refl, Bool, [], ◌∷◌, ◌==◌, ok}
use rust_nano_vm.Maps.{nat_key, get, insert, remove}
use rust_nano_vm.Hypervisor.Types.{VmHandle, running}
use rust_nano_vm.ControlPlane.WarmPool.{
  released, ready, depth, pop_front, reserve, release, push_back, forget,
}
use rust_nano_vm.ControlPlane.WarmPool.Steps.{
  World, start, take, kick_refill, restore, give_up, settle, drain, takes, kicks, restores,
  gives_up, settles, Reach, here, next,
}
use rust_nano_vm.ControlPlane.WarmPool.Conserved.{IsConserved, Reach-IsConserved}
use rust_nano_vm.ControlPlane.WarmPool.Bounded.{IsBounded, Reach-IsBounded}

abbrev child : ℕ → VmHandle
child n = record { id = n; state = running }

abbrev is_child : ℕ → VmHandle → Bool
is_child n h = h.id == n

-- A first take finds nothing, and its refill task restores VM 40 from snapshot 7.
abbrev asked : World
asked = take 7 (start 1)

abbrev counted : World
counted = kick_refill 7 [] asked

abbrev restored : World
restored = restore 7 (ok (child 40)) [] [] counted

abbrev given : World
given = give_up 7 (ok (child 40)) [] [] restored

abbrev warm : World
warm = settle 7 (ok (child 40)) [] given

to_restored : Reach (start 1) restored
unfolding pop_front reserve get insert remove
to_restored =
    next (next (next here (takes (start 1) 7 refl)) (kicks asked 7 [] [] refl))
      (restores counted 7 (ok (child 40)) [] [] refl)

to_given : Reach (start 1) given
to_given = next to_restored (gives_up restored 7 (ok (child 40)) [] [] refl)

-- The next take gets the VM, and the one after it finds none.
abbrev hit : World
hit = take 7 warm

first_take_misses : asked.handed ≡ []
unfolding pop_front get
first_take_misses = refl

warmed : depth 7 warm.pool ≡ 1
unfolding pop_front reserve release push_back get insert remove
warmed = refl

second_take_hits : hit.handed ≡ (7, child 40) ∷ []
unfolding pop_front reserve release push_back get insert remove
second_take_hits = refl

-- A drain that comes before the last section of the task does not see its VM, which is put into
-- the queue afterwards.
abbrev drained : World
drained = drain 7 given

abbrev late : World
late = settle 7 (ok (child 40)) [] drained

late_child : (drained.draining ≡ []) × (ready 7 late.pool.inner ≡ child 40 ∷ [])
unfolding pop_front reserve release push_back forget get insert remove
late_child = (refl, refl)

-- A take that comes between the two sections of the task counts its VM nowhere, and spawns another
-- task: the depth is then more than the target.
abbrev asked_again : World
asked_again = take 7 given

abbrev counted_again : World
counted_again = kick_refill 7 [] asked_again

abbrev deeper : World
deeper = settle 7 (ok (child 41)) [] (
    settle 7 (ok (child 40)) [] (
      give_up 7 (ok (child 41)) [] (record { snap = 7; phase = released (ok (child 40)) } ∷ []) (
        restore 7 (ok (child 41)) [] (record { snap = 7; phase = released (ok (child 40)) } ∷ [])
          counted_again)))

too_deep : depth 7 deeper.pool ≡ 2
unfolding pop_front reserve release push_back get insert remove
too_deep = refl

to_hit : Reach (start 1) hit
unfolding pop_front reserve release push_back get insert remove
to_hit = next (next to_given (settles given 7 (ok (child 40)) [] [] refl)) (takes warm 7 refl)

Reach-IsConserved_example : IsConserved 7 (is_child 40) hit
Reach-IsConserved_example = Reach-IsConserved 7 (is_child 40) 1 to_hit

Reach-IsBounded_example : IsBounded 7 restored
unfolding pop_front reserve get insert remove
Reach-IsBounded_example = Reach-IsBounded 7 1 to_restored refl
