-- ===== src/VirtQueue/Tests/Chains.antt =====
-- Descriptors, chains and tables at concrete inputs.
use rust_nano_vm.Prelude.{
  ℕ, ◌+◌, ◌*◌, ◌≤◌, ◌<◌, ◌≡◌, refl, arith, ◌⊎◌, inr, true, some, none, List, [], ◌∷◌, replicate,
  length, get_elem?, ok, err,
}
use rust_nano_vm.Bytes.Buffer.{slice}
use rust_nano_vm.Words.{is_power_of_two}
use rust_nano_vm.VirtQueue.Error.{chain_too_long, bad_queue_size, max_queue_size, short_table}
use rust_nano_vm.VirtQueue.Size.{IsSize}
use rust_nano_vm.VirtQueue.Desc
use rust_nano_vm.VirtQueue.Desc.{Descriptor}
use rust_nano_vm.VirtQueue.Desc.RoundTrip.{decoded}
use rust_nano_vm.VirtQueue.Packed.{PackedDesc}
use rust_nano_vm.VirtQueue.Chain
use rust_nano_vm.VirtQueue.Chain.{new, collect, next_item}
use rust_nano_vm.VirtQueue.Chain.Links.{Links, here, link}
use rust_nano_vm.VirtQueue.Chain.Walk.{Walked, collect-Walked, collect-Links}
use rust_nano_vm.VirtQueue.Table.{parse_descriptor_table}
use rust_nano_vm.VirtQueue.Table.Parsed.{
  entries, parse_descriptor_table_lem, parse_descriptor_table_entry,
}
use rust_nano_vm.VirtQueue.Guest.{write_to_guest}
use rust_nano_vm.VirtQueue.Guest.Slice
use rust_nano_vm.VirtQueue.Guest.Slice.{SliceGuestMemory, slice_memory, slice_memory-IsMemory}
use rust_nano_vm.VirtQueue.Guest.Access.{write_to_guest_contained}

-- A writable buffer of four bytes at 0x1002, followed by the descriptor 1.
abbrev rx : Descriptor
rx = record { addr = 0x1002; len = 4; flags = 3; next = 1 }

-- The last of its chain.
abbrev last : Descriptor
last = record { addr = 0x1008; len = 2; flags = 0; next = 0 }

abbrev looping : Descriptor
looping = record { addr = 0; len = 0; flags = 1; next = 0 }

abbrev zeros : List ℕ
zeros = replicate 20 0

abbrev packed : PackedDesc
packed = record { addr = 0x1002; len = 4; id = 7; flags = 128 }

cycle_is_cut :
    collect 4 (new (looping ∷ looping ∷ []) 0)
    ≡ (ok looping ∷ ok looping ∷ err (chain_too_long 2) ∷ [], true)
unfolding collect next_item new Chain.from_index Chain.look Chain.visit Desc.has_next
cycle_is_cut = refl

-- The second descriptor of the chain links to itself.
collect-Walked_example :
    let (items, end) = collect (length (rx ∷ looping ∷ []) + 2) (new (rx ∷ looping ∷ []) 0) in
    Walked (rx ∷ looping ∷ []) (length (rx ∷ looping ∷ [])) (some 0) items × (end ≡ true)
collect-Walked_example = collect-Walked (rx ∷ looping ∷ []) 0

rx_chain : Links (rx ∷ last ∷ []) (some 0) (rx ∷ last ∷ []) none
unfolding Desc.has_next
rx_chain = link refl (link refl here)

collect-Links_example : collect 4 (new (rx ∷ last ∷ []) 0) ≡ (ok rx ∷ ok last ∷ [], true)
collect-Links_example = collect-Links (rx ∷ last ∷ []) 0 (rx ∷ last ∷ []) rx_chain (omega arith)

abbrev window : SliceGuestMemory
window = record { base_addr = 0x1000; bytes = zeros }

abbrev filled : SliceGuestMemory
filled = record window { bytes = 0 ∷ 0 ∷ 9 ∷ 8 ∷ 7 ∷ 6 ∷ replicate 14 0 }

fill : write_to_guest slice_memory rx window (9 ∷ 8 ∷ 7 ∷ 6 ∷ []) ≡ ok (filled, 4)
unfolding write_to_guest Slice.write Slice.checked_bounds Desc.is_writable
fill = refl

-- The two bytes behind the buffer.
write_to_guest_contained_example : Slice.read filled 0x1006 2 ≡ Slice.read window 0x1006 2
write_to_guest_contained_example =
    write_to_guest_contained slice_memory slice_memory-IsMemory rx window (9 ∷ 8 ∷ 7 ∷ 6 ∷ [])
      filled 4 0x1006 2 fill (inr (omega arith))

-- Two entries of zeros, and a byte that is no part of the table.
abbrev table_bytes : List ℕ
table_bytes = replicate 33 0

parse_descriptor_table_entry_example :
    (ds : List Descriptor) × (parse_descriptor_table table_bytes 2 ≡ ok ds)
    × (length ds ≡ 2)
    × (get_elem? ds 1 ≡ some (decoded (slice (1 * 16) 16 table_bytes)))
parse_descriptor_table_entry_example =
    parse_descriptor_table_entry table_bytes 2 1 (omega arith, unfold is_power_of_two in refl)
      (omega arith) (omega arith)

parse_descriptor_table_lem_example :
    ((IsSize 2 → ⊥)
      × (parse_descriptor_table table_bytes 2 ≡ err (bad_queue_size 2 max_queue_size)))
    ⊎ (IsSize 2
        × (length table_bytes < 2 * 16)
        × (parse_descriptor_table table_bytes 2
            ≡ err (short_table (length table_bytes) (2 * 16) 2)))
    ⊎ (IsSize 2
        × (2 * 16 ≤ length table_bytes)
        × (parse_descriptor_table table_bytes 2 ≡ ok (entries decoded 2 0 table_bytes)))
parse_descriptor_table_lem_example = parse_descriptor_table_lem table_bytes 2
