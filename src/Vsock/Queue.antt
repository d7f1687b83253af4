-- ===== src/Vsock/Queue.antt =====
-- crates/virtio-vsock/src/queue.rs: the split queue that the vsock device walks in guest memory.
-- Addresses wrap at 2 ^ 64, as in a build without overflow checks.
pub mod Linked
pub mod Popped
pub mod Stores
pub mod Scatter
pub mod Reported
pub mod Apart
use Prim.Native.Nat.{bit_and}
use rust_nano_vm.Prelude.{
  ℕ, zero, suc, ◌+◌, ◌-◌, ◌*◌, ◌%◌, min, Bool, true, false, not, ◌||◌, Option, none, some, List, [],
  ◌∷◌, ◌++◌, length, take, drop, ltb, leb, ◌==◌, if◌then◌else◌, Outcome, ok, err, fail_if, ◌>>=◌,
  ◌>>◌,
}
use rust_nano_vm.Words.{wrapping_add, is_power_of_two}
use rust_nano_vm.Bytes.Endian.{to_le, of_le}

pub data QueueError : Type 0 where
  out_of_bounds : (gpa len : ℕ) → QueueError
  bad_descriptor : (idx : ℕ) → QueueError
  chain_too_long : QueueError
  indirect_unsupported : QueueError

-- `read_at` fills a buffer of the given length; `write_at` gives the memory back.
pub record GuestRam : Type 1 where
  pub Mem : Type 0
  pub read_at : Mem → ℕ → ℕ → Outcome QueueError (List ℕ)
  pub write_at : Mem → ℕ → List ℕ → Outcome QueueError Mem

pub record Descriptor : Type 0 where
  pub addr : ℕ
  pub len : ℕ
  pub writable : Bool

pub record DescChain : Type 0 where
  pub head : ℕ
  pub descriptors : List Descriptor

-- `QueueConfig` of crates/virtio-vsock/src/mmio.rs
pub record QueueConfig : Type 0 where
  pub size : ℕ
  pub ready : Bool
  pub desc : ℕ
  pub driver : ℕ
  pub device : ℕ

pub record SplitQueue : Type 0 where
  pub size : ℕ
  pub desc : ℕ
  pub avail : ℕ
  pub used : ℕ
  pub next_avail : ℕ
  pub next_used : ℕ

-- Sums of u64 addresses.
abbrev pub at : ℕ → ℕ → ℕ
at base off = wrapping_add 64 base off

unfoldable pub new : QueueConfig → Option SplitQueue
new cfg =
    if not cfg.ready
      || ((cfg.size == 0) || (ltb 32768 cfg.size || not (is_power_of_two 32 cfg.size)))
    then none
    else some (record {
      size = cfg.size;
      desc = cfg.desc;
      avail = cfg.driver;
      used = cfg.device;
      next_avail = 0;
      next_used = 0;
    })

abbrev pub has_next : ℕ → Bool
has_next flags = not (bit_and flags 1 == 0)

abbrev pub is_writable : ℕ → Bool
is_writable flags = not (bit_and flags 2 == 0)

abbrev pub is_indirect : ℕ → Bool
is_indirect flags = not (bit_and flags 4 == 0)

unfoldable pub readable_len : List Descriptor → ℕ
readable_len [] = 0
readable_len (d ∷ ds) = let rest = readable_len ds in if d.writable then rest else d.len + rest

unfoldable pub writable_len : List Descriptor → ℕ
writable_len [] = 0
writable_len (d ∷ ds) = let rest = writable_len ds in if d.writable then d.len + rest else rest

-- The used ring's slot at the cursor.
abbrev pub elem_at : SplitQueue → ℕ
elem_at q = at (at q.used 4) (8 * (q.next_used % q.size))

module _ (g : GuestRam) where
  -- `read_u16`, `read_u32` and `read_u64`, for their number of bytes.
  unfoldable pub read_int : ℕ → g.Mem → ℕ → Outcome QueueError ℕ
  read_int n m gpa = do b ← g.read_at m gpa n; ok (of_le b)

  -- `write_u16` and `write_u32`
  unfoldable pub write_int : ℕ → g.Mem → ℕ → ℕ → Outcome QueueError g.Mem
  write_int n m gpa v = g.write_at m gpa (to_le n v)

  -- The loop of `collect_chain`, for the rounds that are left.
  unfoldable pub collect_from : SplitQueue → g.Mem → ℕ → ℕ → Outcome QueueError (List Descriptor)
  collect_from q m zero idx = err chain_too_long
  collect_from q m (suc rounds) idx = do
    fail_if (leb q.size idx) (bad_descriptor idx)
    addr ← read_int 8 m (at q.desc (16 * idx))
    len ← read_int 4 m (at (at q.desc (16 * idx)) 8)
    flags ← read_int 2 m (at (at q.desc (16 * idx)) 12)
    next ← read_int 2 m (at (at q.desc (16 * idx)) 14)
    fail_if (is_indirect flags) indirect_unsupported
    rest ← if has_next flags then collect_from q m rounds next else ok []
    ok (record { addr = addr; len = len; writable = is_writable flags } ∷ rest)

  unfoldable pub collect_chain : SplitQueue → g.Mem → ℕ → Outcome QueueError (List Descriptor)
  collect_chain q m head = collect_from q m q.size head

  -- The chain whose head stands at the cursor.
  unfoldable pub chain_at : SplitQueue → g.Mem → Outcome QueueError DescChain
  chain_at q m = do
    head ← read_int 2 m (at (at q.avail 4) (2 * (q.next_avail % q.size)))
    fail_if (leb q.size head) (bad_descriptor head)
    descriptors ← collect_chain q m head
    ok (record { head = head; descriptors = descriptors })

  -- `pop_avail`, with the queue after it: only a chain moves the cursor.
  unfoldable pub next_chain : SplitQueue → g.Mem → Outcome QueueError (Option DescChain)
  next_chain q m = do
    avail_idx ← read_int 2 m (at q.avail 2)
    if q.next_avail == avail_idx then ok none else (do c ← chain_at q m; ok (some c))

  abbrev pub advanced :
      SplitQueue
      → Outcome QueueError (Option DescChain)
      → SplitQueue × Outcome QueueError (Option DescChain)
  advanced q (ok (some c)) = (record q { next_avail = wrapping_add 16 q.next_avail 1 }, ok (some c))
  advanced q r = (q, r)

  unfoldable pub pop_avail : SplitQueue → g.Mem → SplitQueue × Outcome QueueError (Option DescChain)
  pop_avail q m = advanced q (next_chain q m)

  -- `read_readable`
  unfoldable pub read_readable : g.Mem → List Descriptor → Outcome QueueError (List ℕ)
  read_readable m [] = ok []
  read_readable m (d ∷ ds) =
      if d.writable
      then read_readable m ds
      else (do scratch ← g.read_at m d.addr d.len; rest ← read_readable m ds; ok (scratch ++ rest))

  -- The loop of `write_writable` from `off` on.
  unfoldable pub scatter : g.Mem → List ℕ → ℕ → List Descriptor → Outcome QueueError (g.Mem × ℕ)
  scatter m src off [] = ok (m, off)
  scatter m src off (d ∷ ds) =
      if not d.writable
      then scatter m src off ds
      else if leb (length src) off
      then ok (m, off)
      else (do
        let n = min d.len (length src - off)
        m' ← g.write_at m d.addr (take n (drop off src))
        scatter m' src (off + n) ds)

  unfoldable pub write_writable : g.Mem → List Descriptor → List ℕ → Outcome QueueError (g.Mem × ℕ)
  write_writable m ds src = scatter m src 0 ds

  -- `push_used`: the cursor moves once the element is written, before its publication, so also where
  -- the publication is refused. What a refused call wrote is not kept track of.
  abbrev pub publish : SplitQueue → Outcome QueueError g.Mem → SplitQueue × Outcome QueueError g.Mem
  publish q (ok m) =
      let next = wrapping_add 16 q.next_used 1 in
      (record q { next_used = next }, write_int 2 m (at q.used 2) next)
  publish q (err e) = (q, err e)
  publish q Outcome.panic = (q, Outcome.panic)

  unfoldable pub write_elem : SplitQueue → g.Mem → ℕ → ℕ → Outcome QueueError g.Mem
  write_elem q m head len = do
    m' ← write_int 4 m (elem_at q) head
    write_int 4 m' (at (elem_at q) 4) len

  unfoldable pub push_used : SplitQueue → g.Mem → ℕ → ℕ → SplitQueue × Outcome QueueError g.Mem
  push_used q m head len = publish q (write_elem q m head len)
