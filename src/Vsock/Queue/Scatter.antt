-- ===== src/Vsock/Queue/Scatter.antt =====
-- crates/virtio-vsock/src/queue.rs: the bytes that the device writes into a chain.
use rust_nano_vm.Prelude.{
  ℕ, zero, suc, ◌+◌, ◌-◌, ◌≤◌, ◌<◌, ◌≡◌, refl, ap, sym, ◌∙◌, ◌⊎◌, inl, inr, arith, min, true, false,
  List, [], ◌∷◌, ◌++◌, All, map, length, take, drop, take-min, drop-min, drop-drop, drop_all,
  take-add, length-take, length-drop, leb, leb→le, subst, Bool-cases, if◌then◌else◌, Outcome, ok,
  err, ◌>>=◌,
}
use rust_nano_vm.Bytes.Fields.{joined}
use rust_nano_vm.Vsock.Queue.{
  QueueError, GuestRam, Descriptor, writable_len, scatter, write_writable,
}
use rust_nano_vm.Vsock.Queue.Stores.{
  IsRam, Store, stores, RefusedAt, stores-cases, RefusedAt-bind, stores_apart,
}

-- A range of memory that no writable buffer of the chain meets.
abbrev pub Apart : ℕ → ℕ → Descriptor → Type 0
Apart b n d = (d.writable ≡ false) ⊎ (b + n ≤ d.addr) ⊎ (d.addr + d.len ≤ b)

-- The source cut up to the writable buffers of a chain, each with as much as it holds, as long as
-- something is left.
abbrev pub placed : List ℕ → List Descriptor → List Store
placed src [] = []
placed [] (d ∷ ds) = []
placed (x ∷ xs) (d ∷ ds) =
    let skipped = placed (x ∷ xs) ds in
    let rest = placed (drop d.len (x ∷ xs)) ds in
    if d.writable then (d.addr, take d.len (x ∷ xs)) ∷ rest else skipped

placed_nil : (ds : List Descriptor) → placed [] ds ≡ []
placed_nil [] = refl
placed_nil (d ∷ ds) = refl

placed_skip :
    (src : List ℕ) (d : Descriptor) (ds : List Descriptor)
    → d.writable ≡ false
    → placed src (d ∷ ds) ≡ placed src ds
placed_skip [] d ds e = sym (placed_nil ds)
placed_skip (x ∷ xs) d ds e = rw e refl

placed_put :
    (src : List ℕ) (d : Descriptor) (ds : List Descriptor)
    → d.writable ≡ true
    → 0 < length src
    → placed src (d ∷ ds) ≡ (d.addr, take d.len src) ∷ placed (drop d.len src) ds
placed_put [] d ds e some_left = absurd (omega arith)
placed_put (x ∷ xs) d ds e some_left = rw e refl

-- The pieces are the source up to the capacity.
joined-placed :
    (src : List ℕ) (ds : List Descriptor)
    → joined (map (λ w. w.1) (placed src ds)) ≡ take (writable_len ds) src
unfolding writable_len
joined-placed src [] = refl
joined-placed [] (d ∷ ds) = nothing (writable_len (d ∷ ds))
  where
    nothing : (n : ℕ) → [] ≡ take {A = ℕ} n []
    nothing zero = refl
    nothing (suc n) = refl
joined-placed (x ∷ xs) (d ∷ ds) = elim (Bool-cases d.writable) [
  | inr e ↦ rw e (joined-placed (x ∷ xs) ds)
  | inl e ↦ rw e (
      ap (◌++◌ (take d.len (x ∷ xs))) (joined-placed (drop d.len (x ∷ xs)) ds)
      ∙ take-add d.len (writable_len ds) (x ∷ xs))
]

placed-Apart :
    (b n : ℕ) (src : List ℕ) (ds : List Descriptor)
    → All (Apart b n) ds
    → All (λ w. (b + n ≤ w.0) ⊎ (w.0 + length w.1 ≤ b)) (placed src ds)
placed-Apart b n src [] h = tt
placed-Apart b n [] (d ∷ ds) h = tt
placed-Apart b n (x ∷ xs) (d ∷ ds) (apart, h) = elim (Bool-cases d.writable) [
  | inr e ↦ rw e (placed-Apart b n (x ∷ xs) ds h)
  | inl e ↦ rw e (
    elim apart [
      | inl not_written ↦ absurd (cc e)
      | inr (inl below) ↦ inl below
      | inr (inr above) ↦ inr (omega (arith, above, length-take d.len (x ∷ xs)))
    ],
    placed-Apart b n (drop d.len (x ∷ xs)) ds h,
  )
]

bind_then :
    {A B C : Type 0} (r : Outcome QueueError A) (f : A → Outcome QueueError B)
    (f' : A → Outcome QueueError C) (k : C → Outcome QueueError B)
    → ((a : A) → f a ≡ (f' a >>= k))
    → (r >>= f) ≡ ((r >>= f') >>= k)
bind_then (ok a) f f' k h = h a
bind_then (err e) f f' k h = refl
bind_then Outcome.panic f f' k h = refl

module _ (g : GuestRam) where
  -- The loop from `off` on makes the writes of the rest of the source, one after the other.
  scatter-stores :
      (m : g.Mem) (src : List ℕ) (off : ℕ) (ds : List Descriptor)
      → off ≤ length src
      → scatter g m src off ds ≡ (
          stores g m (placed (drop off src) ds) >>= λ m'.
          ok (m', off + min (length src - off) (writable_len ds)))
  unfolding scatter writable_len stores
  scatter-stores m src off [] le = ap (λ (n : ℕ). ok (m, n)) (omega arith)
  scatter-stores m src off (d ∷ ds) le = elim (Bool-cases d.writable) [
    | inr e ↦ rw (placed_skip (drop off src) d ds e, e) (scatter-stores m src off ds le)
    | inl e ↦ elim (Bool-cases (leb (length src) off)) [
      | inl out ↦
          let over = leb→le (length src) off out in
          rw (drop_all off src over, e, out) (ap (λ (n : ℕ). ok (m, n)) (omega (arith, over)))
      | inr more ↦
          put e more
            (λ m'. scatter-stores m' src (off + min d.len (length src - off)) ds (omega arith))
    ]
  ]
    where
      put :
          d.writable ≡ true
          → leb (length src) off ≡ false
          → ((m' : g.Mem)
              → scatter g m' src (off + min d.len (length src - off)) ds ≡ (
                  stores g m' (placed (drop (off + min d.len (length src - off)) src) ds) >>= λ m''.
                  ok (
                    m'',
                    off
                        + min d.len (length src - off)
                        + min (length src - (off + min d.len (length src - off))) (writable_len ds),
                  )))
          → scatter g m src off (d ∷ ds) ≡ (
              stores g m (placed (drop off src) (d ∷ ds)) >>= λ m'.
              ok (m', off + min (length src - off) (writable_len (d ∷ ds))))
      put e more onward =
          let xs = drop off src in
          let left = length-drop off src in
          let k = min d.len (length src - off) in
          let size : k ≡ min d.len (length xs) = omega (arith, left) in
          let cut : take k xs ≡ take d.len xs =
            ap (λ (n : ℕ). take n xs) size ∙ take-min d.len xs in
          let rest : drop (off + k) src ≡ drop d.len xs =
            drop-drop off k src ∙ ap (λ (n : ℕ). drop n xs) size ∙ drop-min d.len xs in
          let there : 0 < length xs = ground (arith, more, left) in
          rw (placed_put xs d ds e there, e, more, cut)
            (bind_then (g.write_at m d.addr (take d.len xs)) (λ m'. scatter g m' src (off + k) ds)
              (λ m'. stores g m' (placed (drop d.len xs) ds))
              (λ m'. ok (m', off + min (length src - off) (d.len + writable_len ds)))
              (λ m'.
                onward m'
                ∙ rw rest (
                    ap (λ (n : ℕ). stores g m' (placed (drop d.len xs) ds) >>= λ m''. ok (m'', n))
                      (omega arith))))

  -- In a lawful guest memory `write_writable` writes the source, as far as the chain's writable
  -- buffers hold it, cut up to these buffers at their addresses and in their order. Where the memory
  -- takes all of these writes, it returns the lesser of the source's length and the buffers'
  -- capacity, in the memory after them, and what is read of a range that meets none of the buffers
  -- is what it was. Otherwise it fails as the memory does at the first write that is refused.
  pub write_writable-Scattered :
      IsRam g
      → (m : g.Mem) (ds : List Descriptor) (src : List ℕ) (b n : ℕ) → All (Apart b n) ds
      → (joined (map (λ w. w.1) (placed src ds)) ≡ take (writable_len ds) src)
        × (((m' : g.Mem) × (stores g m (placed src ds) ≡ ok m')
              × (write_writable g m ds src ≡ ok (m', min (length src) (writable_len ds)))
              × (g.read_at m' b n ≡ g.read_at m b n))
            ⊎ RefusedAt g m (placed src ds) (write_writable g m ds src))
  unfolding write_writable
  write_writable-Scattered ram m ds src b n apart =
      let finish : g.Mem → Outcome QueueError (g.Mem × ℕ) =
        λ m'. ok (m', 0 + min (length src - 0) (writable_len ds)) in
      let same = scatter-stores m src 0 ds (omega arith) in
      (
        joined-placed src ds,
        elim (stores-cases g m (placed src ds)) [
          | inl (m', e) ↦ inl (
            m',
            e,
            same ∙ rw e (ap (λ (k : ℕ). ok (m', k)) (omega arith)),
            stores_apart g ram m m' (placed src ds) b n (placed-Apart b n src ds apart) e,
          )
          | inr refused ↦
              inr
                (subst (RefusedAt g m (placed src ds)) (sym same) (RefusedAt-bind g finish refused))
        ],
      )
