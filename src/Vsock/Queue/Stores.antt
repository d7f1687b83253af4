-- ===== src/Vsock/Queue/Stores.antt =====
-- crates/virtio-vsock/src/queue.rs: a run of writes to the guest's memory, and where it ends if the
-- memory refuses one.
use rust_nano_vm.Prelude.{
  ℕ, ◌+◌, ◌≤◌, ◌≡◌, refl, ap, sym, ◌∙◌, ◌⊎◌, inl, inr, List, [], ◌∷◌, ◌++◌, All, length, Outcome,
  ok, err, ◌>>=◌, Outcome-cases, bind_failed,
}
use rust_nano_vm.Vsock.Queue.{QueueError, GuestRam}

-- What a guest's memory is: a write is read back, and changes nothing outside its range.
pub record IsRam (g : GuestRam) : Type 0 where
  pub read-write_self :
      (m : g.Mem) (a : ℕ) (src : List ℕ) {m' : g.Mem}
      → g.write_at m a src ≡ ok m'
      → g.read_at m' a (length src) ≡ ok src
  pub read-write_apart :
      (m : g.Mem) (a : ℕ) (src : List ℕ) (b n : ℕ) {m' : g.Mem}
      → g.write_at m a src ≡ ok m'
      → (b + n ≤ a) ⊎ (a + length src ≤ b)
      → g.read_at m' b n ≡ g.read_at m b n

-- Bytes for an address.
abbrev pub Store : Type 0
Store = ℕ × List ℕ

-- Two calls that fail alike.
abbrev pub SameFailure : {A B : Type 0} → Outcome QueueError A → Outcome QueueError B → Type 0
SameFailure (ok a) r = ⊥
SameFailure (err e) (ok b) = ⊥
SameFailure (err e) (err e') = e ≡ e'
SameFailure (err e) Outcome.panic = ⊥
SameFailure Outcome.panic (ok b) = ⊥
SameFailure Outcome.panic (err e) = ⊥
SameFailure Outcome.panic Outcome.panic = Unit {0}

SameFailure-bind :
    {A B C : Type 0} (x : Outcome QueueError A) (r : Outcome QueueError B)
    (k : B → Outcome QueueError C)
    → SameFailure x r
    → SameFailure x (r >>= k)
SameFailure-bind (ok a) r k h = absurd h
SameFailure-bind (err e) (ok b) k h = absurd h
SameFailure-bind (err e) (err e') k h = h
SameFailure-bind (err e) Outcome.panic k h = absurd h
SameFailure-bind Outcome.panic (ok b) k h = absurd h
SameFailure-bind Outcome.panic (err e) k h = absurd h
SameFailure-bind Outcome.panic Outcome.panic k h = tt

pub failed_alike :
    {A B : Type 0} (x : Outcome QueueError A) (k : A → Outcome QueueError B)
    → ((a : A) → ¬ (x ≡ ok a))
    → SameFailure x (x >>= k)
failed_alike (ok a) k bad = absurd (bad a refl)
failed_alike (err e) k bad = refl
failed_alike Outcome.panic k bad = tt

pub failed_self :
    {A : Type 0} (x : Outcome QueueError A) → ((a : A) → ¬ (x ≡ ok a)) → SameFailure x x
failed_self (ok a) bad = absurd (bad a refl)
failed_self (err e) bad = refl
failed_self Outcome.panic bad = tt

module _ (g : GuestRam) where
  -- The writes one after the other.
  unfoldable pub stores : g.Mem → List Store → Outcome QueueError g.Mem
  stores m [] = ok m
  stores m ((a, bs) ∷ ws) = g.write_at m a bs >>= λ m'. stores m' ws

  -- A run of writes of which one is refused, in the memory that those before it have made, and a
  -- call that fails as the memory does.
  pub record RefusedAt {B : Type 0} (m : g.Mem) (ws : List Store) (r : Outcome QueueError B)
      : Type 0 where
    pub before : List Store
    pub refused : Store
    pub after : List Store
    pub memory : g.Mem
    pub split : ws ≡ before ++ refused ∷ after
    pub reached : stores m before ≡ ok memory
    pub failure : SameFailure (g.write_at memory refused.0 refused.1) r

  abbrev pub refused_at :
      {B : Type 0} {m : g.Mem} {r : Outcome QueueError B} (before : List Store) (w : Store)
      (after : List Store) (memory : g.Mem)
      → stores m before ≡ ok memory
      → SameFailure (g.write_at memory w.0 w.1) r
      → RefusedAt m (before ++ w ∷ after) r
  refused_at before w after memory reached failure = record {
    before = before;
    refused = w;
    after = after;
    memory = memory;
    split = refl;
    reached = reached;
    failure = failure;
  }

  pub stores-cases :
      (m : g.Mem) (ws : List Store)
      → ((m' : g.Mem) × (stores m ws ≡ ok m')) ⊎ RefusedAt m ws (stores m ws)
  unfolding stores
  stores-cases m [] = inl (m, refl)
  stores-cases m ((a, bs) ∷ ws) = elim (Outcome-cases (g.write_at m a bs)) [
    | inr bad ↦ inr (
        refused_at [] (a, bs) ws m refl (failed_alike (g.write_at m a bs) (λ m'. stores m' ws) bad))
    | inl (m1, e) ↦ elim (stores-cases m1 ws) [
      | inl (m', e') ↦ inl (m', rw e e')
      | inr r ↦ inr (record {
        before = (a, bs) ∷ r.before;
        refused = r.refused;
        after = r.after;
        memory = r.memory;
        split = ap (◌∷◌ (a, bs)) r.split;
        reached = rw e r.reached;
        failure = rw e r.failure;
      })
    ]
  ]

  -- What follows the writes fails with them.
  pub RefusedAt-bind :
      {B C : Type 0} {m : g.Mem} {ws : List Store} {r : Outcome QueueError B}
      (k : B → Outcome QueueError C)
      → RefusedAt m ws r
      → RefusedAt m ws (r >>= k)
  RefusedAt-bind {r = r} k at = record {
    before = at.before;
    refused = at.refused;
    after = at.after;
    memory = at.memory;
    split = at.split;
    reached = at.reached;
    failure = SameFailure-bind (g.write_at at.memory at.refused.0 at.refused.1) r k at.failure;
  }

  -- A range that no write meets is read as before.
  pub stores_apart :
      IsRam g
      → (m m' : g.Mem) (ws : List Store) (b n : ℕ)
      → All (λ w. (b + n ≤ w.0) ⊎ (w.0 + length w.1 ≤ b)) ws
      → stores m ws ≡ ok m'
      → g.read_at m' b n ≡ g.read_at m b n
  unfolding stores
  stores_apart ram m m' [] b n h e = ap (λ m. g.read_at m b n) (sym (cc e))
  stores_apart ram m m' ((a, bs) ∷ ws) b n (apart, h) e = elim (Outcome-cases (g.write_at m a bs)) [
    | inr bad ↦ absurd (bind_failed (g.write_at m a bs) (λ m1. stores m1 ws) bad m' e)
    | inl (m1, e1) ↦
        stores_apart ram m1 m' ws b n h (rw e1 at e) ∙ ram.read-write_apart m a bs b n e1 apart
  ]
