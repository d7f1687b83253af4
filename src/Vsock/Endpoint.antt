-- ===== src/Vsock/Endpoint.antt =====
-- crates/virtio-vsock/src/lib.rs: `Endpoint` and `ConnectionId`, with their derived equality.
use rust_nano_vm.Prelude.{
  ℕ, ◌≡◌, refl, subst, ◌⊎◌, inl, inr, Bool, true, false, ◌&&◌, ◌==◌, Bool-cases, ==→eq, eq→==,
}
use rust_nano_vm.Maps.{Key}
use rust_nano_vm.Vsock.Header.{VsockHeader}

pub record Endpoint : Type 0 where
  pub cid : ℕ
  pub port : ℕ

pub record ConnectionId : Type 0 where
  pub local : Endpoint
  pub remote : Endpoint

abbrev pub endpoint : ℕ → ℕ → Endpoint
endpoint cid port = record { cid = cid; port = port }

abbrev pub endpoint_eq : Endpoint → Endpoint → Bool
endpoint_eq a b = (a.cid == b.cid) && (a.port == b.port)

abbrev pub id_eq : ConnectionId → ConnectionId → Bool
id_eq a b = endpoint_eq a.local b.local && endpoint_eq a.remote b.remote

-- The connection a packet belongs to, seen from this side: the packet's destination is local.
abbrev pub incoming : VsockHeader → ConnectionId
incoming hdr = record {
  local = endpoint hdr.dst_cid hdr.dst_port;
  remote = endpoint hdr.src_cid hdr.src_port;
}

and_true : (a b : Bool) → a && b ≡ true → (a ≡ true) × (b ≡ true)
and_true true b h = (refl, h)
and_true false b h = cc

==-refl : (n : ℕ) → (n == n) ≡ true
==-refl n = eq→== n n refl

endpoint_eq→≡ : (a b : Endpoint) → endpoint_eq a b ≡ true → a ≡ b
endpoint_eq→≡ a b h =
    let (c, p) = and_true (a.cid == b.cid) (a.port == b.port) h in
    λ i. record { cid = ==→eq a.cid b.cid c i; port = ==→eq a.port b.port p i }

pub id_eq→≡ : (a b : ConnectionId) → id_eq a b ≡ true → a ≡ b
id_eq→≡ a b h =
    let (l, r) = and_true (endpoint_eq a.local b.local) (endpoint_eq a.remote b.remote) h in
    λ i. record {
      local = endpoint_eq→≡ a.local b.local l i;
      remote = endpoint_eq→≡ a.remote b.remote r i;
    }

pub id_eq_refl : (a : ConnectionId) → id_eq a a ≡ true
id_eq_refl a =
    rw (==-refl a.local.cid, ==-refl a.local.port, ==-refl a.remote.cid, ==-refl a.remote.port)

pub ≡→id_eq : (a b : ConnectionId) → a ≡ b → id_eq a b ≡ true
≡→id_eq a b h = subst (λ x. id_eq a x ≡ true) h (id_eq_refl a)

pub id_eq→≢ : (a b : ConnectionId) → id_eq a b ≡ false → ¬ (a ≡ b)
id_eq→≢ a b h e = cc (≡→id_eq a b e)

pub ≢→id_eq : (a b : ConnectionId) → ¬ (a ≡ b) → id_eq a b ≡ false
≢→id_eq a b h = elim (Bool-cases (id_eq a b)) [
  | inl same ↦ absurd (h (id_eq→≡ a b same))
  | inr other ↦ other
]

pub id_eq-cases : (a b : ConnectionId) → (a ≡ b) ⊎ (¬ (a ≡ b))
id_eq-cases a b = elim (Bool-cases (id_eq a b)) [
  | inl same ↦ inl (id_eq→≡ a b same)
  | inr other ↦ inr (id_eq→≢ a b other)
]

instance abbrev pub id_key : Key ConnectionId
id_key = record { same = id_eq; same→≡ = id_eq→≡; ≡→same = ≡→id_eq }
