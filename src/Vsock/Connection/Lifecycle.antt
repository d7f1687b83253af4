-- ===== src/Vsock/Connection/Lifecycle.antt =====
-- crates/virtio-vsock/src/lib.rs: the states a connection passes through, against the diagram in
-- the documentation of `ConnectionState`.
use rust_nano_vm.Prelude.{
  ℕ, arith, Any, subst, ◌≡◌, refl, ap, sym, ◌∙◌, ◌⊎◌, inl, inr, List, [], ◌∷◌, ok, err,
}
use rust_nano_vm.Vsock.Header.{VsockHeader, VsockOp}
use rust_nano_vm.Vsock.Endpoint.{ConnectionId, incoming, id_eq-cases, ≡→id_eq, ≢→id_eq}
use rust_nano_vm.Vsock.State.{
  ConnectionState, closed, syn_sent, established, fin_wait, close_wait, invalid_op,
  endpoint_mismatch,
}
use rust_nano_vm.Vsock.Connection.{
  Connection, new, listen, connect, next_state, with_state, recv_header, record_send, record_recv,
  shutdown, rst,
}

pub data IsOpen : ConnectionState → Type 0 where
  is_established : IsOpen established
  is_fin_wait : IsOpen fin_wait
  is_close_wait : IsOpen close_wait

pub data IsCredit : VsockOp → Type 0 where
  is_update : IsCredit VsockOp.credit_update
  is_request : IsCredit VsockOp.credit_request

-- The edges of the diagram that a packet takes, and the packets that leave an open connection as
-- it is.
pub data Edge : ConnectionState → VsockOp → ConnectionState → Type 0 where
  peer_request : Edge ConnectionState.listen VsockOp.request established
  peer_response : Edge syn_sent VsockOp.response established
  peer_shutdown : Edge established VsockOp.shutdown close_wait
  peer_close : Edge fin_wait VsockOp.shutdown closed
  peer_reset : (s : ConnectionState) → Edge s VsockOp.rst closed
  peer_data : Edge established VsockOp.rw established
  credit : {s : ConnectionState} {o : VsockOp} → IsOpen s → IsCredit o → Edge s o s

Edge-next_state : {s t : ConnectionState} {o : VsockOp} → Edge s o t → next_state s o ≡ ok t
unfolding next_state
Edge-next_state peer_request = refl
Edge-next_state peer_response = refl
Edge-next_state peer_shutdown = refl
Edge-next_state peer_close = refl
Edge-next_state (peer_reset closed) = refl
Edge-next_state (peer_reset _) = refl
Edge-next_state peer_data = refl
Edge-next_state (credit is_established is_update) = refl
Edge-next_state (credit is_established is_request) = refl
Edge-next_state (credit is_fin_wait is_update) = refl
Edge-next_state (credit is_fin_wait is_request) = refl
Edge-next_state (credit is_close_wait is_update) = refl
Edge-next_state (credit is_close_wait is_request) = refl

-- The code's match takes an edge exactly where the diagram has one.
pub next_state-Edge :
    (s : ConnectionState) (o : VsockOp)
    → ((t : ConnectionState) × (next_state s o ≡ ok t) × Edge s o t)
      ⊎ ((next_state s o ≡ err (invalid_op o s)) × ((t : ConnectionState) → ¬ Edge s o t))
unfolding next_state
next_state-Edge ConnectionState.listen VsockOp.request = inl (established, refl, peer_request)
next_state-Edge syn_sent VsockOp.response = inl (established, refl, peer_response)
next_state-Edge established VsockOp.rw = inl (established, refl, peer_data)
next_state-Edge established VsockOp.credit_update =
    inl (established, refl, credit is_established is_update)
next_state-Edge established VsockOp.credit_request =
    inl (established, refl, credit is_established is_request)
next_state-Edge established VsockOp.shutdown = inl (close_wait, refl, peer_shutdown)
next_state-Edge close_wait VsockOp.credit_update =
    inl (close_wait, refl, credit is_close_wait is_update)
next_state-Edge close_wait VsockOp.credit_request =
    inl (close_wait, refl, credit is_close_wait is_request)
next_state-Edge fin_wait VsockOp.credit_update = inl (fin_wait, refl, credit is_fin_wait is_update)
next_state-Edge fin_wait VsockOp.credit_request =
    inl (fin_wait, refl, credit is_fin_wait is_request)
next_state-Edge fin_wait VsockOp.shutdown = inl (closed, refl, peer_close)
next_state-Edge closed VsockOp.rst = inl (closed, refl, peer_reset closed)
next_state-Edge s VsockOp.rst = inl (closed, Edge-next_state (peer_reset s), peer_reset s)
next_state-Edge s o = inr (refl, λ t e. cc (Edge-next_state e))

-- What a packet leaves, if its source and destination are the connection's.
abbrev pub credited : Connection → VsockHeader → Connection
credited c hdr = record c { peer_buf_alloc = hdr.buf_alloc; peer_fwd_cnt = hdr.fwd_cnt }

-- A packet is answered in one of three ways. One for another pair of endpoints is refused and
-- changes nothing. One that the diagram has an edge for moves the connection along that edge and
-- updates its credit. Any other is refused and updates the credit alone. Nothing else of the
-- connection changes.
pub recv_header_lem :
    (c : Connection) (hdr : VsockHeader)
    → ((¬ (incoming hdr ≡ c.id))
        × (recv_header c hdr ≡ (c, err (endpoint_mismatch c.id (incoming hdr)))))
      ⊎ ((incoming hdr ≡ c.id)
          × (t : ConnectionState) × Edge c.state hdr.op t
          × (recv_header c hdr ≡ (record (credited c hdr) { state = t }, ok tt)))
      ⊎ ((incoming hdr ≡ c.id)
          × ((t : ConnectionState) → ¬ Edge c.state hdr.op t)
          × (recv_header c hdr ≡ (credited c hdr, err (invalid_op hdr.op c.state))))
unfolding recv_header with_state
recv_header_lem c hdr = elim (id_eq-cases (incoming hdr) c.id) [
  | inr other ↦ inl (other, rw (≢→id_eq (incoming hdr) c.id other))
  | inl same ↦ inr (elim (next_state-Edge c.state hdr.op) [
    | inl (t, e, edge) ↦ inl (same, t, edge, rw (≡→id_eq (incoming hdr) c.id same, e))
    | inr (e, none) ↦ inr (same, none, rw (≡→id_eq (incoming hdr) c.id same, e))
  ])
]

-- A call on the connection, and the state after it.
pub data Call : Type 0 where
  listens connects shuts resets : Call
  receives : VsockHeader → Call
  sends : ℕ → Call
  forwards : ℕ → Call

unfoldable pub call : Connection → Call → Connection
call c listens = (listen c).0
call c connects = (connect c).0
call c shuts = (shutdown c).0
call c resets = rst c
call c (receives hdr) = (recv_header c hdr).0
call c (sends n) = (record_send c n).0
call c (forwards n) = record_recv c n

unfoldable pub run : Connection → List Call → Connection
run c [] = c
run c (k ∷ ks) = run (call c k) ks

-- A packet of this connection that completes a handshake.
abbrev pub Opens : ConnectionId → Call → Type 0
Opens id (receives hdr) =
    (incoming hdr ≡ id) × ((hdr.op ≡ VsockOp.request) ⊎ (hdr.op ≡ VsockOp.response))
Opens id _ = ⊥

Edge-established :
    {s : ConnectionState} {o : VsockOp}
    → Edge s o established
    → (s ≡ established) ⊎ (o ≡ VsockOp.request) ⊎ (o ≡ VsockOp.response)
Edge-established peer_request = inr (inl refl)
Edge-established peer_response = inr (inr refl)
Edge-established peer_data = inl refl
Edge-established (credit o u) = inl refl

listen-established : (c : Connection) → (listen c).0.state ≡ established → c.state ≡ established
unfolding listen
listen-established c h = ground arith

connect-established : (c : Connection) → (connect c).0.state ≡ established → c.state ≡ established
unfolding connect
connect-established c h = ground arith

shutdown-established : (c : Connection) → (shutdown c).0.state ≡ established → c.state ≡ established
unfolding shutdown
shutdown-established c h = ground arith

record_send-established :
    (c : Connection) (n : ℕ) → (record_send c n).0.state ≡ established → c.state ≡ established
unfolding record_send
record_send-established c n h = ground arith

recv_header-established :
    (c : Connection) (hdr : VsockHeader)
    → (recv_header c hdr).0.state ≡ established
    → (c.state ≡ established) ⊎ Opens c.id (receives hdr)
recv_header-established c hdr h = elim (recv_header_lem c hdr) [
  | inl (_, e) ↦ inl (sym (ap (λ a. a.0.state) e) ∙ h)
  | inr (inr (_, _, e)) ↦ inl (sym (ap (λ a. a.0.state) e) ∙ h)
  | inr (inl (same, t, edge, e)) ↦
      let there : t ≡ established = sym (ap (λ a. a.0.state) e) ∙ h in
      elim (Edge-established (subst (λ s. Edge c.state hdr.op s) there edge)) [
        | inl was ↦ inl was
        | inr opened ↦ inr (same, opened)
      ]
]

call-established :
    (c : Connection) (k : Call)
    → (call c k).state ≡ established
    → (c.state ≡ established) ⊎ Opens c.id k
unfolding call rst record_recv
call-established c listens h = inl (listen-established c h)
call-established c connects h = inl (connect-established c h)
call-established c shuts h = inl (shutdown-established c h)
call-established c resets h = cc
call-established c (receives hdr) h = recv_header-established c hdr h
call-established c (sends n) h = inl (record_send-established c n h)
call-established c (forwards n) h = inl h

recv_header-id : (c : Connection) (hdr : VsockHeader) → (recv_header c hdr).0.id ≡ c.id
recv_header-id c hdr = elim (recv_header_lem c hdr) [
  | inl (_, e) ↦ ap (λ a. a.0.id) e
  | inr (inl (_, _, _, e)) ↦ ap (λ a. a.0.id) e
  | inr (inr (_, _, e)) ↦ ap (λ a. a.0.id) e
]

call-id : (c : Connection) (k : Call) → (call c k).id ≡ c.id
unfolding call listen connect shutdown rst record_send record_recv
call-id c listens = ground arith
call-id c connects = ground arith
call-id c shuts = ground arith
call-id c resets = refl
call-id c (receives hdr) = recv_header-id c hdr
call-id c (sends n) = ground arith
call-id c (forwards n) = refl

run-established :
    (c : Connection) (ks : List Call)
    → (run c ks).state ≡ established
    → (c.state ≡ established) ⊎ Any (Opens c.id) ks
unfolding run
run-established c [] h = inl h
run-established c (k ∷ ks) h = elim (run-established (call c k) ks h) [
  | inl was ↦ elim (call-established c k was) [ inl before ↦ inl before | inr now ↦ inr (inl now) ]
  | inr later ↦ inr (inr (subst (λ id. Any (Opens id) ks) (call-id c k) later))
]

-- A new connection on which any calls were made is established only if one of them received a
-- `Request` or a `Response` whose source and destination are the connection's.
pub handshake :
    (id : ConnectionId) (alloc : ℕ) (ks : List Call)
    → (run (new id alloc) ks).state ≡ established
    → Any (Opens id) ks
unfolding new
handshake id alloc ks h = elim (run-established (new id alloc) ks h) [
  | inl was ↦ absurd (cc was)
  | inr opened ↦ opened
]
