-- ===== src/Vsock/Connection/Credit.antt =====
-- crates/virtio-vsock/src/lib.rs: the send credit, whose counters wrap at 2 ^ 32.
use rust_nano_vm.Prelude.{
  ℕ, ◌⊎◌, inl, inr, subst, sym, ◌+◌, ◌-◌, ◌%◌, ◌^◌, ◌≤◌, ◌<◌, ◌≡◌, refl, ap, arith, lt_or_le, ok,
}
use rust_nano_vm.Vsock.State.{established}
use rust_nano_vm.Vsock.Header.{VsockHeader}
use rust_nano_vm.Vsock.Endpoint.{incoming}
use rust_nano_vm.Vsock.Connection.{Connection, record_send, recv_header, send_credit}
use rust_nano_vm.Vsock.Connection.Lifecycle.{credited, recv_header_lem}

-- The counters stand for `sent` and `forwarded` bytes in all, of which the peer has room for what
-- it has not forwarded.
pub record Window (c : Connection) (sent forwarded : ℕ) : Type 0 where
  pub tx_counts : c.tx_cnt ≡ sent % 2 ^ 32
  pub peer_counts : c.peer_fwd_cnt ≡ forwarded % 2 ^ 32
  pub alloc_fits : c.peer_buf_alloc < 2 ^ 32
  pub forwarded_le : forwarded ≤ sent
  pub room : sent - forwarded ≤ c.peer_buf_alloc

pub send_credit_lem :
    (c : Connection) (sent forwarded : ℕ)
    → Window c sent forwarded
    → send_credit c ≡ c.peer_buf_alloc - (sent - forwarded)
unfolding send_credit
send_credit_lem c sent forwarded w =
    omega (arith, w.tx_counts, w.peer_counts, w.alloc_fits, w.forwarded_le, w.room)

abbrev pub charged : Connection → ℕ → Connection
charged c n = record c { tx_cnt = (c.tx_cnt + n) % 2 ^ 32 }

pub record_send-charged :
    (c : Connection) (n : ℕ) → c.state ≡ established → record_send c n ≡ (charged c n, ok tt)
unfolding record_send
record_send-charged c n h = rw h

-- A send on an established connection is never refused. One within the credit leaves the counters
-- right and the credit lower by what was sent. One beyond it leaves a credit that has wrapped, and
-- is greater than before.
pub record_send-send_credit :
    (c : Connection) (sent forwarded n : ℕ)
    → Window c sent forwarded
    → c.state ≡ established
    → n < 2 ^ 32
    → (record_send c n ≡ (charged c n, ok tt))
      × (((n ≤ send_credit c)
            × Window (charged c n) (sent + n) forwarded
            × (send_credit (charged c n) + n ≡ send_credit c))
          ⊎ ((send_credit c < n)
              × (send_credit (charged c n) + n ≡ send_credit c + 2 ^ 32)
              × (send_credit c < send_credit (charged c n))))
unfolding send_credit
record_send-send_credit c sent forwarded n w is_up fits = (
  record_send-charged c n is_up,
  elim (lt_or_le (send_credit c) n) [
    | inr within ↦ inl (
      within,
      record {
        tx_counts = omega (arith, w.tx_counts);
        peer_counts = w.peer_counts;
        alloc_fits = w.alloc_fits;
        forwarded_le = omega (arith, w.forwarded_le);
        room = omega (arith, send_credit_lem c sent forwarded w, w.forwarded_le, w.room);
      },
      omega (arith, w.tx_counts, w.peer_counts, w.alloc_fits, w.forwarded_le, w.room),
    )
    | inl beyond ↦ inr (
      beyond,
      omega (arith, w.tx_counts, w.peer_counts, w.alloc_fits, w.forwarded_le, w.room),
      omega (arith, w.tx_counts, w.peer_counts, w.alloc_fits, w.forwarded_le, w.room),
    )
  ],
)

-- What the peer says in any packet of the connection, also in one that is refused, is what the
-- credit is computed from: with `forwarded` bytes forwarded in all and room for the rest, the
-- counters are right, and the credit is what the peer's buffer still has room for.
pub recv_header-send_credit :
    (c : Connection) (hdr : VsockHeader) (sent forwarded : ℕ)
    → incoming hdr ≡ c.id
    → c.tx_cnt ≡ sent % 2 ^ 32
    → hdr.fwd_cnt ≡ forwarded % 2 ^ 32
    → hdr.buf_alloc < 2 ^ 32
    → forwarded ≤ sent
    → sent - forwarded ≤ hdr.buf_alloc
    → Window (recv_header c hdr).0 sent forwarded
      × (send_credit (recv_header c hdr).0 ≡ hdr.buf_alloc - (sent - forwarded))
recv_header-send_credit c hdr sent forwarded same tx peer fits le room =
    elim (recv_header_lem c hdr) [
      | inl (other, _) ↦ absurd (other same)
      | inr (inl (_, t, _, e)) ↦
          told (record (credited c hdr) { state = t }) (ap (λ a. a.0) e) tx peer refl
      | inr (inr (_, _, e)) ↦ told (credited c hdr) (ap (λ a. a.0) e) tx peer refl
    ]
  where
    told :
        (c' : Connection)
        → (recv_header c hdr).0 ≡ c'
        → c'.tx_cnt ≡ sent % 2 ^ 32
        → c'.peer_fwd_cnt ≡ forwarded % 2 ^ 32
        → c'.peer_buf_alloc ≡ hdr.buf_alloc
        → Window (recv_header c hdr).0 sent forwarded
          × (send_credit (recv_header c hdr).0 ≡ hdr.buf_alloc - (sent - forwarded))
    told c' e tx' peer' alloc =
        let w : Window c' sent forwarded = record {
          tx_counts = tx';
          peer_counts = peer';
          alloc_fits = omega (arith, alloc, fits);
          forwarded_le = le;
          room = omega (arith, alloc, room);
        } in
        subst
          (λ c'. Window c' sent forwarded × (send_credit c' ≡ hdr.buf_alloc - (sent - forwarded)))
          (sym e) (w, omega (arith, send_credit_lem c' sent forwarded w, alloc))
