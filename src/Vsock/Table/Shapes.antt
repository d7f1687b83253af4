-- ===== src/Vsock/Table/Shapes.antt =====
-- crates/virtio-vsock/src/conn_table.rs: the three things that a dispatch does to the table, and
-- what each comes to for the packet's pair and the others.
use rust_nano_vm.Prelude.{◌≡◌, refl, ap, sym, subst, ◌∙◌, ◌⊎◌, inr, Option, none, some}
use rust_nano_vm.Maps.{nat_key, insert}
use rust_nano_vm.Maps.Laws.{
  get-remove_self, get-remove_other, get-insert_self, get-insert_other, other_key,
}
use rust_nano_vm.Vsock.Header.{VsockHeader, VsockOp}
use rust_nano_vm.Vsock.Endpoint.{ConnectionId, id_key, incoming, ≡→id_eq}
use rust_nano_vm.Vsock.State.{ConnectionState, established, close_wait}
use rust_nano_vm.Vsock.Reply.{Reply}
use rust_nano_vm.Vsock.Connection.{Connection, recv_header, next_state, with_state}
use rust_nano_vm.Vsock.Connection.Lifecycle.{credited}
use rust_nano_vm.Vsock.Table.{ConnectionTable, connection, put, evict}
use rust_nano_vm.Vsock.Table.Spec.{
  Phase, Answer, render, phase, phase_of, view, IsEntry, IsFiled, IsTable,
}

-- A dispatch that came to the phase and the answer expected of the packet's pair.
pub record Reacted (t : ConnectionTable) (hdr : VsockHeader) (expected : Option Phase × Answer)
    (a : ConnectionTable × Reply) : Type 0 where
  pub cfg_same : a.0.cfg ≡ t.cfg
  pub listening_same : a.0.listening ≡ t.listening
  pub own : view a.0 (incoming hdr) ≡ expected.0
  pub filed : IsFiled t.cfg (incoming hdr) (connection a.0 (incoming hdr))
  pub others : (id : ConnectionId) → (id ≡ incoming hdr) ⊎ (connection a.0 id ≡ connection t id)
  pub replied : a.1 ≡ render t.cfg hdr expected.1

module _ (t : ConnectionTable) (hdr : VsockHeader) where
  pub kept :
      (expected : Option Phase × Answer) (r : Reply)
      → IsTable t
      → view t (incoming hdr) ≡ expected.0
      → r ≡ render t.cfg hdr expected.1
      → Reacted t hdr expected (t, r)
  kept expected r ok_table own replied = record {
    cfg_same = refl;
    listening_same = refl;
    own = own;
    filed = ok_table (incoming hdr);
    others = λ id. inr refl;
    replied = replied;
  }

  pub stored :
      (expected : Option Phase × Answer) (r : Reply) (c : Connection)
      → IsEntry t.cfg (incoming hdr) c
      → some (phase_of c.state) ≡ expected.0
      → r ≡ render t.cfg hdr expected.1
      → Reacted t hdr expected (put t (incoming hdr) c, r)
  stored expected r c entry own replied =
      let found = get-insert_self (incoming hdr) c t.connections in
      record {
        cfg_same = refl;
        listening_same = refl;
        own = ap phase found ∙ own;
        filed = subst (IsFiled t.cfg (incoming hdr)) (sym found) entry;
        others =
            λ id. other_key id (incoming hdr) (get-insert_other id (incoming hdr) c t.connections);
        replied = replied;
      }

  pub evicted :
      (expected : Option Phase × Answer) (r : Reply) (c : Connection)
      → none ≡ expected.0
      → r ≡ render t.cfg hdr expected.1
      → Reacted t hdr expected (evict (put t (incoming hdr) c) (incoming hdr), r)
  evicted expected r c own replied =
      let m = insert (incoming hdr) c t.connections in
      let gone = get-remove_self (incoming hdr) m in
      record {
        cfg_same = refl;
        listening_same = refl;
        own = ap phase gone ∙ own;
        filed = subst (IsFiled t.cfg (incoming hdr)) (sym gone) tt;
        others = λ id. other_key id (incoming hdr) (λ other.
            get-remove_other id (incoming hdr) m other
            ∙ get-insert_other id (incoming hdr) c t.connections other);
        replied = replied;
      }

-- What a live connection of the packet's pair makes of it.
pub recv_header-live :
    (c : Connection) (hdr : VsockHeader) (s : ConnectionState) (o : VsockOp)
    → c.id ≡ incoming hdr
    → c.state ≡ s
    → hdr.op ≡ o
    → recv_header c hdr ≡ with_state (credited c hdr) (next_state s o)
unfolding recv_header
recv_header-live c hdr s o filed is_s is_o =
    rw (≡→id_eq (incoming hdr) c.id (sym filed), is_s, is_o)

-- A live connection after a packet is live, or is about to be dropped.
pub moved :
    (t : ConnectionTable) (hdr : VsockHeader) (c : Connection) (s : ConnectionState)
    → IsEntry t.cfg (incoming hdr) c
    → (s ≡ established) ⊎ (s ≡ close_wait)
    → IsEntry t.cfg (incoming hdr) (record (credited c hdr) { state = s })
moved t hdr c s entry live = record {
  filed = entry.filed;
  live = live;
  window = entry.window;
  returned = entry.returned;
}
