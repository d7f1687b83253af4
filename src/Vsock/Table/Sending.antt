-- ===== src/Vsock/Table/Sending.antt =====
-- crates/virtio-vsock/src/conn_table.rs: sending on a connection, and the tables that any sequence
-- of calls can reach.
use rust_nano_vm.Prelude.{
  ℕ, ◌≡◌, ap, sym, subst, ◌∙◌, ◌⊎◌, inl, inr, none, some, Option-cases, List, [], ◌∷◌, err,
}
use rust_nano_vm.Maps.{nat_key, get}
use rust_nano_vm.Maps.Laws.{
  other_key, get-insert_self, get-insert_other, get-remove_self, get-remove_other, key-cases,
}
use rust_nano_vm.Vsock.Header.{VsockHeader, VsockOp, stream}
use rust_nano_vm.Vsock.Endpoint.{ConnectionId, id_key}
use rust_nano_vm.Vsock.State.{close_wait, not_writable}
use rust_nano_vm.Vsock.Reply.{TableConfig}
use rust_nano_vm.Vsock.Connection.{Connection, record_send}
use rust_nano_vm.Vsock.Connection.Credit.{charged, record_send-charged}
use rust_nano_vm.Vsock.Table.{
  ConnectionTable, new, connection, put, evict, listen, unlisten, drop_connection, dispatch,
  prepare_data, data_header,
}
use rust_nano_vm.Vsock.Table.Spec.{both_ways, phase, view, IsEntry, IsFiled, IsTable}
use rust_nano_vm.Vsock.Table.Refines.{dispatch-IsTable}

-- A data packet of `len` bytes from the host's end of a pair.
abbrev pub data_packet : TableConfig → ConnectionId → ℕ → VsockHeader
data_packet cfg id len = record {
  src_cid = id.local.cid;
  dst_cid = id.remote.cid;
  src_port = id.local.port;
  dst_port = id.remote.port;
  len = len;
  vtype = stream;
  op = VsockOp.rw;
  flags = 0;
  buf_alloc = cfg.default_buf_alloc;
  fwd_cnt = 0;
}

record_send-refused :
    (c : Connection) (n : ℕ)
    → c.state ≡ close_wait
    → record_send c n ≡ (c, err (not_writable c.state))
unfolding record_send
record_send-refused c n h = rw h

-- A change of one pair's connection leaves every other as it was.
put-IsTable :
    (t : ConnectionTable) (id : ConnectionId) (c : Connection)
    → IsTable t
    → IsEntry t.cfg id c
    → IsTable (put t id c)
put-IsTable t id c ok_table entry j = elim (key-cases j id) [
  | inl e ↦ rw (e, get-insert_self id c t.connections) entry
  | inr other ↦ rw (get-insert_other j id c t.connections other) (ok_table j)
]

evict-IsTable : (t : ConnectionTable) (id : ConnectionId) → IsTable t → IsTable (evict t id)
evict-IsTable t id ok_table j = elim (key-cases j id) [
  | inl e ↦ rw (e, get-remove_self id t.connections) tt
  | inr other ↦ rw (get-remove_other j id t.connections other) (ok_table j)
]

-- Data is sent exactly on a pair that carries it both ways. The packet goes from the pair's local
-- end to its remote one, offers the configured window, and reports that nothing was taken out of
-- it. The bytes are charged to this connection and no other changes. On any other pair nothing is
-- sent, and no connection changes.
pub prepare_data_lem :
    (t : ConnectionTable) (id : ConnectionId) (len : ℕ)
    → IsTable t
    → ((view t id ≡ some both_ways)
        × (c : Connection) × (connection t id ≡ some c)
        × (prepare_data t id len ≡ (put t id (charged c len), some (data_packet t.cfg id len)))
        × ((j : ConnectionId)
            → (j ≡ id) ⊎ (connection (prepare_data t id len).0 j ≡ connection t j)))
      ⊎ ((¬ (view t id ≡ some both_ways))
          × ((prepare_data t id len).1 ≡ none)
          × ((j : ConnectionId) → connection (prepare_data t id len).0 j ≡ connection t j))
unfolding prepare_data data_header
prepare_data_lem t id len ok_table = elim (Option-cases (connection t id)) [
  | inl vacant ↦ inr (
    (λ e. cc (sym (ap phase vacant) ∙ e)),
    rw (prepare_data, vacant),
    (λ j. rw (prepare_data, vacant)),
  )
  | inr (c, found) ↦
      let entry = subst (IsFiled t.cfg id) found (ok_table id) in
      elim entry.live [
        | inl up ↦
            let sent : prepare_data t id len
                ≡ (put t id (charged c len), some (data_packet t.cfg id len)) =
              rw
                (prepare_data, found, record_send-charged c len up, entry.window, entry.returned) in
            inl (
              rw (found, up),
              c,
              found,
              sent,
              λ j.
                  other_key j id
                    (λ other. rw sent (get-insert_other j id (charged c len) t.connections other)),
            )
        | inr shut ↦ inr (
          (λ e. cc (
              subst (λ s. phase (some (record c { state = s })) ≡ some both_ways) shut
                (sym (ap phase found) ∙ e))),
          rw (prepare_data, found, record_send-refused c len shut),
          λ j.
              rw (prepare_data, found, record_send-refused c len shut)
                (elim (key-cases j id) [
                  | inl e ↦ rw (e, get-insert_self id c t.connections) (sym found)
                  | inr other ↦ get-insert_other j id c t.connections other
                ]),
        )
      ]
]

-- A call of the table.
pub data Event : Type 0 where
  receives : VsockHeader → Event
  listens unlistens : ℕ → Event
  drops : ConnectionId → Event
  sends : ConnectionId → ℕ → Event

unfoldable pub happen : ConnectionTable → Event → ConnectionTable
happen t (receives hdr) = (dispatch t hdr).0
happen t (listens port) = (listen t port).0
happen t (unlistens port) = (unlisten t port).0
happen t (drops id) = (drop_connection t id).0
happen t (sends id len) = (prepare_data t id len).0

unfoldable pub happens : ConnectionTable → List Event → ConnectionTable
happens t [] = t
happens t (e ∷ es) = happens (happen t e) es

prepare_data-cfg :
    (t : ConnectionTable) (id : ConnectionId) (len : ℕ) → (prepare_data t id len).0.cfg ≡ t.cfg
unfolding prepare_data
prepare_data-cfg t id len = elim (Option-cases (connection t id)) [
  | inl vacant ↦ rw (prepare_data, vacant)
  | inr (c, found) ↦ rw (prepare_data, found)
]

prepare_data-IsTable :
    (t : ConnectionTable) (id : ConnectionId) (len : ℕ)
    → IsTable t
    → IsTable (prepare_data t id len).0
prepare_data-IsTable t id len ok_table = elim (prepare_data_lem t id len ok_table) [
  | inl (_, c, found, sent, _) ↦
      let entry = subst (IsFiled t.cfg id) found (ok_table id) in
      let after : IsEntry t.cfg id (charged c len) = record {
        filed = entry.filed;
        live = entry.live;
        window = entry.window;
        returned = entry.returned;
      } in
      subst (λ a. IsTable a.0) (sym sent) (put-IsTable t id (charged c len) ok_table after)
  | inr (_, _, kept) ↦ λ j. rw (prepare_data-cfg t id len, kept j) (ok_table j)
]

pub happen-IsTable : (t : ConnectionTable) (e : Event) → IsTable t → IsTable (happen t e)
unfolding happen listen unlisten drop_connection
happen-IsTable t (receives hdr) ok_table = dispatch-IsTable t hdr ok_table
happen-IsTable t (listens port) ok_table = ok_table
happen-IsTable t (unlistens port) ok_table = ok_table
happen-IsTable t (drops id) ok_table = evict-IsTable t id ok_table
happen-IsTable t (sends id len) ok_table = prepare_data-IsTable t id len ok_table

-- Whatever calls are made of a new table, each of its connections is filed under its own pair,
-- established or half closed, with the configured window and nothing taken out of it.
pub happens-IsTable : (cfg : TableConfig) (es : List Event) → IsTable (happens (new cfg) es)
unfolding happens new get
happens-IsTable cfg es = go (new cfg) es (λ id. tt)
  where
    go : (t : ConnectionTable) (es : List Event) → IsTable t → IsTable (happens t es)
    go t [] h = h
    go t (e ∷ es) h = go (happen t e) es (happen-IsTable t e h)
