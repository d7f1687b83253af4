-- ===== src/Vsock/Table/Isolation.antt =====
-- crates/virtio-vsock/src/conn_table.rs: a table that serves many peers serves each as if it were
-- alone.
use rust_nano_vm.Prelude.{
  ◌≡◌, refl, ap, sym, subst, ◌∙◌, inl, inr, Bool, Option, List, [], ◌∷◌, Bool-cases, if◌then◌else◌,
}
use rust_nano_vm.Maps.{nat_key, get, is_some}
use rust_nano_vm.Vsock.Header.{VsockHeader}
use rust_nano_vm.Vsock.Endpoint.{ConnectionId, id_key, id_eq, incoming, id_eq→≡, id_eq→≢}
use rust_nano_vm.Vsock.Reply.{Reply, TableConfig}
use rust_nano_vm.Vsock.Table.{ConnectionTable, is_listening, dispatch}
use rust_nano_vm.Vsock.Table.Spec.{Phase, react, render, phase, view, IsTable}
use rust_nano_vm.Vsock.Table.Refines.{dispatch-Reacted, dispatch-IsTable}

-- The packets of a queue, each with its reply.
unfoldable pub serve : ConnectionTable → List VsockHeader → List (VsockHeader × Reply)
serve t [] = []
serve t (hdr ∷ hdrs) = let (t', r) = dispatch t hdr in (hdr, r) ∷ serve t' hdrs

-- The packets of one pair.
unfoldable pub only : ConnectionId → List VsockHeader → List VsockHeader
only id [] = []
only id (hdr ∷ hdrs) =
    let rest = only id hdrs in if id_eq (incoming hdr) id then hdr ∷ rest else rest

unfoldable pub only_replies : ConnectionId → List (VsockHeader × Reply) → List (VsockHeader × Reply)
only_replies id [] = []
only_replies id ((hdr, r) ∷ rs) =
    let rest = only_replies id rs in if id_eq (incoming hdr) id then (hdr, r) ∷ rest else rest

-- A machine for one pair, that has nothing but the pair's phase.
unfoldable pub alone :
    TableConfig → Bool → Option Phase → List VsockHeader → List (VsockHeader × Reply)
alone cfg listening p [] = []
alone cfg listening p (hdr ∷ hdrs) =
    let (p', answer) = react listening p hdr.op in
    (hdr, render cfg hdr answer) ∷ alone cfg listening p' hdrs

-- A dispatch does what is expected of the pair.
abbrev Expected : ConnectionTable → VsockHeader → ConnectionId → Type 0
Expected t hdr id =
    let expected = react (is_listening t id.local.port) (view t id) hdr.op in
    (view (dispatch t hdr).0 id ≡ expected.0) × ((dispatch t hdr).1 ≡ render t.cfg hdr expected.1)

-- The replies that a pair of endpoints sees, while packets of any other pairs come between its
-- own, are those of a machine that is given the pair's packets alone.
pub serve-alone :
    (t : ConnectionTable) (id : ConnectionId) (hdrs : List VsockHeader)
    → IsTable t
    → only_replies id (serve t hdrs)
      ≡ alone t.cfg (is_listening t id.local.port) (view t id) (only id hdrs)
unfolding serve only only_replies alone
serve-alone t id [] ok_table = refl
serve-alone t id (hdr ∷ hdrs) ok_table =
    let r = dispatch-Reacted t hdr ok_table in
    let rest = serve-alone (dispatch t hdr).0 id hdrs (dispatch-IsTable t hdr ok_table) in
    let after : (p : Option Phase)
        → view (dispatch t hdr).0 id ≡ p
        → only_replies id (serve (dispatch t hdr).0 hdrs)
          ≡ alone t.cfg (is_listening t id.local.port) p (only id hdrs) =
      λ p e. rest ∙ (λ i.
        alone (r.cfg_same i) (is_some (get id.local.port (r.listening_same i))) (e i)
          (only id hdrs)) in
    elim (Bool-cases (id_eq (incoming hdr) id)) [
      | inl e ↦
          let same : incoming hdr ≡ id = id_eq→≡ (incoming hdr) id e in
          let (own, replied) = subst (Expected t hdr) same (r.own, r.replied) in
          rw e (λ i. (hdr, replied i) ∷ after _ own i)
      | inr e ↦ rw e (
          after (view t id) (elim (r.others id) [
            | inl same ↦ absurd (id_eq→≢ (incoming hdr) id e (sym same))
            | inr kept ↦ ap phase kept
          ]))
    ]
