-- ===== src/Vsock/Device/Guest.antt =====
-- crates/virtio-vsock/src/device.rs: what the packets of a guest do to the device.
use rust_nano_vm.Prelude.{
  ℕ, ◌+◌, ◌-◌, ◌≤◌, ◌<◌, ◌≡◌, refl, ap, sym, ◌∙◌, ◌⊎◌, inl, inr, arith, false, Bool-cases, List, [],
  ◌∷◌, ◌++◌, length, length-drop, take, drop, All, leb, le→leb, lt_or_le, ◌==◌, if◌then◌else◌, ok,
}
use rust_nano_vm.Bytes.Endian.{IsByte}
use rust_nano_vm.Vsock.Header.{VsockHeader, VsockOp, from_bytes, to_bytes}
use rust_nano_vm.Vsock.Header.RoundTrip.{wire-from_bytes}
use rust_nano_vm.Vsock.Endpoint.{ConnectionId, incoming}
use rust_nano_vm.Vsock.Reply.{TableConfig}
use rust_nano_vm.Vsock.Table.{ConnectionTable, dispatch, is_listening}
use rust_nano_vm.Vsock.Table.Spec.{
  Answer, accept, refuse, deliver, quiet, react, back, render, view, IsTable,
}
use rust_nano_vm.Vsock.Table.Shapes.{Reacted}
use rust_nano_vm.Vsock.Table.Refines.{dispatch-Reacted}
use rust_nano_vm.Vsock.Device.{
  OutPacket, VsockDevice, answer, payload_of, handle_header, handle_guest_packet,
}

append_nil {ℓ} : {A : Type ℓ} (xs : List A) → xs ≡ xs ++ []
append_nil [] = refl
append_nil (x ∷ xs) = ap (◌∷◌ x) (append_nil xs)

-- The first bytes of a list, if there are as many.
abbrev pub first_bytes : ℕ → List ℕ → List ℕ
first_bytes n bs = if leb n (length bs) then take n bs else []

-- What an answer puts behind the packets for the guest, and behind the payloads for the host.
abbrev pub to_guest : TableConfig → VsockHeader → Answer → List OutPacket
to_guest cfg hdr accept =
    record { header = back hdr VsockOp.response 0 cfg.default_buf_alloc; payload = [] } ∷ []
to_guest cfg hdr refuse = record { header = back hdr VsockOp.rst hdr.flags 0; payload = [] } ∷ []
to_guest cfg hdr deliver = []
to_guest cfg hdr quiet = []

abbrev pub to_host : VsockHeader → List ℕ → Answer → List (ConnectionId × List ℕ)
to_host hdr behind deliver =
    if hdr.len == 0 then [] else (incoming hdr, first_bytes hdr.len behind) ∷ []
to_host hdr behind accept = []
to_host hdr behind refuse = []
to_host hdr behind quiet = []

payload_of-first_bytes :
    (raw : List ℕ) (n : ℕ) → 44 ≤ length raw → payload_of raw n ≡ first_bytes n (drop 44 raw)
unfolding payload_of
payload_of-first_bytes raw n room = elim (lt_or_le (length raw) (44 + n)) [
  | inl short ↦
      rw
        (
          not-leb (44 + n) (length raw) short,
          not-leb n (length (drop 44 raw)) (omega (arith, behind)),
        )
        refl
  | inr there ↦
      rw
        (
          le→leb (44 + n) (length raw) there,
          le→leb n (length (drop 44 raw)) (omega (arith, behind)),
        )
        refl
]
  where
    behind : length (drop 44 raw) ≡ length raw - 44
    behind = length-drop 44 raw

    not-leb : (a b : ℕ) → b < a → leb a b ≡ false
    not-leb a b h = ground (arith, h)

answer-render :
    (dev : VsockDevice) (cfg : TableConfig) (raw : List ℕ) (hdr : VsockHeader) (a : Answer)
    → 44 ≤ length raw
    → answer dev raw (render cfg hdr a) ≡ record dev {
      outbound = dev.outbound ++ to_guest cfg hdr a;
      inbound = dev.inbound ++ to_host hdr (drop 44 raw) a;
    }
unfolding answer
answer-render dev cfg raw hdr accept room =
    ap (λ xs. record dev { outbound = dev.outbound ++ to_guest cfg hdr accept; inbound = xs })
      (append_nil dev.inbound)
answer-render dev cfg raw hdr refuse room =
    ap (λ xs. record dev { outbound = dev.outbound ++ to_guest cfg hdr refuse; inbound = xs })
      (append_nil dev.inbound)
answer-render dev cfg raw hdr quiet room =
    λ k. record dev { outbound = append_nil dev.outbound k; inbound = append_nil dev.inbound k }
answer-render dev cfg raw hdr deliver room = elim (Bool-cases (hdr.len == 0)) [
  | inl e ↦
      rw e (λ k. record dev {
        outbound = append_nil dev.outbound k;
        inbound = append_nil dev.inbound k;
      })
  | inr e ↦
      rw (e, payload_of-first_bytes raw hdr.len room)
        (λ k. record dev {
          outbound = append_nil dev.outbound k;
          inbound = dev.inbound ++ (incoming hdr, first_bytes hdr.len (drop 44 raw)) ∷ [];
        })
]

-- Every buffer of a guest is handled without a panic, in a device whose table's connections are
-- filed under their own pairs and live. One that is no packet leaves the device as it was. One that
-- begins with a header takes the table to one where the header's pair has moved as the
-- specification says and every other pair is as it was. A Response or an Rst that the specification
-- answers with is put behind the packets for the guest, with no payload; data that it delivers, if
-- the header counts any, is put behind the payloads for the host, as the bytes behind the header
-- that the header counts, or no bytes where there are fewer. Nothing else of the device changes.
pub handle_guest_packet_lem :
    (dev : VsockDevice) (raw : List ℕ)
    → All IsByte raw
    → IsTable dev.table
    → ((handle_guest_packet dev raw ≡ ok dev) × ((hdr : VsockHeader) → ¬ (from_bytes raw ≡ ok hdr)))
      ⊎ ((hdr : VsockHeader) × (t : ConnectionTable) × (from_bytes raw ≡ ok hdr)
          × (to_bytes hdr ≡ ok (take 44 raw))
          × (handle_guest_packet dev raw
              ≡ ok (record dev {
                table = t;
                outbound =
                    dev.outbound
                    ++ to_guest dev.table.cfg hdr
                        (react
                          (is_listening dev.table hdr.dst_port)
                          (view dev.table (incoming hdr))
                          hdr.op).1;
                inbound =
                    dev.inbound
                    ++ to_host hdr
                        (drop 44 raw)
                        (react
                          (is_listening dev.table hdr.dst_port)
                          (view dev.table (incoming hdr))
                          hdr.op).1;
              }))
          × Reacted dev.table hdr
              (react (is_listening dev.table hdr.dst_port) (view dev.table (incoming hdr)) hdr.op)
              (t, (dispatch dev.table hdr).1))
unfolding handle_guest_packet handle_header
handle_guest_packet_lem dev raw bytes filed = elim (wire-from_bytes raw bytes) [
  | inl (_, e) ↦ inl (rw (handle_guest_packet, e) refl, λ hdr h. cc (sym e ∙ h))
  | inr (inl (_, _, e)) ↦ inl (rw (handle_guest_packet, e) refl, λ hdr h. cc (sym e ∙ h))
  | inr (inr (inl (_, _, _, e))) ↦ inl (rw (handle_guest_packet, e) refl, λ hdr h. cc (sym e ∙ h))
  | inr (inr (inr (room, hdr, e, same))) ↦
      let done = dispatch-Reacted dev.table hdr filed in
      let t = (dispatch dev.table hdr).0 in
      let a =
        (react (is_listening dev.table hdr.dst_port) (view dev.table (incoming hdr)) hdr.op).1 in
      inr (
        hdr,
        t,
        e,
        same,
        rw (handle_guest_packet, e)
            (ap (λ r. ok (answer (record dev { table = t }) raw r)) done.replied
              ∙ ap ok (answer-render (record dev { table = t }) dev.table.cfg raw hdr a room)),
        done,
      )
]
