-- ===== src/Packet/Copy.antt =====
-- The copy and the assignment of PortAgentPacket.
use port_agent.Prelude.{
  ℕ, ◌+◌, ◌<◌, ◌≡◌, refl, sym, ap, subst, ◌∙◌, arith, true, false, Bytes, none, some, ◌++◌,
  IsBytes-drop, length, take, drop, drop-take_append, length-drop_add,
}
use port_agent.Packet.PortAgentPacket.{PortAgentPacket, fresh, packet, deep_copy, copy, assign}
use port_agent.Packet.Wire.{Holds, IsValid, checksum_of, sealed}
use port_agent.Packet.RoundTrip.{sent, sent-Holds, sent_bytes, length-sent, packet_sealed}
use port_agent.Packet.Build.{length-fresh, copy_payload-fresh, IsBytes-header_append}

module _ (heap : ℕ → ℕ) (this p : PortAgentPacket) (bytes : (i : ℕ) → heap i < 256)
    (v : IsValid p) where
  payload_length : length (drop 16 (sent p.buffer)) + 16 ≡ p.packet_size
  payload_length = omega (
    arith,
    length-drop_add 16 (sent p.buffer) (omega (arith, length-sent _ p.buffer v.holds, v)),
    length-sent _ p.buffer v.holds,
  )

  deep_copy_lem :
      deep_copy heap p.packet_size p.buffer
      ≡ some (take 16 (fresh heap p.packet_size) ++ drop 16 (sent p.buffer))
  unfolding deep_copy
  deep_copy_lem =
      ap (deep_copy heap p.packet_size) (sent-Holds _ p.buffer v.holds)
      ∙ ap some (copy_payload-fresh heap p.packet_size (drop 16 (sent p.buffer)) payload_length)

  copy-Holds : Holds p.packet_size (deep_copy heap p.packet_size p.buffer)
  copy-Holds = subst (Holds p.packet_size) (sym deep_copy_lem) (
      IsBytes-header_append heap p.packet_size (drop 16 (sent p.buffer)) bytes v.has_header
        payload_length (IsBytes-drop 16 _ (sent_bytes _ p.buffer v.holds)))

  copy_payload_kept :
      drop 16 (sent (deep_copy heap p.packet_size p.buffer)) ≡ drop 16 (sent p.buffer)
  copy_payload_kept =
      ap (λ b. drop 16 (sent b)) deep_copy_lem
      ∙ drop-take_append 16 (fresh heap p.packet_size) _
          (omega (arith, length-fresh heap p.packet_size, v))

  copy-IsValid : IsValid (copy heap this p)
  unfolding copy
  copy-IsValid = record {
    has_header = v.has_header;
    size_fits = v.size_fits;
    holds = copy-Holds;
    stamped = v.stamped;
  }

  sealed-copy :
      (payload : Bytes) → (sealed (copy heap this p) payload).buffer ≡ (sealed p payload).buffer
  unfolding copy checksum_of
  sealed-copy payload = refl

  copy-sent : drop 16 (sent (copy heap this p).buffer) ≡ drop 16 (sent p.buffer)
  unfolding copy
  copy-sent = copy_payload_kept

-- A copy of a valid packet sends the same bytes, though its header is left as allocated.
pub packet-copy :
    (heap : ℕ → ℕ) (this p : PortAgentPacket)
    → ((i : ℕ) → heap i < 256)
    → IsValid p
    → IsValid (copy heap this p) × ((packet (copy heap this p)).buffer ≡ (packet p).buffer)
packet-copy heap this p bytes v = (
  copy-IsValid heap this p bytes v,
  ap (λ q. q.buffer) (packet_sealed (copy heap this p) (copy-IsValid heap this p bytes v))
      ∙ (sealed-copy heap this p bytes v _
          ∙ (ap (λ l. (sealed p l).buffer) (copy-sent heap this p bytes v)
              ∙ sym (ap (λ q. q.buffer) (packet_sealed p v)))),
)

-- Assigned to another object, a valid packet is copied: both send the same bytes. Assigned to
-- itself it loses its buffer, and keeps its other fields.
pub assign_cases :
    (heap : ℕ → ℕ) (this p : PortAgentPacket)
    → ((i : ℕ) → heap i < 256)
    → IsValid p
    → ((packet (assign heap false this p)).buffer ≡ (packet p).buffer)
      × (assign heap true p p ≡ record p { buffer = none })
unfolding assign
assign_cases heap this p bytes v =
    ((packet-copy heap (record this { buffer = none }) p bytes v).1, unfold copy deep_copy in refl)
