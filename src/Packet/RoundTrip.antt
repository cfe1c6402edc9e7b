-- ===== src/Packet/RoundTrip.antt =====
-- Reading back what packet() wrote, as a client of the port agent does.
use port_agent.Prelude.{
  ℕ, ◌+◌, ◌*◌, ◌/◌, ◌%◌, ◌<◌, ◌≡◌, refl, ◌∙◌, arith, bit_xor_assoc, bit_xor_self, bit_xor-zero,
  zero-bit_xor, Bytes, Option, none, some, [], ◌∷◌, ◌++◌, IsBytes, IsBytes-drop, length-drop_add,
  length, drop, be16, be32,
}
use port_agent.Timestamp.{Timestamp}
use port_agent.Packet.{sync, type_code}
use port_agent.Packet.PortAgentPacket.{PortAgentPacket, packet}
use port_agent.Packet.Checksum.{xor_all, xor_all-append}
use port_agent.Packet.Wire.{
  Holds, IsValid, layout, covered, checksum_of, type_code-lt_byte, checksum_of-lt_byte, sealed,
  packet_lem,
}
use port_agent.Timestamp.Laws.{wire}

-- The fields of a packet as its reader sees them.
pub record Decoded : Type 0 where
  pub sync : ℕ
  pub type : ℕ
  pub size : ℕ
  pub checksum : ℕ
  pub timestamp : Timestamp
  pub payload : Bytes

-- A reader of the big-endian layout, with a header of 16 bytes.
pub decode : Bytes → Option Decoded
decode (s2 ∷ s1 ∷ s0 ∷ t ∷ n1 ∷ n0 ∷ k1 ∷ k0 ∷ a ∷ b ∷ c ∷ d ∷ e ∷ f ∷ g ∷ h ∷ payload) =
    some (record {
      sync = s2 * 65536 + be16 s1 s0;
      type = t;
      size = be16 n1 n0;
      checksum = be16 k1 k0;
      timestamp = record { seconds = be32 a b c d; fraction = be32 e f g h };
      payload = payload;
    })
decode _ = none

-- What is sent: the content of the buffer.
abbrev pub sent : Option Bytes → Bytes
sent none = []
sent (some buf) = buf

pub sent-Holds : (n : ℕ) (b : Option Bytes) → Holds n b → b ≡ some (sent b)
sent-Holds n none h = absurd h
sent-Holds n (some buf) h = refl

pub packet_sealed :
    (p : PortAgentPacket) → IsValid p → packet p ≡ sealed p (drop 16 (sent p.buffer))
packet_sealed p v = packet_lem p _ v (sent-Holds _ p.buffer v.holds)

pub sent_bytes : (n : ℕ) (b : Option Bytes) → Holds n b → IsBytes (sent b)
sent_bytes n none h = absurd h
sent_bytes n (some buf) h = h.1

payload_checksum-lt_byte :
    (p : PortAgentPacket) → IsValid p → checksum_of p (drop 16 (sent p.buffer)) < 256
payload_checksum-lt_byte p v =
    checksum_of-lt_byte p _ v.size_fits v.stamped
      (IsBytes-drop 16 _ (sent_bytes _ p.buffer v.holds))

-- A reader of the big-endian layout gets every field of a valid packet back from the bytes
-- that packet() leaves, and the payload.
pub decode-packet :
    (p : PortAgentPacket)
    → IsValid p
    → decode (sent (packet p).buffer)
      ≡ some (record {
        sync = sync;
        type = type_code p.packet_type;
        size = p.packet_size;
        checksum = (packet p).checksum;
        timestamp = p.timestamp;
        payload = drop 16 (sent p.buffer);
      })
unfolding decode
decode-packet p v = rw (packet_sealed p v) (ground (arith, payload_checksum-lt_byte p v, v.stamped))

self_checked : (f x : Bytes) → xor_all (f ++ (0 ∷ xor_all (f ++ x) ∷ x)) ≡ 0
unfolding xor_all
self_checked f x = simp (xor_all-append, zero-bit_xor, bit_xor_assoc, bit_xor_self, bit_xor-zero)

layout_checked :
    (type size sum : ℕ) (t : Timestamp) (payload : Bytes)
    → sum ≡ xor_all (covered type size t payload)
    → sum < 256
    → xor_all (layout type size sum t payload) ≡ 0
layout_checked type size sum t payload e fits =
    let hi : sum / 256 ≡ 0 = omega arith in
    let lo : sum % 256 ≡ sum = omega arith in
    rw (hi, lo, e)
      (self_checked (0xA3 ∷ 0x9D ∷ 0x7A ∷ type ∷ (size / 256) ∷ (size % 256) ∷ [])
        (wire t ++ payload))

-- The exclusive or of all bytes that are sent for a valid packet is 0, so that a reader can
-- verify them in one pass, and the checksum is below 256.
pub xor_all-packet :
    (p : PortAgentPacket)
    → IsValid p
    → (xor_all (sent (packet p).buffer) ≡ 0) × ((packet p).checksum < 256)
xor_all-packet p v = rw (packet_sealed p v) (
  layout_checked _ _ _ _ _ (unfold checksum_of in refl) (payload_checksum-lt_byte p v),
  payload_checksum-lt_byte p v,
)

pub length-sent : (n : ℕ) (b : Option Bytes) → Holds n b → length (sent b) ≡ n
length-sent n none h = absurd h
length-sent n (some buf) h = h.0

-- packet() keeps a packet valid.
pub packet-IsValid : (p : PortAgentPacket) → IsValid p → IsValid (packet p)
packet-IsValid p v = rw (packet_sealed p v) (record {
  has_header = v.has_header;
  size_fits = v.size_fits;
  holds = (
    omega (
      arith,
      length-drop_add 16 (sent p.buffer) (omega (arith, length-sent _ p.buffer v.holds, v)),
      length-sent _ p.buffer v.holds,
    ),
    ground (
      arith,
      type_code-lt_byte p.packet_type,
      payload_checksum-lt_byte p v,
      v.stamped,
      v.size_fits,
      IsBytes-drop 16 _ (sent_bytes _ p.buffer v.holds),
    ),
  );
  stamped = v.stamped;
})

-- On a valid packet packet() can be called again: it changes nothing more.
packet-packet : (p : PortAgentPacket) → IsValid p → packet (packet p) ≡ packet p
unfolding checksum_of
packet-packet p v = packet_sealed (packet p) (packet-IsValid p v) ∙ rw (packet_sealed p v) refl
