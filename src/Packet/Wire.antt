-- ===== src/Packet/Wire.antt =====
-- The bytes that packet() leaves in the buffer, against the layout that the source documents.
use port_agent.Prelude.{
  ℕ, ◌+◌, ◌/◌, ◌%◌, ◌≤◌, ◌<◌, ◌≡◌, refl, ap, subst, ◌∙◌, arith, Bytes, Option, none, some, [], ◌∷◌,
  ◌++◌, All, length, take, drop, take-length, mem16, htons,
}
use port_agent.Timestamp.{Timestamp, IsWord}
use port_agent.Timestamp.Laws.{wire, mem64-as_binary}
use port_agent.Packet.{PacketType, type_code}
use port_agent.Packet.PortAgentPacket.{
  PortAgentPacket, checksum_loop, calculate_checksum, write_header, packet_with, packet,
}
use port_agent.Packet.Checksum.{xor_all, xor_all-lt_byte, checksum_loop_lem}

-- A buffer of `n` bytes.
abbrev pub Holds : ℕ → Option Bytes → Type 0
Holds n none = ⊥
Holds n (some buf) = (length buf ≡ n) × All (λ b. b < 256) buf

-- What a constructed packet has: a buffer of its size, the header included.
pub record IsValid (p : PortAgentPacket) : Type 0 where
  pub has_header : 16 ≤ p.packet_size
  pub size_fits : p.packet_size < 65536
  pub holds : Holds p.packet_size p.buffer
  pub stamped : IsWord p.timestamp

-- The layout, big-endian: sync, type, size, checksum, time stamp, payload.
abbrev pub layout : (type size sum : ℕ) → Timestamp → Bytes → Bytes
layout type size sum t payload =
    0xA3
    ∷ 0x9D
    ∷ 0x7A
    ∷ type
    ∷ (size / 256)
    ∷ (size % 256)
    ∷ (sum / 256)
    ∷ (sum % 256)
    ∷ (wire t ++ payload)

-- All of it but the checksum.
abbrev pub covered : (type size : ℕ) → Timestamp → Bytes → Bytes
covered type size t payload =
    0xA3 ∷ 0x9D ∷ 0x7A ∷ type ∷ (size / 256) ∷ (size % 256) ∷ (wire t ++ payload)

pub mem16-htons : (x : ℕ) → x < 65536 → mem16 (htons x) ≡ (x / 256) ∷ (x % 256) ∷ []
unfolding htons mem16
mem16-htons x h = ground arith

-- The header fields, with the checksum's place as it was.
header_layout : PortAgentPacket → ℕ → ℕ → Bytes → Bytes
header_layout p g h payload =
    0xA3
    ∷ 0x9D
    ∷ 0x7A
    ∷ type_code p.packet_type
    ∷ (p.packet_size / 256)
    ∷ (p.packet_size % 256)
    ∷ g
    ∷ h
    ∷ (wire p.timestamp ++ payload)

write_header_lem :
    (p : PortAgentPacket) (a b c d e f g h i j k l m n o q : ℕ) (rest : Bytes)
    → p.packet_size < 65536
    → IsWord p.timestamp
    → write_header p (a ∷ b ∷ c ∷ d ∷ e ∷ f ∷ g ∷ h ∷ i ∷ j ∷ k ∷ l ∷ m ∷ n ∷ o ∷ q ∷ rest)
      ≡ header_layout p g h rest
unfolding write_header header_layout
write_header_lem p a b c d e f g h i j k l m n o q rest fits w =
    rw (mem16-htons p.packet_size fits, mem64-as_binary p.timestamp w)

unfoldable pub checksum_of : PortAgentPacket → Bytes → ℕ
checksum_of p payload =
    xor_all (covered (type_code p.packet_type) p.packet_size p.timestamp payload)

pub type_code-lt_byte : (t : PacketType) → type_code t < 256
unfolding type_code
type_code-lt_byte t = ground arith

take_all : (n : ℕ) (bs : Bytes) → length bs ≡ n → take n bs ≡ bs
take_all n bs e = rw (← e) (take-length bs)

calculate_checksum_full :
    (n : ℕ) (bs : Bytes) → length bs ≡ n → calculate_checksum n (some bs) ≡ checksum_loop 0 bs 0
unfolding calculate_checksum
calculate_checksum_full n bs e = ap (λ l. checksum_loop 0 l 0) (take_all n bs e)

header_checksum :
    (p : PortAgentPacket) (g h : ℕ) (rest : Bytes)
    → length rest + 16 ≡ p.packet_size
    → calculate_checksum p.packet_size (some (header_layout p g h rest)) ≡ checksum_of p rest
unfolding header_layout checksum_of
header_checksum p g h rest e =
    calculate_checksum_full _ _ (omega arith) ∙ checksum_loop_lem _ _ _ _ _ _ g h _

pub checksum_of-lt_byte :
    (p : PortAgentPacket) (rest : Bytes)
    → p.packet_size < 65536
    → IsWord p.timestamp
    → All (λ b. b < 256) rest
    → checksum_of p rest < 256
unfolding checksum_of
checksum_of-lt_byte p rest fits w h =
    xor_all-lt_byte _ (ground (arith, type_code-lt_byte p.packet_type))

-- The fields that packet() sets.
abbrev pub sealed : PortAgentPacket → Bytes → PortAgentPacket
sealed p payload = record p {
  checksum = checksum_of p payload;
  buffer =
      some (
        layout (type_code p.packet_type) p.packet_size (checksum_of p payload) p.timestamp payload);
}

packet_with_lem :
    (p : PortAgentPacket) (a b c d e f g h i j k l m n o q : ℕ) (rest : Bytes)
    → IsValid p
    → length rest + 16 ≡ p.packet_size
    → All (λ b. b < 256) rest
    → packet_with p (some (a ∷ b ∷ c ∷ d ∷ e ∷ f ∷ g ∷ h ∷ i ∷ j ∷ k ∷ l ∷ m ∷ n ∷ o ∷ q ∷ rest))
      ≡ sealed p rest
unfolding packet_with
packet_with_lem p a b c d e f g h i j k l m n o q rest v full bytes =
    rw
      (
        write_header_lem p a b c d e f g h i j k l m n o q rest v.size_fits v.stamped,
        header_checksum p g h rest full,
        mem16-htons (checksum_of p rest)
            (omega (arith, checksum_of-lt_byte p rest v.size_fits v.stamped bytes)),
      )
      (unfold header_layout in refl)

packet_with_bytes :
    (p : PortAgentPacket) (buf : Bytes)
    → IsValid p
    → Holds p.packet_size (some buf)
    → packet_with p (some buf) ≡ sealed p (drop 16 buf)
packet_with_bytes p (a ∷ b ∷ c ∷ d ∷ e ∷ f ∷ g ∷ h ∷ i ∷ j ∷ k ∷ l ∷ m ∷ n ∷ o ∷ q ∷ rest) v s =
    packet_with_lem p a b c d e f g h i j k l m n o q rest v (omega arith)
      (s.1.1.1.1.1.1.1.1.1.1.1.1.1.1.1.1.1)
packet_with_bytes p _ v s = absurd (omega arith)

-- packet() leaves the big-endian layout of its own fields and of the old payload.
pub packet_lem :
    (p : PortAgentPacket) (buf : Bytes)
    → IsValid p
    → p.buffer ≡ some buf
    → packet p ≡ sealed p (drop 16 buf)
unfolding packet
packet_lem p buf v e =
    ap (packet_with p) e ∙ packet_with_bytes p buf v (subst (Holds p.packet_size) e v.holds)
