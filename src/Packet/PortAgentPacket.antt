-- ===== src/Packet/PortAgentPacket.antt =====
-- port_agent/packet/port_agent_packet.h and port_agent_packet.cxx: class PortAgentPacket.
-- The content of fresh memory is a function `heap` from offsets to bytes.
use port_agent.Prelude.{
  ℕ, zero, suc, ◌+◌, ◌-◌, ◌/◌, Bool, ◌||◌, if◌then◌else◌, ltb, ◌==◌, bit_xor, Bytes, codes, Option,
  none, some, [], ◌∷◌, ◌++◌, u16, take, drop, set, write_at, mem16, mem32, mem64, htons, htonl,
}
use port_agent.Timestamp.{Timestamp, as_binary}
use port_agent.Packet.{
  PacketType, type_code, sync, header_size, PacketBase, default_base, type_to_string, payload_of,
}

-- The subclass declares its own type, size and buffer beside those of `base`.
pub record PortAgentPacket : Type 0 where
  pub base : PacketBase
  pub packet_type : PacketType
  pub packet_size : ℕ  -- uint16_t
  pub checksum : ℕ  -- uint16_t
  pub timestamp : Timestamp
  pub buffer : Option Bytes

-- `new char[n]`
unfoldable pub fresh : (ℕ → ℕ) → ℕ → Bytes
fresh heap zero = []
fresh heap (suc n) = heap 0 ∷ fresh (λ i. heap (suc i)) n

-- The loop of calculateChecksum from index `i` on, over what is left of the buffer.
unfoldable pub checksum_loop : ℕ → Bytes → ℕ → ℕ
checksum_loop i [] acc = acc
checksum_loop i (b ∷ bs) acc =
    checksum_loop (suc i) bs (if ltb i 6 || ltb 7 i then bit_xor acc b else acc)

-- PortAgentPacket::calculateChecksum
unfoldable pub calculate_checksum : ℕ → Option Bytes → ℕ
unfolding checksum_loop
calculate_checksum size none = 0
calculate_checksum size (some buf) = checksum_loop 0 (take size buf) 0

-- The deep copy loop: `rounds` bytes of `payload` from index `i` of the buffer on. Reading past
-- the end of the caller's array is not modelled.
unfoldable pub copy_payload : (rounds i : ℕ) → Bytes → Bytes → Bytes
copy_payload zero i payload buf = buf
copy_payload (suc n) i [] buf = buf
copy_payload (suc n) i (b ∷ payload) buf = copy_payload n (suc i) payload (set buf i b)

-- `if(payload) for(i = HEADER_SIZE; i < m_iPacketSize; i++) ...` of the constructor.
unfoldable pub fill : (size : ℕ) → Option Bytes → Bytes → Bytes
unfolding copy_payload
fill size none buf = buf
fill size (some payload) buf = copy_payload (size - header_size) header_size payload buf

pub data PacketError : Type 0 where
  invalid_packet_type packet_overflow size_without_sentinle : PacketError
  negative_quiescent_time payload_size_zero payload_size_too_large : PacketError
  -- undefined behaviour: a read through a dangling pointer or past the end of an array
  memory_fault : PacketError

pub data Result {ℓ} (A : Type ℓ) : Type ℓ where
  ok : A → Result A
  err : PacketError → Result A

-- The members that PortAgentPacket(type, timestamp, payload, payloadSize) sets. The assignment
-- of the parameter `timestamp` is commented out there: the member is default-constructed, to `now`.
unfoldable pub new_packet :
    (heap : ℕ → ℕ) (now : Timestamp) → PacketType → Option Bytes → ℕ → PortAgentPacket
new_packet heap now packet_type payload payload_size =
    let size = u16 (header_size + payload_size) in
    let buf = fill size payload (fresh heap size) in
    record {
      base = default_base;
      packet_type = packet_type;
      packet_size = size;
      checksum = calculate_checksum size (some buf);
      timestamp = now;
      buffer = some buf;
    }

-- The constructor, with its test of the type.
unfoldable pub construct :
    (heap : ℕ → ℕ) (now : Timestamp)
    → PacketType
    → Timestamp
    → Option Bytes
    → ℕ
    → Result PortAgentPacket
construct heap now packet_type timestamp payload payload_size =
    if type_code packet_type == 0
    then err invalid_packet_type
    else ok (new_packet heap now packet_type payload payload_size)

-- The header fields that packet() writes before it recalculates the checksum.
unfoldable pub write_header : PortAgentPacket → Bytes → Bytes
unfolding htonl mem32
write_header p buf = write_at 8 (mem64 (as_binary p.timestamp)) (
    write_at 4 (mem16 (htons p.packet_size)) (
      write_at 3 (type_code p.packet_type ∷ [])
        (write_at 0 (take 3 (mem32 (htonl sync / 256))) buf)))

-- PortAgentPacket::packet(), on a little-endian host: the object afterwards. The pointer that
-- it returns is the new buffer.
unfoldable pub packet_with : PortAgentPacket → Option Bytes → PortAgentPacket
packet_with p none = p
packet_with p (some buf) =
    let buf' = write_header p buf in
    let sum = calculate_checksum p.packet_size (some buf') in
    record p { checksum = sum; buffer = some (write_at 6 (mem16 (htons sum)) buf') }

unfoldable pub packet : PortAgentPacket → PortAgentPacket
unfolding packet_with
packet p = packet_with p p.buffer

-- The buffer that copy() makes of another packet's.
unfoldable pub deep_copy : (heap : ℕ → ℕ) (size : ℕ) → Option Bytes → Option Bytes
unfolding fresh copy_payload
deep_copy heap size none = none
deep_copy heap size (some buf) =
    some (copy_payload (size - header_size) header_size (drop header_size buf) (fresh heap size))

-- PortAgentPacket::copy: the payload is copied, the header bytes are left as allocated.
unfoldable pub copy : (heap : ℕ → ℕ) → PortAgentPacket → PortAgentPacket → PortAgentPacket
unfolding deep_copy
copy heap this rhs = record this {
  timestamp = rhs.timestamp;
  packet_type = rhs.packet_type;
  packet_size = rhs.packet_size;
  checksum = rhs.checksum;
  buffer = deep_copy heap rhs.packet_size rhs.buffer;
}

-- operator=: the old buffer is freed first, also where `rhs` is this very object.
unfoldable pub assign :
    (heap : ℕ → ℕ) (same : Bool) → PortAgentPacket → PortAgentPacket → PortAgentPacket
unfolding copy
assign heap same this rhs =
    let this' = record this { buffer = none } in copy heap this' (if same then this' else rhs)

-- PortAgentPacket::asAscii. `as_number` prints the stamp.
unfoldable pub as_ascii : (as_number : Timestamp → Bytes) → PortAgentPacket → Bytes
unfolding packet type_to_string
as_ascii as_number p =
    let q = packet p in
    codes "<port_agent_packet type=\""
    ++ (type_to_string q.packet_type
        ++ (codes "\" time=\""
            ++ (as_number q.timestamp
                ++ (codes "\">"
                    ++ (payload_of q.packet_size q.buffer ++ codes "</port_agent_packet>\n\r")))))
