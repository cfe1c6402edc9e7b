-- ===== src/Packet.antt =====
-- port_agent/packet/packet.h and packet.cxx: the packet types, the header's constants and the
-- abstract class Packet.
pub mod PortAgentPacket
pub mod Checksum
pub mod Wire
pub mod RoundTrip
pub mod Build
pub mod Copy
pub mod Buffered
use port_agent.Prelude.{ℕ, ◌+◌, ◌-◌, Bytes, codes, Option, none, some, [], ◌++◌, u16, take, drop}

-- enum PacketType
pub data PacketType : Type 0 where
  unknown data_from_instrument data_from_rsn data_from_driver : PacketType
  port_agent_command port_agent_status port_agent_fault : PacketType
  instrument_command port_agent_heartbeat : PacketType

-- The enum's value, which is the type byte of the header.
unfoldable pub type_code : PacketType → ℕ
type_code unknown = 0
type_code data_from_instrument = 1
type_code data_from_rsn = 2
type_code data_from_driver = 3
type_code port_agent_command = 4
type_code port_agent_status = 5
type_code port_agent_fault = 6
type_code instrument_command = 7
type_code port_agent_heartbeat = 8

abbrev pub sync : ℕ
sync = 0xA39D7A

abbrev pub header_size : ℕ
header_size = 16

-- The members of the base class. Its accessors are not virtual: through a `Packet *` they read
-- these, whatever a subclass declares under the same names.
pub record PacketBase : Type 0 where
  pub packet_type : PacketType
  pub packet_size : ℕ  -- uint16_t
  pub buffer : Option Bytes

-- Packet::Packet()
unfoldable pub default_base : PacketBase
default_base = record { packet_type = unknown; packet_size = 0; buffer = none }

-- Packet::payloadSize()
unfoldable pub base_payload_size : PacketBase → ℕ
base_payload_size b = u16 (b.packet_size + 65536 - header_size)

-- Packet::typeToString
unfoldable pub type_to_string : PacketType → Bytes
type_to_string unknown = codes "UNKNOWN"
type_to_string data_from_instrument = codes "DATA_FROM_INSTRUMENT"
type_to_string data_from_driver = codes "DATA_FROM_DRIVER"
type_to_string port_agent_command = codes "PORT_AGENT_COMMAND"
type_to_string port_agent_status = codes "PORT_AGENT_STATUS"
type_to_string port_agent_fault = codes "PORT_AGENT_FAULT"
type_to_string instrument_command = codes "INSTRUMENT_COMMAND"
type_to_string port_agent_heartbeat = codes "PORT_AGENT_HEARTBEAT"
type_to_string _ = codes "OUT_OF_RANGE"

-- The loop `for(i = HEADER_SIZE; i < size; i++)` over a packet buffer.
abbrev pub payload_of : ℕ → Option Bytes → Bytes
payload_of size none = []
payload_of size (some buf) = drop header_size (take size buf)

-- Packet::asAscii. `time` is the virtual asciiPacketTimestamp(), `buf` the virtual packet().
unfoldable pub base_as_ascii : PacketBase → Bytes → Option Bytes → Bytes
unfolding type_to_string
base_as_ascii b time buf =
    codes "<packet type=\""
    ++ (type_to_string b.packet_type
        ++ (codes "\" time=\""
            ++ (time ++ (codes "\">" ++ (payload_of b.packet_size buf ++ codes "</packet>\n\r")))))
