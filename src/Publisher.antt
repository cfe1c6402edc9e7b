-- ===== src/Publisher.antt =====
-- port_agent/publisher/: the publisher classes, their handlers, publish and write; and
-- network/: how the publishers' comm objects are compared.
pub mod Routing
pub mod PublisherList
pub mod Writing
pub mod Rotation
pub mod Delivery
pub mod Ordering
pub mod Adding
use port_agent.Prelude.{
  ℕ, zero, suc, ◌+◌, ◌-◌, Bool, true, false, ◌&&◌, not, if◌then◌else◌, ltb, ◌==◌, Bytes, bytes_eq,
  [], ◌∷◌, ◌++◌, List, Option, none, some, length, take, drop,
}
use port_agent.Packet.{
  PacketType, unknown, data_from_instrument, data_from_rsn, data_from_driver, port_agent_command,
  port_agent_status, port_agent_fault, instrument_command, port_agent_heartbeat, base_payload_size,
}
use port_agent.Packet.PortAgentPacket.{PortAgentPacket, packet, as_ascii}
use port_agent.Config.{RotationType, daily, hourly, quarter_hourly, minute, second}
use port_agent.Timestamp.{Timestamp}

-- enum PublisherType
pub data PublisherType : Type 0 where
  publisher_unknown publisher_driver_command publisher_driver_data : PublisherType
  publisher_instrument_command publisher_instrument_data publisher_file : PublisherType
  publisher_udp publisher_tcp publisher_telnet_sniffer : PublisherType

unfoldable pub publisher_code : PublisherType → ℕ
publisher_code publisher_unknown = 0
publisher_code publisher_driver_command = 1
publisher_code publisher_driver_data = 2
publisher_code publisher_instrument_command = 3
publisher_code publisher_instrument_data = 4
publisher_code publisher_file = 5
publisher_code publisher_udp = 6
publisher_code publisher_tcp = 7
publisher_code publisher_telnet_sniffer = 8

abbrev pub same_type : PublisherType → PublisherType → Bool
same_type a b = publisher_code a == publisher_code b

-- CommBase and what its classes compare.
pub data CommBase : Type 0 where
  tcp_comm_listener : (port : ℕ) → CommBase
  tcp_comm_socket udp_comm_socket : (hostname : Bytes) (port : ℕ) → CommBase
  serial_comm_socket : CommBase

-- FilePointerPublisher::compareCommSocket of two objects, which asks the types first. Two
-- serial sockets never compare equal.
unfoldable pub compare_comm : CommBase → CommBase → Bool
compare_comm (tcp_comm_listener p) (tcp_comm_listener q) = p == q
compare_comm (tcp_comm_socket h p) (tcp_comm_socket k q) = (p == q) && bytes_eq h k
compare_comm (udp_comm_socket h p) (udp_comm_socket k q) = (p == q) && bytes_eq h k
compare_comm _ _ = false

unfoldable pub compare_comm_socket : Option CommBase → Option CommBase → Bool
unfolding compare_comm
compare_comm_socket none none = true
compare_comm_socket (some a) (some b) = compare_comm a b
compare_comm_socket _ _ = false

-- The members of LogFile that its equality reads.
pub record LogFile : Type 0 where
  pub file_name : Bytes
  pub file_base : Bytes
  pub file_extention : Bytes
  pub rotation : RotationType

abbrev pub rotation_code : RotationType → ℕ
rotation_code daily = 0
rotation_code hourly = 1
rotation_code quarter_hourly = 2
rotation_code minute = 3
rotation_code second = 4

unfoldable pub same_log_file : LogFile → LogFile → Bool
same_log_file a b =
    bytes_eq a.file_name b.file_name
    && bytes_eq a.file_base b.file_base
    && bytes_eq a.file_extention b.file_extention
    && (rotation_code a.rotation == rotation_code b.rotation)

-- OOIException and its subclasses that publishing meets.
pub data PublishError : Type 0 where
  unknown_packet_type file_descriptor_null packet_publish_failure : PublishError
  socket_write_failure unknown_publisher_type : PublishError

-- A publisher of the class that `publisher_type` names; the other classes' members are unused.
pub record Publisher : Type 0 where
  pub publisher_type : PublisherType
  pub ascii_out : Bool
  pub error : Option PublishError
  pub comm_socket : Option CommBase
  pub file_pointer : Option ℕ
  pub log_file : LogFile
  pub prefix : Bytes
  pub suffix : Bytes

-- The virtual compare: FilePublisher's, and FilePointerPublisher's for the other classes.
unfoldable pub compare : Publisher → Publisher → Bool
compare p rhs =
    same_type p.publisher_type rhs.publisher_type
    && (if same_type p.publisher_type publisher_file
        then same_log_file p.log_file rhs.log_file
        else compare_comm_socket p.comm_socket rhs.comm_socket)

-- What a publisher sees of a packet through a `Packet *`: the accessors that are not virtual
-- read the base class.
pub record PacketView : Type 0 where
  pub packet_type : PacketType
  pub packet_size : ℕ
  pub bytes : Bytes  -- the virtual packet()
  pub payload : Bytes
  pub payload_size : ℕ
  pub ascii : Bytes  -- the base class's asAscii()

abbrev pub held : Option Bytes → Bytes
held none = []
held (some buf) = buf

unfoldable pub view : (ascii : PortAgentPacket → Bytes) → PortAgentPacket → PacketView
unfolding packet base_payload_size
view ascii p = record {
  packet_type = p.base.packet_type;
  packet_size = p.base.packet_size;
  bytes = held (packet p).buffer;
  payload = drop 16 (held p.base.buffer);
  payload_size = base_payload_size p.base;
  ascii = ascii p;
}

-- How a call ends: with its value, or with an exception. Bytes that were written stay written.
pub data Answer : Type 0 where
  returned : Bool → Answer
  raised : PublishError → Answer

-- The peer: how many of the bytes offered at an attempt it takes, or an exception. `call`
-- numbers the calls of write.
abbrev pub Device : Type 0
Device = (call attempt offered : ℕ) → Option ℕ

-- The loop of FilePointerPublisher::write: `total` bytes of `buffer` are out, as `out`.
abbrev pub finish : (size total : ℕ) → Bytes → Bytes × Answer
finish size total out =
    (out, if total == size then returned true else raised packet_publish_failure)

abbrev pub after_attempt : Option ℕ → Bytes → (ℕ → Bytes × Answer) → Bytes × Answer
after_attempt none out next = (out, raised socket_write_failure)
after_attempt (some n) out next = next n

unfoldable pub write_loop :
    (rounds attempt : ℕ)
    → (ℕ → ℕ → Option ℕ)
    → (buffer : Bytes) (size total : ℕ) (out : Bytes) → Bytes × Answer
write_loop zero attempt accept buffer size total out = finish size total out
write_loop (suc rounds) attempt accept buffer size total out =
    let next : ℕ → Bytes × Answer = λ n.
      write_loop rounds (attempt + 1) accept buffer size (total + n)
        (out ++ take n (drop total buffer)) in
    if ltb total size
    then after_attempt (accept attempt (size - total)) out next
    else finish size total out

abbrev pub has_no_output : Publisher → Bool
has_no_output p = elim p.comm_socket [
  | some c ↦ false
  | none ↦ elim p.file_pointer [ some f ↦ false | none ↦ true ]
]

-- FilePointerPublisher::write. A socket that is not connected is connected first: what that
-- gives shows in what the device takes.
unfoldable pub write : (accept : ℕ → ℕ → Option ℕ) → Publisher → Bytes → (size : ℕ) → Bytes × Answer
unfolding write_loop
write accept p buffer size =
    if size == 0
    then ([], returned false)
    else if has_no_output p
    then ([], raised file_descriptor_null)
    else write_loop 3 0 accept buffer size 0 []

-- DriverCommandPublisher::write, which returns no value: `junk` is what the caller finds.
unfoldable pub write_if_connected :
    (accept : ℕ → ℕ → Option ℕ) (connected junk : Bool)
    → Publisher
    → Bytes
    → (size : ℕ) → Bytes × Answer
unfolding write
write_if_connected accept connected junk p buffer size = elim p.comm_socket [
  | none ↦ ([], returned junk)
  | some c ↦
      if connected
      then (let (out, answer) = write accept p buffer size in
          (out, elim answer [ returned b ↦ returned junk | raised e ↦ raised e ]))
      else ([], returned junk)
]
