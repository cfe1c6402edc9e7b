-- ===== src/Packet/Buffered.antt =====
-- port_agent/packet/buffered_single_char.h and .cxx: class BufferedSingleCharPacket, a packet
-- that grows by a character at a time until one of its triggers fires.
pub mod Matching
pub mod Filling
pub mod Ready
pub mod Setters
pub mod Settings
use port_agent.Prelude.{
  ℕ, ◌+◌, Bool, true, false, ◌&&◌, if◌then◌else◌, leb, ltb, ◌==◌, not, Bytes, [], Option, none,
  some, u16, take, set, get_elem?,
}
use port_agent.Timestamp.{Timestamp, set_time}
use port_agent.Packet.{PacketType, type_code, header_size, default_base, unknown}
use port_agent.Packet.PortAgentPacket.{
  PortAgentPacket, PacketError, Result, ok, err, invalid_packet_type, packet_overflow,
  size_without_sentinle, negative_quiescent_time, payload_size_zero, payload_size_too_large,
  memory_fault, fresh, copy,
}

-- `float`, with the tests that the class makes: `x < 0`, `x` as a condition, and whether the
-- time from `last` to `now` has reached `x`.
pub record Floats : Type 1 where
  pub Float : Type 0
  pub is_negative : Float → Bool
  pub is_nonzero : Float → Bool
  pub reached : (now last : Timestamp) → Float → Bool

-- A `char *` that the object owns. setSentinle frees the old array and leaves the pointer.
pub data Pointer : Type 0 where
  null : Pointer
  live : Bytes → Pointer
  dangling : Pointer

infixl 5 ◌>>=◌
abbrev pub ◌>>=◌ {ℓ κ} : {A : Type ℓ} {B : Type κ} → Result A → (A → Result B) → Result B
ok a >>= f = f a
err e >>= f = err e

-- PortAgentPacket::PortAgentPacket(); the checksum is left as it was allocated.
unfoldable pub empty_packet : (junk : ℕ) (now : Timestamp) → PortAgentPacket
empty_packet junk now = record {
  base = default_base;
  packet_type = unknown;
  packet_size = 0;
  checksum = junk;
  timestamp = now;
  buffer = none;
}

-- setSentinle: the pointer after the old array is freed.
unfoldable pub free_sentinle : Pointer → Result Pointer
free_sentinle null = ok null
free_sentinle (live s) = ok dangling
free_sentinle dangling = err memory_fault

-- The array behind another object's pointer, where it is not null.
abbrev pub array_of : Pointer → Option Bytes
array_of null = none
array_of (live s) = some s
array_of dangling = some []

-- add, its second half: the sentinle's next index. The array has no terminator to stop at.
unfoldable pub match_sentinle : (input index : ℕ) → Pointer → Result ℕ
match_sentinle input index null = ok index
match_sentinle input index dangling = err memory_fault
match_sentinle input index (live s) = elim (get_elem? s index) [
  | none ↦ err memory_fault
  | some c ↦ ok (if c == input then u16 (index + 1) else 0)
]

module _ (fl : Floats) where
  open fl use {Float, is_negative, is_nonzero, reached}

  pub record BufferedSingleCharPacket : Type 0 where
    pub packet : PortAgentPacket
    pub sentinle : Pointer
    pub sentinle_size : ℕ  -- uint16_t
    pub sentinle_index : ℕ  -- uint16_t
    pub quiescent_time : Float
    pub last_add : Timestamp
    pub max_payload_size : ℕ  -- uint16_t

  unfoldable pub set_sentinle :
      (sequence : Option Bytes) (size : ℕ)
      → BufferedSingleCharPacket
      → Result BufferedSingleCharPacket
  unfolding free_sentinle
  set_sentinle none size b = free_sentinle b.sentinle >>= λ pointer.
      ok (record b { sentinle = pointer; sentinle_size = 0; sentinle_index = 0 })
  set_sentinle (some sequence) size b =
      if size == 0
      then err size_without_sentinle
      else (free_sentinle b.sentinle >>= λ _. ok (record b {
        sentinle = live (take size sequence);
        sentinle_size = size;
        sentinle_index = 0;
      }))

  unfoldable pub set_quiescent_time :
      Float → BufferedSingleCharPacket → Result BufferedSingleCharPacket
  set_quiescent_time time b =
      if is_negative time
      then err negative_quiescent_time
      else ok (record b { quiescent_time = time })

  -- setMaxPayloadSize: a new buffer, and an empty payload.
  unfoldable pub set_max_payload_size :
      (heap : ℕ → ℕ) (size : ℕ) → BufferedSingleCharPacket → Result BufferedSingleCharPacket
  set_max_payload_size heap size b =
      if size == 0
      then err payload_size_zero
      else if ltb 0xFFEF size
      then err payload_size_too_large
      else (let p = b.packet in
          ok (record b {
            max_payload_size = size;
            packet = record p {
              packet_size = header_size;
              buffer = some (fresh heap (header_size + size));
            };
          }))

  -- The last statement of the constructor: a placeholder for the time.
  unfoldable pub reset_time : BufferedSingleCharPacket → BufferedSingleCharPacket
  unfolding set_time
  reset_time b = let p = b.packet in record b { packet = record p { timestamp = set_time 0 0 } }

  -- BufferedSingleCharPacket(type, maxPayloadSize, maxQuiescentTime, sentinle, sentinleSize)
  unfoldable pub construct_buffered :
      (heap : ℕ → ℕ) (junk : ℕ) (now : Timestamp) (old : Float)
      → PacketType
      → (max_payload_size : ℕ) → Float
      → Option Bytes
      → ℕ
      → Result BufferedSingleCharPacket
  unfolding empty_packet reset_time set_sentinle set_quiescent_time set_max_payload_size type_code
  construct_buffered heap junk now old type max time sequence size =
      let p = empty_packet junk now in
      if type_code type == 0
      then err invalid_packet_type
      else (let blank : BufferedSingleCharPacket = record {
        packet = record p { packet_type = type };
        sentinle = null;
        sentinle_size = junk;
        sentinle_index = junk;
        quiescent_time = old;
        last_add = now;
        max_payload_size = junk;
      } in
          set_sentinle sequence size blank >>= λ b1. set_quiescent_time time b1 >>= λ b2.
          set_max_payload_size heap max b2 >>= λ b3. ok (reset_time b3))

  -- The three setter calls that the copy constructor and operator= share.
  unfoldable pub take_settings :
      (heap : ℕ → ℕ)
      → BufferedSingleCharPacket
      → BufferedSingleCharPacket
      → Result BufferedSingleCharPacket
  unfolding set_sentinle set_quiescent_time set_max_payload_size
  take_settings heap this rhs =
      set_sentinle (array_of rhs.sentinle) rhs.sentinle_size this >>= λ b1.
      set_quiescent_time rhs.quiescent_time b1 >>= λ b2.
      set_max_payload_size heap rhs.max_payload_size b2

  -- The copy constructor: `blank` is the object as the base class's copy leaves it.
  unfoldable pub copy_buffered :
      (heap heap' : ℕ → ℕ) (blank rhs : BufferedSingleCharPacket) → Result BufferedSingleCharPacket
  unfolding take_settings copy
  copy_buffered heap heap' blank rhs =
      let p = copy heap blank.packet rhs.packet in
      take_settings heap' (record blank { packet = p; sentinle = null }) rhs

  -- operator=, between two objects.
  unfoldable pub assign_buffered :
      (heap : ℕ → ℕ) (this rhs : BufferedSingleCharPacket) → Result BufferedSingleCharPacket
  unfolding take_settings
  assign_buffered heap this rhs = take_settings heap (record this { sentinle = null }) rhs

  -- add, its first half: the character and the time stamps. A null buffer cannot be written.
  unfoldable pub store :
      (input : ℕ)
      → Timestamp
      → BufferedSingleCharPacket
      → Option Bytes
      → Result BufferedSingleCharPacket
  store input timestamp b none = err memory_fault
  store input timestamp b (some buf) =
      let p = b.packet in
      let first = p.packet_size == header_size in
      ok (record b {
        packet = record p {
          timestamp = if first then timestamp else p.timestamp;
          buffer = some (set buf p.packet_size input);
          packet_size = u16 (p.packet_size + 1);
        };
        last_add = if is_nonzero b.quiescent_time then timestamp else b.last_add;
      })

  unfoldable pub add :
      (input : ℕ) → Timestamp → BufferedSingleCharPacket → Result BufferedSingleCharPacket
  add input timestamp b =
      if leb (b.max_payload_size + header_size) b.packet.packet_size
      then err packet_overflow
      else (store input timestamp b b.packet.buffer >>= λ b'.
          match_sentinle input b.sentinle_index b.sentinle >>= λ index.
          ok (record b' { sentinle_index = index }))

  -- readyToSend
  unfoldable pub ready_to_send : (now : Timestamp) → BufferedSingleCharPacket → Bool
  ready_to_send now b =
      if b.packet.packet_size == header_size
      then false
      else if leb (b.max_payload_size + header_size) b.packet.packet_size
      then true
      else if is_nonzero b.quiescent_time && reached now b.last_add b.quiescent_time
      then true
      else not (b.sentinle_size == 0) && b.sentinle_index == b.sentinle_size
