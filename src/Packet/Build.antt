-- ===== src/Packet/Build.antt =====
-- The constructor of PortAgentPacket.
use port_agent.Prelude.{
  ℕ, zero, suc, ◌+◌, ◌-◌, ◌%◌, ◌≤◌, ◌<◌, ◌≡◌, ◌≢◌, ◌↔◌, refl, sym, ap, subst, ◌∙◌, arith, Bytes,
  Option, some, [], ◌∷◌, ◌++◌, u16, IsBytes, IsBytes-take_append, length, take, drop, set,
  length-take_append, drop-take_append, length-drop_add,
}
use port_agent.Timestamp.{Timestamp, IsWord}
use port_agent.Packet.{PacketType, unknown, type_code, sync, header_size}
use port_agent.Packet.PortAgentPacket.{
  PortAgentPacket, ok, fresh, copy_payload, fill, new_packet, construct, packet,
}
use port_agent.Packet.Wire.{Holds, IsValid}
use port_agent.Packet.RoundTrip.{decode, sent, decode-packet}

pub length-fresh : (heap : ℕ → ℕ) (n : ℕ) → length (fresh heap n) ≡ n
unfolding fresh
length-fresh heap zero = refl
length-fresh heap (suc n) = ap suc (length-fresh (λ i. heap (suc i)) n)

fresh-IsBytes : (heap : ℕ → ℕ) (n : ℕ) → ((i : ℕ) → heap i < 256) → IsBytes (fresh heap n)
unfolding fresh
fresh-IsBytes heap zero h = tt
fresh-IsBytes heap (suc n) h = (h 0, fresh-IsBytes (λ i. heap (suc i)) n (λ i. h (suc i)))

copy_payload_shift :
    (n i x : ℕ) (bs buf : Bytes) → copy_payload n (suc i) bs (x ∷ buf) ≡ x ∷ copy_payload n i bs buf
unfolding copy_payload
copy_payload_shift zero i x bs buf = refl
copy_payload_shift (suc n) i x [] buf = refl
copy_payload_shift (suc n) i x (b ∷ bs) buf = copy_payload_shift n (suc i) x bs (set buf i b)

copy_payload_all :
    (n : ℕ) (bs buf : Bytes) → length bs ≡ n → length buf ≡ n → copy_payload n 0 bs buf ≡ bs
unfolding copy_payload
copy_payload_all zero [] [] p q = refl
copy_payload_all zero [] (y ∷ buf) p q = absurd (omega arith)
copy_payload_all zero (b ∷ bs) buf p q = absurd (omega arith)
copy_payload_all (suc n) [] buf p q = absurd (omega arith)
copy_payload_all (suc n) (b ∷ bs) [] p q = absurd (omega arith)
copy_payload_all (suc n) (b ∷ bs) (y ∷ buf) p q =
    copy_payload_shift n 0 b bs buf
    ∙ ap (λ l. b ∷ l) (copy_payload_all n bs buf (omega arith) (omega arith))

copy_payload_from :
    (n i : ℕ) (bs buf : Bytes)
    → i ≤ length buf
    → copy_payload n i bs buf ≡ take i buf ++ copy_payload n 0 bs (drop i buf)
copy_payload_from n zero bs buf h = refl
copy_payload_from n (suc i) bs [] h = absurd (omega arith)
copy_payload_from n (suc i) bs (x ∷ buf) h =
    copy_payload_shift n i x bs buf ∙ ap (λ l. x ∷ l) (copy_payload_from n i bs buf (omega arith))

-- The copy loop behind a header of fresh memory.
pub copy_payload-fresh :
    (heap : ℕ → ℕ) (size : ℕ) (bs : Bytes)
    → length bs + 16 ≡ size
    → copy_payload (size - 16) 16 bs (fresh heap size) ≡ take 16 (fresh heap size) ++ bs
copy_payload-fresh heap size bs e =
    copy_payload_from (size - 16) 16 bs (fresh heap size) (omega (arith, length-fresh heap size))
    ∙ ap (λ l. take 16 (fresh heap size) ++ l)
        (copy_payload_all (size - 16) bs (drop 16 (fresh heap size)) (omega arith) (
          omega (
            arith,
            length-fresh heap size,
            length-drop_add 16 (fresh heap size) (omega (arith, length-fresh heap size)),
          )))

pub IsBytes-header_append :
    (heap : ℕ → ℕ) (size : ℕ) (bs : Bytes)
    → ((i : ℕ) → heap i < 256)
    → 16 ≤ size
    → length bs + 16 ≡ size
    → IsBytes bs
    → Holds size (some (take 16 (fresh heap size) ++ bs))
IsBytes-header_append heap size bs h le e b = (
  omega (
    arith,
    length-fresh heap size,
    length-take_append 16 (fresh heap size) bs (omega (arith, length-fresh heap size)),
  ),
  IsBytes-take_append 16 (fresh heap size) bs (fresh-IsBytes heap size h) b,
)

pub type_code-ne_zero : (t : PacketType) → t ≢ unknown → type_code t ≢ 0
unfolding type_code
type_code-ne_zero t h = ground arith

construct_known :
    (heap : ℕ → ℕ) (now : Timestamp) (type : PacketType) (stamp : Timestamp)
    (payload : Option Bytes) (size : ℕ)
    → type ≢ unknown
    → construct heap now type stamp payload size ≡ ok (new_packet heap now type payload size)
unfolding construct
construct_known heap now type stamp payload size h = ground (arith, type_code-ne_zero type h)

new_packet-type :
    (heap : ℕ → ℕ) (now : Timestamp) (type : PacketType) (payload : Option Bytes) (size : ℕ)
    → (new_packet heap now type payload size).packet_type ≡ type
unfolding new_packet
new_packet-type heap now type payload size = refl

new_packet-timestamp :
    (heap : ℕ → ℕ) (now : Timestamp) (type : PacketType) (payload : Option Bytes) (size : ℕ)
    → (new_packet heap now type payload size).timestamp ≡ now
unfolding new_packet
new_packet-timestamp heap now type payload size = refl

module _ (heap : ℕ → ℕ) (now : Timestamp) (type : PacketType) (payload : Bytes)
    (bytes : (i : ℕ) → heap i < 256) (clock : IsWord now) (fits : length payload ≤ 0xFFEF)
    (is_bytes : IsBytes payload) where
  size_lem : u16 (16 + length payload) ≡ length payload + 16
  size_lem = omega arith

  new_packet-buffer :
      (new_packet heap now type (some payload) (length payload)).buffer
      ≡ some (take 16 (fresh heap (u16 (16 + length payload))) ++ payload)
  unfolding new_packet fill
  new_packet-buffer = ap some (copy_payload-fresh heap _ payload (sym size_lem))

  new_packet-IsValid : IsValid (new_packet heap now type (some payload) (length payload))
  unfolding new_packet
  new_packet-IsValid = record {
    has_header = omega arith;
    size_fits = omega arith;
    holds =
        subst (Holds (u16 (16 + length payload))) (sym new_packet-buffer)
          (IsBytes-header_append heap _ payload bytes (omega arith) (sym size_lem) is_bytes);
    stamped = clock;
  }

  new_packet-size :
      (new_packet heap now type (some payload) (length payload)).packet_size ≡ length payload + 16
  unfolding new_packet
  new_packet-size = size_lem

  new_packet-payload :
      drop 16 (sent (new_packet heap now type (some payload) (length payload)).buffer) ≡ payload
  new_packet-payload =
      ap (λ b. drop 16 (sent b)) new_packet-buffer
      ∙ drop-take_append 16 _ payload (omega (arith, length-fresh heap (u16 (16 + length payload))))

-- A known type and a payload of at most 0xFFEF bytes give a valid packet, and its bytes on the
-- wire are read back as the type, the size and the payload, whatever the fresh memory held.
-- The time is the clock's, not the argument's.
pub decode-construct :
    (heap : ℕ → ℕ) (now : Timestamp) (type : PacketType) (stamp : Timestamp) (payload : Bytes)
    → ((i : ℕ) → heap i < 256)
    → IsWord now
    → type ≢ unknown
    → length payload ≤ 0xFFEF
    → IsBytes payload
    → (p : PortAgentPacket) × (construct heap now type stamp (some payload) (length payload) ≡ ok p)
      × IsValid p
      × (decode (sent (packet p).buffer)
          ≡ some (record {
            sync = sync;
            type = type_code type;
            size = length payload + 16;
            checksum = (packet p).checksum;
            timestamp = now;
            payload = payload;
          }))
decode-construct heap now type stamp payload bytes clock known fits is_bytes =
    let p = new_packet heap now type (some payload) (length payload) in
    let v = new_packet-IsValid heap now type payload bytes clock fits is_bytes in
    (
      p,
      construct_known heap now type stamp (some payload) (length payload) known,
      v,
      decode-packet p v
          ∙ cc (
            new_packet-size heap now type payload bytes clock fits is_bytes,
            new_packet-payload heap now type payload bytes clock fits is_bytes,
            new_packet-type heap now type (some payload) (length payload),
            new_packet-timestamp heap now type (some payload) (length payload),
          ),
    )

-- With a known type every payload size of 16 bits is accepted; the packet's 16-bit size holds
-- the header exactly when the payload size is at most 0xFFEF, and wraps around otherwise.
pub construct_size :
    (heap : ℕ → ℕ) (now : Timestamp) (type : PacketType) (stamp : Timestamp)
    (payload : Option Bytes) (size : ℕ)
    → type ≢ unknown
    → size < 65536
    → (p : PortAgentPacket) × (construct heap now type stamp payload size ≡ ok p)
      × ((header_size ≤ p.packet_size) ↔ (size ≤ 0xFFEF))
      × (p.packet_size ≡ (size + 16) % 65536)
unfolding new_packet
construct_size heap now type stamp payload size known fits = (
  new_packet heap now type payload size,
  construct_known heap now type stamp payload size known,
  (λ h. omega arith, λ h. omega arith),
  omega arith,
)
