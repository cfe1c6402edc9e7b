-- ===== src/Scenarios/Packets.antt =====
-- A packet of three bytes, and a buffered packet with the sentinle "\r\n".
use port_agent.Prelude.{
  ℕ, ◌+◌, ◌*◌, ◌/◌, ◌%◌, ◌<◌, ◌≡◌, ◌⊎◌, ◌↔◌, inr, refl, arith, true, false, ltb, leb, ◌≤◌, mem16,
  mem64, htons, Bytes, codes, some, none, [], ◌∷◌, ◌++◌, length, u32,
}
use port_agent.Timestamp.{Timestamp, set_time_tv, as_binary}
use port_agent.Timestamp.Laws.{set_time_tv_roundtrip}
use port_agent.Packet.{sync, type_code, default_base, header_size}
use port_agent.Packet.{data_from_instrument, instrument_command}
use port_agent.Packet.PortAgentPacket.{
  PortAgentPacket, ok, err, packet_overflow, fresh, copy, assign, construct, packet, packet_with,
  write_header, calculate_checksum, checksum_loop,
}
use port_agent.Packet.Checksum.{xor_all}
use port_agent.Packet.Wire.{IsValid}
use port_agent.Packet.RoundTrip.{decode, sent, decode-packet, xor_all-packet}
use port_agent.Packet.Build.{decode-construct, construct_size}
use port_agent.Packet.Copy.{packet-copy, assign_cases}
use port_agent.Packet.Buffered.{
  Floats, live, BufferedSingleCharPacket, construct_buffered, copy_buffered, assign_buffered, add,
  ready_to_send,
}
use port_agent.Packet.Buffered.Filling.{IsFilled, add-IsFilled}
use port_agent.Packet.Buffered.Ready.{add_overflow, ready_to_send_sound}
use port_agent.Packet.Buffered.Settings.{construct_buffered-IsFilled, copy_buffered-IsFilled}

abbrev pub now : Timestamp
now = record { seconds = 3600; fraction = 7 }

abbrev hey : PortAgentPacket
hey = record {
  base = default_base;
  packet_type = instrument_command;
  packet_size = 19;
  checksum = 0;
  timestamp = now;
  buffer = some (9 ∷ 9 ∷ 9 ∷ 9 ∷ 9 ∷ 9 ∷ 9 ∷ 9 ∷ 9 ∷ 9 ∷ 9 ∷ 9 ∷ 9 ∷ 9 ∷ 9 ∷ 9 ∷ codes "hey");
}

hey-IsValid : IsValid hey
hey-IsValid = record {
  has_header = omega arith;
  size_fits = omega arith;
  holds = ground arith;
  stamped = omega arith;
}

hey-sent :
    sent (packet hey).buffer
    ≡ 0xA3 ∷ 0x9D ∷ 0x7A ∷ 7 ∷ 0 ∷ 19 ∷ 0 ∷ 0x3D ∷ 0 ∷ 0 ∷ 14 ∷ 16 ∷ 0 ∷ 0 ∷ 0 ∷ 7 ∷ codes "hey"
unfolding packet write_header packet_with calculate_checksum checksum_loop mem16 mem64 htons
    type_code as_binary
hey-sent = refl

abbrev pub zeros : ℕ → ℕ
zeros i = 0

zeros_fit : (i : ℕ) → zeros i < 256
zeros_fit i = omega arith

decode-packet_example :
    decode (sent (packet hey).buffer)
    ≡ some (record {
      sync = sync;
      type = type_code instrument_command;
      size = 19;
      checksum = (packet hey).checksum;
      timestamp = now;
      payload = codes "hey";
    })
decode-packet_example = decode-packet hey hey-IsValid

xor_all-packet_example : (xor_all (sent (packet hey).buffer) ≡ 0) × ((packet hey).checksum < 256)
xor_all-packet_example = xor_all-packet hey hey-IsValid

packet-copy_example :
    IsValid (copy zeros hey hey) × ((packet (copy zeros hey hey)).buffer ≡ (packet hey).buffer)
packet-copy_example = packet-copy zeros hey hey zeros_fit hey-IsValid

assign_cases_example :
    ((packet (assign zeros false hey hey)).buffer ≡ (packet hey).buffer)
    × (assign zeros true hey hey ≡ record hey { buffer = none })
assign_cases_example = assign_cases zeros hey hey zeros_fit hey-IsValid

decode-construct_example :
    (p : PortAgentPacket) × (construct zeros now data_from_instrument now (some (codes "hey")) 3
      ≡ ok p)
    × IsValid p
    × (decode (sent (packet p).buffer)
        ≡ some (record {
          sync = sync;
          type = type_code data_from_instrument;
          size = 19;
          checksum = (packet p).checksum;
          timestamp = now;
          payload = codes "hey";
        }))
decode-construct_example =
    decode-construct zeros now data_from_instrument now (codes "hey") zeros_fit (omega arith)
      (λ e. cc) (omega arith) (ground arith)

-- 65530 bytes of payload wrap the size to 10.
construct_size_example :
    (p : PortAgentPacket) × (construct zeros now data_from_instrument now none 65530 ≡ ok p)
    × ((header_size ≤ p.packet_size) ↔ (65530 ≤ 0xFFEF))
    × (p.packet_size ≡ 65546 % 65536)
construct_size_example =
    construct_size zeros now data_from_instrument now none 65530 (λ e. cc) (omega arith)

set_time_tv_roundtrip_example :
    (u32 ((set_time_tv 1394150400 250000).seconds + 2085978496) ≡ 1394150400)
    × (((set_time_tv 1394150400 250000).fraction * 1000000 + 4294967294) / 4294967295 ≡ 250000)
set_time_tv_roundtrip_example = set_time_tv_roundtrip 1394150400 250000 (omega arith) (omega arith)

-- Quiet times in whole seconds.
abbrev seconds : Floats
seconds = record {
  Float = ℕ;
  is_negative = λ x. false;
  is_nonzero = λ x. ltb 0 x;
  reached = λ to from x. leb (from.seconds + x) to.seconds;
}

-- The packet after "ok\r\n", its sentinle matched.
abbrev line : BufferedSingleCharPacket seconds
line = record {
  packet = record hey {
    packet_size = 20;
    buffer = some (fresh zeros 16 ++ (codes "ok" ++ (13 ∷ 10 ∷ 0 ∷ 0 ∷ [])));
  };
  sentinle = live (13 ∷ 10 ∷ []);
  sentinle_size = 2;
  sentinle_index = 2;
  quiescent_time = 0;
  last_add = now;
  max_payload_size = 6;
}

abbrev ok_line : Bytes
ok_line = codes "ok" ++ (13 ∷ 10 ∷ [])

line-IsFilled : IsFilled seconds line ok_line
unfolding fresh
line-IsFilled = record {
  size_exact = refl;
  max_pos = omega arith;
  within_max = omega arith;
  max_fits = omega arith;
  room = refl;
  content = refl;
  matched = (refl, omega arith, omega arith, omega arith, (codes "ok", refl));
}

line_ready : ready_to_send seconds now line ≡ true
unfolding ready_to_send
line_ready = refl

-- The same packet one character earlier.
abbrev part : BufferedSingleCharPacket seconds
part =
    let p = line.packet in
    record line { packet = record p { packet_size = 19 }; sentinle_index = 1 }

part-IsFilled : IsFilled seconds part (codes "ok" ++ (13 ∷ []))
unfolding fresh
part-IsFilled = record {
  size_exact = refl;
  max_pos = omega arith;
  within_max = omega arith;
  max_fits = omega arith;
  room = refl;
  content = refl;
  matched = (refl, omega arith, omega arith, omega arith, (codes "ok", refl));
}

part_waits : ready_to_send seconds now part ≡ false
unfolding ready_to_send
part_waits = refl

add-IsFilled_example :
    (b : BufferedSingleCharPacket seconds) × (add seconds 10 now part ≡ ok b)
    × IsFilled seconds b ok_line
add-IsFilled_example =
    add-IsFilled seconds 10 now now part (codes "ok" ++ (13 ∷ [])) part-IsFilled part_waits

add_overflow_example :
    (add seconds 10 now line ≡ err packet_overflow) ↔ (length ok_line ≡ line.max_payload_size)
add_overflow_example = add_overflow seconds 10 now line ok_line line-IsFilled

ready_to_send_sound_example :
    (0 < length ok_line)
    × ((length ok_line ≡ line.max_payload_size)
        ⊎ (((seconds.is_nonzero line.quiescent_time ≡ true)
              × (seconds.reached now line.last_add line.quiescent_time ≡ true))
            ⊎ ((s before : Bytes) × (line.sentinle ≡ live s) × (ok_line ≡ before ++ s))))
ready_to_send_sound_example = ready_to_send_sound seconds now line ok_line line-IsFilled line_ready

construct_buffered-IsFilled_example :
    (b : BufferedSingleCharPacket seconds) × (construct_buffered seconds zeros 0 now 0
        data_from_instrument 6 0
        (some (13 ∷ 10 ∷ []))
        2
      ≡ ok b)
    × IsFilled seconds b []
construct_buffered-IsFilled_example =
    construct_buffered-IsFilled seconds zeros 0 now 0 data_from_instrument 6 0 (some (13 ∷ 10 ∷ []))
      2 (λ e. cc)
      (record {
        sized = (omega arith, omega arith);
        some_size = inr (omega arith);
        not_negative = refl;
        max_pos = omega arith;
        max_fits = omega arith;
      })

copy_buffered-IsFilled_example :
    ((b : BufferedSingleCharPacket seconds) × (copy_buffered seconds zeros zeros part line ≡ ok b)
      × IsFilled seconds b [])
    × ((b : BufferedSingleCharPacket seconds) × (assign_buffered seconds zeros part line ≡ ok b)
        × IsFilled seconds b [])
copy_buffered-IsFilled_example =
    copy_buffered-IsFilled seconds zeros zeros part line ok_line line-IsFilled refl
