-- ===== src/Packet/Buffered/Settings.antt =====
-- The constructor, the copies and the assignment of a buffered packet.
use port_agent.Prelude.{
  ◌==◌, Bytes, ℕ, ◌≡◌, refl, ◌≢◌, ◌⊎◌, inl, inr, false, Option, none, [], arith,
}
use port_agent.Timestamp.{Timestamp}
use port_agent.Packet.{PacketType, unknown, type_code}
use port_agent.Packet.PortAgentPacket.{ok}
use port_agent.Packet.Build.{type_code-ne_zero}
use port_agent.Packet.Buffered.{
  Floats, Pointer, null, live, dangling, ◌>>=◌, empty_packet, array_of, BufferedSingleCharPacket,
  set_sentinle, set_quiescent_time, set_max_payload_size, reset_time, construct_buffered,
  take_settings, copy_buffered, assign_buffered,
}
use port_agent.Packet.Buffered.Matching.{Matched}
use port_agent.Packet.Buffered.Filling.{IsFilled}
use port_agent.Packet.Buffered.Setters.{
  Sized, Unmatched-same, set_sentinle-Unmatched, set_quiescent_time_same,
  set_max_payload_size_empty, reset_time-IsFilled, Accepted, set_sentinle_total,
  set_quiescent_time_total, set_max_payload_size_total,
}

module _ (fl : Floats) where
  -- With a known type and arguments that the setters accept, the constructor returns an empty
  -- packet that is ready to be filled.
  pub construct_buffered-IsFilled :
      (heap : ℕ → ℕ) (junk : ℕ) (now : Timestamp) (old : fl.Float) (type : PacketType) (max : ℕ)
      (time : fl.Float) (sequence : Option Bytes) (size : ℕ)
      → type ≢ unknown
      → Accepted fl sequence size max time
      → (b : BufferedSingleCharPacket fl) × (construct_buffered fl heap junk now old type max time
            sequence size
          ≡ ok b)
        × IsFilled fl b []
  unfolding construct_buffered
  construct_buffered-IsFilled heap junk now old type max time sequence size known a =
      let p = empty_packet junk now in
      let t : (type_code type == 0) ≡ false = ground (arith, type_code-ne_zero type known) in
      let (b1, h1) =
        set_sentinle_total fl sequence size
          (record {
            packet = record p { packet_type = type };
            sentinle = null;
            sentinle_size = junk;
            sentinle_index = junk;
            quiescent_time = old;
            last_add = now;
            max_payload_size = junk;
          })
          refl a.some_size in
      let (b2, h2) = set_quiescent_time_total fl time b1 a.not_negative in
      let (b3, h3) = set_max_payload_size_total fl heap max b2 a.max_pos a.max_fits in
      (
        reset_time fl b3,
        rw (t, h1, h2, h3) refl,
        reset_time-IsFilled fl b3 _ refl (
            set_max_payload_size_empty fl heap max b2 b3 h3 (
              Unmatched-same fl b1 b2 (set_quiescent_time_same fl time b1 b2 h2)
                (set_sentinle-Unmatched fl sequence size _ b1 refl a.sized h1))),
      )

  settings_total :
      (heap : ℕ → ℕ) (sequence : Option Bytes) (size : ℕ) (time : fl.Float) (max : ℕ)
      (b : BufferedSingleCharPacket fl)
      → b.sentinle ≡ null
      → Accepted fl sequence size max time
      → (b' : BufferedSingleCharPacket fl) × ((set_sentinle fl sequence size b >>= λ b1.
            set_quiescent_time fl time b1 >>= λ b2. set_max_payload_size fl heap max b2)
          ≡ ok b')
        × IsFilled fl b' []
  settings_total heap sequence size time max b e a =
      let (b1, h1) = set_sentinle_total fl sequence size b e a.some_size in
      let (b2, h2) = set_quiescent_time_total fl time b1 a.not_negative in
      let (b3, h3) = set_max_payload_size_total fl heap max b2 a.max_pos a.max_fits in
      (
        b3,
        rw (h1, h2, h3) refl,
        set_max_payload_size_empty fl heap max b2 b3 h3 (
            Unmatched-same fl b1 b2 (set_quiescent_time_same fl time b1 b2 h2)
              (set_sentinle-Unmatched fl sequence size b b1 e a.sized h1)),
      )

  array_of-Accepted :
      (q : Pointer) (size index : ℕ) (seen : Bytes)
      → Matched q size index seen
      → Sized (array_of q) size × ((array_of q ≡ none) ⊎ (size ≢ 0))
  array_of-Accepted null size index seen m = (tt, inl refl)
  array_of-Accepted dangling size index seen m = absurd m
  array_of-Accepted (live s) size index seen (full, some_bytes, word, le, ends) =
      ((omega arith, word), inr (omega arith))

  filled-Accepted :
      (b : BufferedSingleCharPacket fl) (seen : Bytes)
      → IsFilled fl b seen
      → fl.is_negative b.quiescent_time ≡ false
      → Accepted fl (array_of b.sentinle) b.sentinle_size b.max_payload_size b.quiescent_time
  filled-Accepted b seen f h =
      let (z, s) = array_of-Accepted b.sentinle b.sentinle_size b.sentinle_index seen f.matched in
      record {
        sized = z;
        some_size = s;
        not_negative = h;
        max_pos = f.max_pos;
        max_fits = f.max_fits;
      }

  -- Of a filled packet whose quiet time is not negative, the copy constructor and the
  -- assignment return a packet with none of its characters, and with its sentinle unmatched.
  pub copy_buffered-IsFilled :
      (heap heap' : ℕ → ℕ) (this rhs : BufferedSingleCharPacket fl) (seen : Bytes)
      → IsFilled fl rhs seen
      → fl.is_negative rhs.quiescent_time ≡ false
      → ((b : BufferedSingleCharPacket fl) × (copy_buffered fl heap heap' this rhs ≡ ok b)
          × IsFilled fl b [])
        × ((b : BufferedSingleCharPacket fl) × (assign_buffered fl heap' this rhs ≡ ok b)
            × IsFilled fl b [])
  unfolding copy_buffered assign_buffered take_settings
  copy_buffered-IsFilled heap heap' this rhs seen f h =
      let a = filled-Accepted rhs seen f h in
      (
        settings_total heap' _ _ _ rhs.max_payload_size _ refl a,
        settings_total heap' _ _ _ rhs.max_payload_size _ refl a,
      )
