-- ===== src/Packet/Buffered/Ready.antt =====
-- When a buffered packet is full, and when it is ready to send.
use port_agent.Prelude.{
  Bytes, length, take, take-length, ℕ, ◌+◌, ◌≤◌, ◌<◌, ◌≡◌, refl, ap, ◌∙◌, ◌≢◌, ◌↔◌, ◌⊎◌, inl, inr,
  true, ◌++◌, arith,
}
use port_agent.Timestamp.{Timestamp}
use port_agent.Packet.PortAgentPacket.{packet_overflow, err}
use port_agent.Packet.Buffered.{
  Floats, Pointer, null, live, dangling, match_sentinle, BufferedSingleCharPacket, add,
  ready_to_send,
}
use port_agent.Packet.Buffered.Matching.{Matched}
use port_agent.Packet.Buffered.Filling.{IsFilled, store_lem}

match_sentinle-ne_overflow :
    (input index : ℕ) (q : Pointer) → match_sentinle input index q ≢ err packet_overflow
unfolding match_sentinle
match_sentinle-ne_overflow input index null = λ e. cc
match_sentinle-ne_overflow input index dangling = λ e. cc
match_sentinle-ne_overflow input index (live s) = λ e. ground arith

Matched-end :
    (q : Pointer) (size index : ℕ) (seen : Bytes)
    → Matched q size index seen
    → size ≢ 0
    → index ≡ size
    → (s before : Bytes) × (q ≡ live s) × (seen ≡ before ++ s)
Matched-end null size index seen m some_size e = absurd (some_size m)
Matched-end dangling size index seen m some_size e = absurd m
Matched-end (live s) size index seen (full, some_bytes, word, le, (before, ends)) some_size e =
    (s, before, refl, ends ∙ ap (λ l. before ++ l) (whole index s (omega arith)))
  where
    whole : (n : ℕ) (l : Bytes) → n ≡ length l → take n l ≡ l
    whole n l h = rw h (take-length l)

module _ (fl : Floats) where
  add_short :
      (input : ℕ) (t : Timestamp) (b : BufferedSingleCharPacket fl) (seen : Bytes)
      → IsFilled fl b seen
      → length seen < b.max_payload_size
      → add fl input t b ≢ err packet_overflow
  unfolding add
  add_short input t b seen f lt e =
      let (b', stored, st) =
        store_lem fl input t b b.packet.buffer seen f.room f.size_exact lt f.max_fits f.content in
      ground
        (arith, stored, f.size_exact, match_sentinle-ne_overflow input b.sentinle_index b.sentinle)

  -- A filled packet raises an overflow exactly when its payload has the greatest size.
  pub add_overflow :
      (input : ℕ) (t : Timestamp) (b : BufferedSingleCharPacket fl) (seen : Bytes)
      → IsFilled fl b seen
      → (add fl input t b ≡ err packet_overflow) ↔ (length seen ≡ b.max_payload_size)
  unfolding add
  add_overflow input t b seen f = (
    λ e. ground (arith, add_short input t b seen f, f.within_max),
    λ e. ground (arith, f.size_exact),
  )

  triggers :
      (now : Timestamp) (b : BufferedSingleCharPacket fl)
      → ready_to_send fl now b ≡ true
      → (b.packet.packet_size ≢ 16)
        × ((b.max_payload_size + 16 ≤ b.packet.packet_size)
            ⊎ (((fl.is_nonzero b.quiescent_time ≡ true)
                  × (fl.reached now b.last_add b.quiescent_time ≡ true))
                ⊎ ((b.sentinle_size ≢ 0) × (b.sentinle_index ≡ b.sentinle_size))))
  unfolding ready_to_send
  triggers now b h = ground arith

  -- A packet is ready only if it holds characters, and only for one of the three triggers: it is
  -- full, a quiet time is set and over, or its last characters are the sentinle.
  pub ready_to_send_sound :
      (now : Timestamp) (b : BufferedSingleCharPacket fl) (seen : Bytes)
      → IsFilled fl b seen
      → ready_to_send fl now b ≡ true
      → (0 < length seen)
        × ((length seen ≡ b.max_payload_size)
            ⊎ (((fl.is_nonzero b.quiescent_time ≡ true)
                  × (fl.reached now b.last_add b.quiescent_time ≡ true))
                ⊎ ((s before : Bytes) × (b.sentinle ≡ live s) × (seen ≡ before ++ s))))
  ready_to_send_sound now b seen f h =
      let (held, why) = triggers now b h in
      (
        omega (arith, f.size_exact),
        elim why [
          | inl full ↦ inl (omega (arith, f.size_exact, f.within_max))
          | inr (inl quiet) ↦ inr (inl quiet)
          | inr (inr (some_size, at_end)) ↦
              inr (inr (Matched-end b.sentinle _ _ seen f.matched some_size at_end))
        ],
      )
