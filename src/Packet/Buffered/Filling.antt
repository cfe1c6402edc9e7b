-- ===== src/Packet/Buffered/Filling.antt =====
-- What a buffered packet holds while characters are added to it.
use port_agent.Prelude.{
  leb, Bytes, length, set, take, drop, length-append, take-set, length-set, length-take_of_le,
  drop-append, u16, ℕ, suc, ◌+◌, ◌≤◌, ◌<◌, ◌≡◌, refl, sym, ap, subst, ◌∙◌, ◌≢◌, ◌⊎◌, inl, inr,
  false, Option, none, some, [], ◌∷◌, ◌++◌, arith,
}
use port_agent.Timestamp.{Timestamp}
use port_agent.Packet.{payload_of}
use port_agent.Packet.PortAgentPacket.{ok}
use port_agent.Packet.Buffered.Matching.{Matched, match_sentinle_lem, Matched-less}
use port_agent.Packet.Buffered.{Floats, BufferedSingleCharPacket, store, add, ready_to_send}

-- The buffer has room for the greatest payload.
abbrev pub Room : (max : ℕ) → Option Bytes → Type 0
Room max none = ⊥
Room max (some buf) = length buf ≡ max + 16

-- The packet holds the characters `seen`.
pub record IsFilled (fl : Floats) (b : BufferedSingleCharPacket fl) (seen : Bytes) : Type 0 where
  pub size_exact : b.packet.packet_size ≡ length seen + 16
  pub max_pos : 0 < b.max_payload_size
  pub within_max : length seen ≤ b.max_payload_size
  pub max_fits : b.max_payload_size ≤ 0xFFEF
  pub room : Room b.max_payload_size b.packet.buffer
  pub content : payload_of b.packet.packet_size b.packet.buffer ≡ seen
  pub matched : Matched b.sentinle b.sentinle_size b.sentinle_index seen

payload-set :
    (size input : ℕ) (buf : Bytes)
    → 16 ≤ size
    → size < length buf
    → payload_of (suc size) (some (set buf size input)) ≡ payload_of size (some buf) ++ input ∷ []
payload-set size input buf h lt =
    ap (drop 16) (take-set size buf input lt)
    ∙ drop-append 16 (take size buf) (input ∷ [])
        (omega (arith, length-take_of_le size buf (omega arith)))

nil_of_length : (bs : Bytes) → length bs ≡ 0 → bs ≡ []
nil_of_length [] h = refl
nil_of_length (b ∷ bs) h = absurd (omega arith)

module _ (fl : Floats) where
  -- What the first half of add leaves.
  pub record Stored (b b' : BufferedSingleCharPacket fl) (seen : Bytes) : Type 0 where
    pub grown : b'.packet.packet_size ≡ length seen + 16
    pub same_max : b'.max_payload_size ≡ b.max_payload_size
    pub same_room : Room b'.max_payload_size b'.packet.buffer
    pub same_content : payload_of b'.packet.packet_size b'.packet.buffer ≡ seen
    pub same_sentinle : b'.sentinle ≡ b.sentinle
    pub same_size : b'.sentinle_size ≡ b.sentinle_size

  pub store_lem :
      (input : ℕ) (t : Timestamp) (b : BufferedSingleCharPacket fl) (o : Option Bytes)
      (seen : Bytes)
      → Room b.max_payload_size o
      → b.packet.packet_size ≡ length seen + 16
      → length seen < b.max_payload_size
      → b.max_payload_size ≤ 0xFFEF
      → payload_of b.packet.packet_size o ≡ seen
      → (b' : BufferedSingleCharPacket fl) × (store fl input t b o ≡ ok b')
        × Stored b b' (seen ++ input ∷ [])
  unfolding store
  store_lem input t b none seen room size lt max content = absurd room
  store_lem input t b (some buf) seen room size lt max content = (
    _,
    refl,
    record {
      grown = omega (arith, length-append seen (input ∷ []));
      same_max = refl;
      same_room = omega (arith, length-set b.packet.packet_size buf input);
      same_content =
          subst (λ n. payload_of n (some (set buf b.packet.packet_size input)) ≡ seen ++ input ∷ [])
            (next b.packet.packet_size (omega arith))
            (payload-set b.packet.packet_size input buf (omega arith) (omega arith)
              ∙ ap (λ l. l ++ input ∷ []) content);
      same_sentinle = refl;
      same_size = refl;
    },
  )
    where
      next : (n : ℕ) → n < 65535 → suc n ≡ u16 (n + 1)
      next n h = omega arith

  -- Neither full, nor at the end of the sentinle.
  pub record IsOpen (b : BufferedSingleCharPacket fl) (seen : Bytes) : Type 0 where
    pub space : length seen < b.max_payload_size
    pub unmatched : (b.sentinle_size ≡ 0) ⊎ (b.sentinle_index < b.sentinle_size)

  add_open :
      (input : ℕ) (t : Timestamp) (b : BufferedSingleCharPacket fl) (seen : Bytes)
      → IsFilled fl b seen
      → IsOpen b seen
      → (b' : BufferedSingleCharPacket fl) × (add fl input t b ≡ ok b')
        × IsFilled fl b' (seen ++ input ∷ [])
  unfolding add
  add_open input t b seen f o =
      let (b', stored, st) =
        store_lem input t b b.packet.buffer seen f.room f.size_exact o.space f.max_fits f.content in
      let (i, found, m) =
        match_sentinle_lem b.sentinle b.sentinle_size b.sentinle_index input seen f.matched
          o.unmatched in
      let full : leb (b.max_payload_size + 16) b.packet.packet_size ≡ false =
        ground (arith, f.size_exact, o.space) in
      (
        record b' { sentinle_index = i },
        rw (full, stored, found) refl,
        record {
          size_exact = st.grown;
          max_pos = omega (arith, st.same_max, f.max_pos);
          within_max = omega (arith, st.same_max, length-append seen (input ∷ []), o.space);
          max_fits = omega (arith, st.same_max, f.max_fits);
          room = st.same_room;
          content = st.same_content;
          matched =
              subst (λ (n : ℕ). Matched b'.sentinle n i (seen ++ input ∷ [])) (sym st.same_size)
                (subst (λ q. Matched q b.sentinle_size i (seen ++ input ∷ []))
                  (sym st.same_sentinle) m);
        },
      )

  pub not_ready :
      (now : Timestamp) (b : BufferedSingleCharPacket fl)
      → ready_to_send fl now b ≡ false
      → (b.packet.packet_size ≡ 16)
        ⊎ ((b.packet.packet_size < b.max_payload_size + 16)
            × ((b.sentinle_size ≡ 0) ⊎ (b.sentinle_index ≢ b.sentinle_size)))
  unfolding ready_to_send
  not_ready now b h = ground arith

  pub IsOpen-of_not_ready :
      (now : Timestamp) (b : BufferedSingleCharPacket fl) (seen : Bytes)
      → IsFilled fl b seen
      → ready_to_send fl now b ≡ false
      → IsOpen b seen
  IsOpen-of_not_ready now b seen f h = elim (not_ready now b h) [
    | inl empty ↦ record {
      space = omega (arith, f.size_exact, f.max_pos);
      unmatched =
          Matched-less b.sentinle b.sentinle_size b.sentinle_index seen f.matched
            (inl (nil_of_length seen (omega (arith, f.size_exact))));
    }
    | inr (space, rest) ↦ record {
      space = omega (arith, f.size_exact);
      unmatched =
          Matched-less b.sentinle b.sentinle_size b.sentinle_index seen f.matched (inr rest);
    }
  ]

  -- While a filled packet is not ready to send, one more character is always taken: add
  -- returns, and the packet holds the character behind the others, its buffer and its sentinle
  -- as consistent as before.
  pub add-IsFilled :
      (input : ℕ) (t now : Timestamp) (b : BufferedSingleCharPacket fl) (seen : Bytes)
      → IsFilled fl b seen
      → ready_to_send fl now b ≡ false
      → (b' : BufferedSingleCharPacket fl) × (add fl input t b ≡ ok b')
        × IsFilled fl b' (seen ++ input ∷ [])
  add-IsFilled input t now b seen f h =
      add_open input t b seen f (IsOpen-of_not_ready now b seen f h)
