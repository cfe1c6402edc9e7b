-- ===== src/Packet/Buffered/Setters.antt =====
-- The setters of a buffered packet: what each leaves, and when it succeeds.
use port_agent.Prelude.{
  ltb, ◌==◌, Bytes, length, take, drop, length-take_of_le, ℕ, zero, suc, ◌+◌, ◌≤◌, ◌<◌, ◌≡◌, refl,
  sym, subst, ◌≢◌, ◌⊎◌, inl, inr, false, Option, none, some, [], ◌∷◌, arith,
}
use port_agent.Packet.{payload_of}
use port_agent.Packet.PortAgentPacket.{fresh, ok}
use port_agent.Packet.Build.{length-fresh}
use port_agent.Packet.Buffered.{
  Floats, Pointer, null, live, free_sentinle, BufferedSingleCharPacket, set_sentinle,
  set_quiescent_time, set_max_payload_size, reset_time,
}
use port_agent.Packet.Buffered.Matching.{Matched}
use port_agent.Packet.Buffered.Filling.{IsFilled}

-- The array that a caller passes has the size that it says.
abbrev pub Sized : Option Bytes → ℕ → Type 0
Sized none size = Unit
Sized (some sequence) size = (size ≤ length sequence) × (size < 65536)

drop_all : (k : ℕ) (l : Bytes) → length l ≤ k → drop k l ≡ []
drop_all zero [] h = refl
drop_all zero (x ∷ l) h = absurd (omega arith)
drop_all (suc k) [] h = refl
drop_all (suc k) (x ∷ l) h = drop_all k l (omega arith)

payload_fresh : (heap : ℕ → ℕ) (n : ℕ) → payload_of 16 (some (fresh heap (16 + n))) ≡ []
payload_fresh heap n = drop_all 16 (take 16 (fresh heap (16 + n))) (
    omega (
      arith,
      length-fresh heap (16 + n),
      length-take_of_le 16 (fresh heap (16 + n)) (omega (arith, length-fresh heap (16 + n))),
    ))

-- What the object owns of a sentinle.
abbrev pub Unmatched : Pointer → ℕ → ℕ → Type 0
Unmatched q size index = Matched q size index []

module _ (fl : Floats) where
  abbrev pub SameSentinle : BufferedSingleCharPacket fl → BufferedSingleCharPacket fl → Type 0
  SameSentinle b b' =
      (b'.sentinle ≡ b.sentinle)
      × (b'.sentinle_size ≡ b.sentinle_size)
      × (b'.sentinle_index ≡ b.sentinle_index)

  pub Unmatched-same :
      (b b' : BufferedSingleCharPacket fl)
      → SameSentinle b b'
      → Unmatched b.sentinle b.sentinle_size b.sentinle_index
      → Unmatched b'.sentinle b'.sentinle_size b'.sentinle_index
  Unmatched-same b b' (p, q, r) m =
      subst (λ x. Unmatched x b'.sentinle_size b'.sentinle_index) (sym p)
        (subst (λ x. Unmatched b.sentinle x b'.sentinle_index) (sym q)
          (subst (λ x. Unmatched b.sentinle b.sentinle_size x) (sym r) m))

  pub set_sentinle-Unmatched :
      (sequence : Option Bytes) (size : ℕ) (b b' : BufferedSingleCharPacket fl)
      → b.sentinle ≡ null
      → Sized sequence size
      → set_sentinle fl sequence size b ≡ ok b'
      → Unmatched b'.sentinle b'.sentinle_size b'.sentinle_index
  unfolding set_sentinle free_sentinle
  set_sentinle-Unmatched none size b b' e z h =
      let eq : b' ≡ record b { sentinle = null; sentinle_size = 0; sentinle_index = 0 } =
        ground arith in
      subst (λ x. Unmatched x.sentinle x.sentinle_size x.sentinle_index) (sym eq) refl
  set_sentinle-Unmatched (some s) size b b' e z h =
      let eq : (size ≢ 0)
          × (b' ≡ record b {
            sentinle = live (take size s);
            sentinle_size = size;
            sentinle_index = 0;
          }) =
        ground arith in
      subst (λ x. Unmatched x.sentinle x.sentinle_size x.sentinle_index) (sym eq.1)
        (length-take_of_le size s z.0, omega (arith, eq.0), z.1, omega arith, ([], refl))

  pub set_quiescent_time_same :
      (time : fl.Float) (b b' : BufferedSingleCharPacket fl)
      → set_quiescent_time fl time b ≡ ok b'
      → SameSentinle b b'
  unfolding set_quiescent_time
  set_quiescent_time_same time b b' h = ground arith

  pub set_max_payload_size_empty :
      (heap : ℕ → ℕ) (size : ℕ) (b b' : BufferedSingleCharPacket fl)
      → set_max_payload_size fl heap size b ≡ ok b'
      → Unmatched b.sentinle b.sentinle_size b.sentinle_index
      → IsFilled fl b' []
  unfolding set_max_payload_size
  set_max_payload_size_empty heap size b b' h m =
      let p = b.packet in
      let eq : (0 < size)
          × (size ≤ 0xFFEF)
          × (b' ≡ record b {
            max_payload_size = size;
            packet = record p { packet_size = 16; buffer = some (fresh heap (16 + size)) };
          }) =
        ground arith in
      subst (λ x. IsFilled fl x []) (sym eq.2)
        (record {
          size_exact = omega arith;
          max_pos = eq.0;
          within_max = omega arith;
          max_fits = eq.1;
          room = omega (arith, length-fresh heap (16 + size));
          content = payload_fresh heap size;
          matched = m;
        })

  pub reset_time-IsFilled :
      (b b' : BufferedSingleCharPacket fl)
      → ok (reset_time fl b) ≡ ok b'
      → IsFilled fl b []
      → IsFilled fl b' []
  unfolding reset_time
  reset_time-IsFilled b b' h f =
      let eq : b' ≡ reset_time fl b = cc in
      subst (λ x. IsFilled fl x []) (sym eq)
        (record {
          size_exact = f.size_exact;
          max_pos = f.max_pos;
          within_max = f.within_max;
          max_fits = f.max_fits;
          room = f.room;
          content = f.content;
          matched = f.matched;
        })

  -- What the setters ask of their arguments.
  pub record Accepted (sequence : Option Bytes) (size max : ℕ) (time : fl.Float) : Type 0 where
    pub sized : Sized sequence size
    pub some_size : (sequence ≡ none) ⊎ (size ≢ 0)
    pub not_negative : fl.is_negative time ≡ false
    pub max_pos : 0 < max
    pub max_fits : max ≤ 0xFFEF

  pub set_sentinle_total :
      (sequence : Option Bytes) (size : ℕ) (b : BufferedSingleCharPacket fl)
      → b.sentinle ≡ null
      → (sequence ≡ none) ⊎ (size ≢ 0)
      → (b' : BufferedSingleCharPacket fl) × (set_sentinle fl sequence size b ≡ ok b')
  unfolding set_sentinle free_sentinle
  set_sentinle_total none size b e h =
      (record b { sentinle = null; sentinle_size = 0; sentinle_index = 0 }, rw e refl)
  set_sentinle_total (some s) size b e (inl eq) = cc
  set_sentinle_total (some s) size b e (inr ne) =
      let z : (size == 0) ≡ false = ground arith in
      (
        record b { sentinle = live (take size s); sentinle_size = size; sentinle_index = 0 },
        rw (z, e) refl,
      )

  pub set_quiescent_time_total :
      (time : fl.Float) (b : BufferedSingleCharPacket fl)
      → fl.is_negative time ≡ false
      → (b' : BufferedSingleCharPacket fl) × (set_quiescent_time fl time b ≡ ok b')
  unfolding set_quiescent_time
  set_quiescent_time_total time b h = (record b { quiescent_time = time }, rw h refl)

  pub set_max_payload_size_total :
      (heap : ℕ → ℕ) (max : ℕ) (b : BufferedSingleCharPacket fl)
      → 0 < max
      → max ≤ 0xFFEF
      → (b' : BufferedSingleCharPacket fl) × (set_max_payload_size fl heap max b ≡ ok b')
  unfolding set_max_payload_size
  set_max_payload_size_total heap max b h k =
      let z : (max == 0) ≡ false = ground arith in
      let f : ltb 0xFFEF max ≡ false = ground arith in
      let p = b.packet in
      (
        record b {
          max_payload_size = max;
          packet = record p { packet_size = 16; buffer = some (fresh heap (16 + max)) };
        },
        rw (z, f) refl,
      )
