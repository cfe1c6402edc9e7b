-- ===== src/Timestamp/Laws.antt =====
-- What a time stamp keeps of the system clock, and its bytes in network order.
use port_agent.Prelude.{ℕ, ◌+◌, ◌*◌, ◌/◌, ◌%◌, ◌<◌, ◌≡◌, arith, Bytes, [], ◌∷◌, u32, mem64, htonl}
use port_agent.Timestamp.{Timestamp, IsWord, set_time_tv, as_binary}

-- Whatever the clock says, both fields are words.
pub set_time_tv-IsWord : (s u : ℕ) → IsWord (set_time_tv s u)
unfolding set_time_tv
set_time_tv-IsWord s u = omega arith

-- The clock's seconds (below 2 ^ 32) and microseconds (below a million) come back from the stamp.
pub set_time_tv_roundtrip :
    (s u : ℕ)
    → s < 4294967296
    → u < 1000000
    → ((u32 ((set_time_tv s u).seconds + 2085978496)) ≡ s)
      × (((set_time_tv s u).fraction * 1000000 + 4294967294) / 4294967295 ≡ u)
unfolding set_time_tv
set_time_tv_roundtrip s u hs hu = (omega arith, omega arith)

-- The eight bytes that memcpy takes from a stamp's binary form.
abbrev pub wire : Timestamp → Bytes
wire t =
    (t.seconds / 16777216)
    ∷ (t.seconds / 65536 % 256)
    ∷ (t.seconds / 256 % 256)
    ∷ (t.seconds % 256)
    ∷ (t.fraction / 16777216)
    ∷ (t.fraction / 65536 % 256)
    ∷ (t.fraction / 256 % 256)
    ∷ (t.fraction % 256)
    ∷ []

pub mem64-as_binary : (t : Timestamp) → IsWord t → mem64 (as_binary t) ≡ wire t
unfolding as_binary htonl mem64
mem64-as_binary t w = ground arith
