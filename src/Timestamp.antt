-- ===== src/Timestamp.antt =====
-- common/timestamp.cxx: a 64-bit NTP time stamp, seconds since 1900 and a binary fraction.
pub mod Laws
use port_agent.Prelude.{ℕ, ◌+◌, ◌*◌, ◌/◌, ◌<◌, u32, htonl}

pub record Timestamp : Type 0 where
  pub seconds : ℕ  -- uint32_t
  pub fraction : ℕ  -- uint32_t

-- Both fields are 32-bit words.
pub record IsWord (t : Timestamp) : Type 0 where
  pub seconds_fit : t.seconds < 4294967296
  pub fraction_fit : t.fraction < 4294967296

-- Seconds between 1900 and 1970, and the scale of a fraction.
abbrev pub epoch : ℕ
epoch = 2208988800

abbrev pub ntp_scale_frac : ℕ
ntp_scale_frac = 4294967295

-- Timestamp(seconds, fraction), and the public setTime.
unfoldable pub set_time : ℕ → ℕ → Timestamp
set_time seconds fraction = record { seconds = u32 seconds; fraction = u32 fraction }

-- setTime(struct timeval *tv): both products fit the 64-bit arithmetic of the source.
unfoldable pub set_time_tv : (tv_sec tv_usec : ℕ) → Timestamp
set_time_tv tv_sec tv_usec = record {
  seconds = u32 (u32 tv_sec + epoch);
  fraction = u32 (ntp_scale_frac * tv_usec / 1000000);
}

-- `fraction << 32 | seconds` after each half is put in network order: the low 32 bits of the
-- shifted half are zero, so `|` adds.
unfoldable pub as_binary : Timestamp → ℕ
as_binary t = htonl t.fraction * 4294967296 + htonl t.seconds
