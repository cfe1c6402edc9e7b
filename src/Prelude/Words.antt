-- ===== src/Prelude/Words.antt =====
-- Machine words: wrap-around, network byte order, and the memory image of a word on a
-- little-endian host. htons and htonl are those of the C library on such a host.
use Prim.Native.Nat.{ℕ, ◌+◌, ◌*◌, ◌/◌, ◌%◌}
use mathlib.Core.List.{[], ◌∷◌}
use port_agent.Prelude.Sequences.{Bytes}

abbrev pub u16 : ℕ → ℕ
u16 n = n % 65536

abbrev pub u32 : ℕ → ℕ
u32 n = n % 4294967296

-- The bytes of a `uint16_t`, a `uint32_t` and a `uint64_t` in memory, lowest address first.
unfoldable pub mem16 : ℕ → Bytes
mem16 x = (x % 256) ∷ (x / 256 % 256) ∷ []

unfoldable pub mem32 : ℕ → Bytes
mem32 x = (x % 256) ∷ (x / 256 % 256) ∷ (x / 65536 % 256) ∷ (x / 16777216 % 256) ∷ []

unfoldable pub mem64 : ℕ → Bytes
mem64 x =
    (x % 256)
    ∷ (x / 256 % 256)
    ∷ (x / 65536 % 256)
    ∷ (x / 16777216 % 256)
    ∷ (x / 4294967296 % 256)
    ∷ (x / 1099511627776 % 256)
    ∷ (x / 281474976710656 % 256)
    ∷ (x / 72057594037927936 % 256)
    ∷ []

unfoldable pub htons : ℕ → ℕ
htons x = x % 256 * 256 + x / 256 % 256

unfoldable pub htonl : ℕ → ℕ
htonl x = x % 256 * 16777216 + x / 256 % 256 * 65536 + x / 65536 % 256 * 256 + x / 16777216 % 256

-- A big-endian reader, for the specification of the wire.
abbrev pub be16 : ℕ → ℕ → ℕ
be16 a b = a * 256 + b

abbrev pub be32 : ℕ → ℕ → ℕ → ℕ → ℕ
be32 a b c d = a * 16777216 + b * 65536 + c * 256 + d
