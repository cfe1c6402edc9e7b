-- ===== src/Packet/Checksum.antt =====
-- The checksum loop of a packet against the exclusive or of the bytes that it covers.
use port_agent.Prelude.{
  ℕ, suc, ◌≤◌, ◌<◌, ◌≡◌, sym, ◌∙◌, arith, bit_xor, bit_xor_assoc, bit_xor-zero, zero-bit_xor,
  bit_xor-lt_byte, Bytes, [], ◌∷◌, ◌++◌, All,
}
use port_agent.Packet.PortAgentPacket.{checksum_loop}

-- The exclusive or of a run of bytes.
unfoldable pub xor_all : Bytes → ℕ
xor_all [] = 0
xor_all (b ∷ bs) = bit_xor b (xor_all bs)

pub xor_all-append : (xs ys : Bytes) → xor_all (xs ++ ys) ≡ bit_xor (xor_all xs) (xor_all ys)
unfolding xor_all
xor_all-append [] ys = sym (zero-bit_xor _)
xor_all-append (x ∷ xs) ys = rw (xor_all-append xs ys) (sym (bit_xor_assoc x _ _))

pub xor_all-lt_byte : (xs : Bytes) → All (λ b. b < 256) xs → xor_all xs < 256
unfolding xor_all
xor_all-lt_byte [] h = omega arith
xor_all-lt_byte (x ∷ xs) h = bit_xor-lt_byte x _ h.0 (xor_all-lt_byte xs h.1)

-- Behind the checksum's own place the loop leaves nothing out.
pub checksum_loop_tail :
    (i : ℕ) (bs : Bytes) (acc : ℕ) → 8 ≤ i → checksum_loop i bs acc ≡ bit_xor acc (xor_all bs)
unfolding checksum_loop xor_all
checksum_loop_tail i [] acc h = sym (bit_xor-zero acc)
checksum_loop_tail i (b ∷ bs) acc h =
    ground (arith, checksum_loop_tail (suc i) bs (bit_xor acc b), bit_xor_assoc acc b (xor_all bs))

-- Over a whole packet the loop is the exclusive or of all bytes but the seventh and the eighth.
pub checksum_loop_lem :
    (a b c d e f g h : ℕ) (bs : Bytes)
    → checksum_loop 0 (a ∷ b ∷ c ∷ d ∷ e ∷ f ∷ g ∷ h ∷ bs) 0 ≡ xor_all (a ∷ b ∷ c ∷ d ∷ e ∷ f ∷ bs)
unfolding checksum_loop xor_all
checksum_loop_lem a b c d e f g h bs =
    checksum_loop_tail 8 bs _ (omega arith) ∙ simp (bit_xor_assoc, zero-bit_xor)
