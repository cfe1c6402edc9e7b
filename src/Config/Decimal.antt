-- ===== src/Config/Decimal.antt =====
-- A number printed in decimal is read back by atoi.
use port_agent.Prelude.{
  ℕ, zero, suc, ◌+◌, ◌-◌, ◌*◌, ◌/◌, ◌%◌, ◌≤◌, ◌<◌, ◌≡◌, inl, inr, refl, ap, ◌∙◌, arith, true, false,
  ◌==◌, ltb, Bool-cases, Bytes, [], ◌∷◌, ◌++◌, none, some, All, pos,
}
use port_agent.Config.{PortAgentConfig}
use port_agent.Config.Text.{
  atoi, c_str, skip_spaces, read_digits, read_signed, decimal, decimal_digits, is_digit, is_space,
  positive_int,
}
use port_agent.Config.Setters.{
  port_of, take_port, set_observatory_command_port, set_observatory_data_port,
  set_instrument_data_port, set_instrument_data_tx_port, set_instrument_data_rx_port,
  set_instrument_command_port, set_telnet_sniffer_port,
}

AreDigits : Bytes → Type 0
AreDigits = All (λ c. (48 ≤ c) × (c ≤ 57))

AreDigits-snoc : (s : Bytes) (c : ℕ) → AreDigits s → 48 ≤ c → c ≤ 57 → AreDigits (s ++ c ∷ [])
unfolding AreDigits
AreDigits-snoc [] c h lo hi = ((lo, hi), tt)
AreDigits-snoc (x ∷ s) c h lo hi = (h.0, AreDigits-snoc s c h.1 lo hi)

read_digits_snoc :
    (acc c : ℕ) (s : Bytes)
    → AreDigits s
    → 48 ≤ c
    → c ≤ 57
    → read_digits acc (s ++ c ∷ []) ≡ read_digits acc s * 10 + (c - 48)
unfolding read_digits AreDigits
read_digits_snoc acc c [] h lo hi = ground arith
read_digits_snoc acc c (x ∷ s) h lo hi =
    let d : is_digit x ≡ true = ground arith in
    rw d (read_digits_snoc (acc * 10 + (x - 48)) c s h.1 lo hi)

decimal_digits-AreDigits : (fuel n : ℕ) → n < fuel → AreDigits (decimal_digits fuel n)
unfolding decimal_digits
decimal_digits-AreDigits zero n h = absurd (omega arith)
decimal_digits-AreDigits (suc fuel) n h = elim (Bool-cases (ltb n 10)) [
  | inl e ↦ rw e (unfold AreDigits in ((omega arith, ground arith), tt))
  | inr e ↦ rw e (
      AreDigits-snoc _ _ (decimal_digits-AreDigits fuel (n / 10) (ground arith)) (omega arith)
        (omega arith))
]

read_digits-decimal : (fuel n : ℕ) → n < fuel → read_digits 0 (decimal_digits fuel n) ≡ n
unfolding decimal_digits
read_digits-decimal zero n h = absurd (omega arith)
read_digits-decimal (suc fuel) n h = elim (Bool-cases (ltb n 10)) [
  | inl e ↦ rw e (unfold read_digits in ground arith)
  | inr e ↦ rw e (
      omega (
        arith,
        read_digits_snoc 0 (48 + n % 10) (decimal_digits fuel (n / 10))
            (decimal_digits-AreDigits fuel (n / 10) (ground arith)) (omega arith) (omega arith),
        read_digits-decimal fuel (n / 10) (ground arith),
      ))
]

c_str-digits : (s : Bytes) → AreDigits s → c_str s ≡ s
unfolding c_str AreDigits
c_str-digits [] h = refl
c_str-digits (c ∷ s) h =
    let z : (c == 0) ≡ false = ground arith in rw z (ap (λ r. c ∷ r) (c_str-digits s h.1))

skip_spaces-digits : (s : Bytes) → AreDigits s → skip_spaces s ≡ s
unfolding skip_spaces AreDigits
skip_spaces-digits [] h = refl
skip_spaces-digits (c ∷ s) h = let z : is_space c ≡ false = ground arith in rw z refl

read_signed-digits : (s : Bytes) → AreDigits s → read_signed s ≡ positive_int (read_digits 0 s)
unfolding read_signed AreDigits
read_signed-digits [] h = unfold read_digits in refl
read_signed-digits (c ∷ s) h =
    let minus : (c == 45) ≡ false = ground arith in
    let plus : (c == 43) ≡ false = ground arith in rw (minus, plus) refl

positive_int_small : (n : ℕ) → n < 2147483648 → positive_int n ≡ pos n
positive_int_small n h = ground arith

pub atoi-decimal : (n : ℕ) → n < 2147483648 → atoi (decimal n) ≡ pos n
unfolding atoi decimal
atoi-decimal n h =
    let s = decimal_digits (suc n) n in
    let d = decimal_digits-AreDigits (suc n) n (omega arith) in
    ap read_signed (ap skip_spaces (c_str-digits s d) ∙ skip_spaces-digits s d)
    ∙ (read_signed-digits s d
        ∙ (ap positive_int (read_digits-decimal (suc n) n (omega arith)) ∙ positive_int_small n h))

port_of-decimal :
    (n : ℕ)
    → (0 < n → n < 65536 → port_of (atoi (decimal n)) ≡ some n)
      × (65536 ≤ n → n < 2147483648 → port_of (atoi (decimal n)) ≡ none)
unfolding port_of
port_of-decimal n = (
  λ lo hi. rw (atoi-decimal n (omega arith)) (ground arith),
  λ lo hi. rw (atoi-decimal n hi) (ground arith),
)

-- The method of each port takes every port that is printed in decimal.
pub ports-decimal :
    (n : ℕ) (c : PortAgentConfig)
    → 0 < n
    → n < 65536
    → (set_observatory_command_port (decimal n) c
        ≡ (true, record c { observatory_command_port = n }))
      × (set_observatory_data_port (decimal n) c ≡ (true, record c { observatory_data_port = n }))
      × (set_instrument_data_port (decimal n) c ≡ (true, record c { instrument_data_port = n }))
      × (set_instrument_data_tx_port (decimal n) c
          ≡ (true, record c { instrument_data_tx_port = n }))
      × (set_instrument_data_rx_port (decimal n) c
          ≡ (true, record c { instrument_data_rx_port = n }))
      × (set_instrument_command_port (decimal n) c
          ≡ (true, record c { instrument_command_port = n }))
      × (set_telnet_sniffer_port (decimal n) c ≡ (true, record c { telnet_sniffer_port = n }))
unfolding set_observatory_command_port set_observatory_data_port set_instrument_data_port
    set_instrument_data_tx_port set_instrument_data_rx_port set_instrument_command_port
    set_telnet_sniffer_port take_port
ports-decimal n c lo hi =
    rw ((port_of-decimal n).0 lo hi) (refl, refl, refl, refl, refl, refl, refl)
