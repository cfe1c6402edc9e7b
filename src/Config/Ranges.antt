-- ===== src/Config/Ranges.antt =====
-- The ranges that the set methods keep the numbers of a configuration in.
use port_agent.Prelude.{
  ℕ, ◌≤◌, ◌<◌, ◌≡◌, ◌⊎◌, inl, inr, sym, subst, arith, Option-cases, Bool, true, Bytes, [], ◌∷◌, ℤ,
  pos, negsuc, int_of_word,
}
use port_agent.Config.{PortAgentConfig}
use port_agent.Config.Text.{
  atoi, c_str, skip_spaces, read_signed, read_digits, positive_int, negative_int,
}
use port_agent.Config.Setters.{
  port_of, set_observatory_data_port, set_observatory_command_port, set_instrument_data_port,
  set_instrument_data_tx_port, set_instrument_data_rx_port, set_instrument_command_port,
  set_telnet_sniffer_port, set_instrument_break_duration, set_instrument_connection_type,
  set_observatory_connection_type, set_sentinle_sequence, take_port,
}
use port_agent.Config.Values.{
  is_baud, set_output_throttle, set_heartbeat_interval, set_max_packet_size, set_device_path,
  set_baud, set_stopbits, set_databits, set_parity, set_flow, set_rotation_interval,
}

-- A value of a 32-bit int.
abbrev pub IsInt : ℤ → Type 0
IsInt (pos n) = n < 2147483648
IsInt (negsuc n) = n < 2147483648

-- Every port is one of a 16-bit word, and the others are what their methods accept or reset to.
abbrev pub Ranges : PortAgentConfig → Type 0
Ranges c =
    (c.observatory_command_port < 65536)
    × (c.observatory_data_port < 65536)
    × (c.instrument_data_port < 65536)
    × (c.instrument_data_tx_port < 65536)
    × (c.instrument_data_rx_port < 65536)
    × (c.instrument_command_port < 65536)
    × (c.telnet_sniffer_port < 65536)
    × (c.heartbeat_interval < 65536)
    × (c.output_throttle < 2147483648)
    × (c.break_duration < 2147483648)
    × (0 < c.max_packet_size)
    × (c.max_packet_size ≤ 65472)
    × ((c.baud ≡ 0) ⊎ (is_baud c.baud ≡ true))
    × (1 ≤ c.stopbits)
    × (c.stopbits ≤ 2)
    × (5 ≤ c.databits)
    × (c.databits ≤ 8)
    × (c.parity ≤ 2)
    × (c.flow ≤ 2)

int_of_word-IsInt : (w : ℕ) → w < 4294967296 → IsInt (int_of_word w)
int_of_word-IsInt w h = ground arith

positive_int-IsInt : (n : ℕ) → IsInt (positive_int n)
positive_int-IsInt n = int_of_word-IsInt _ (omega arith)

negative_int-IsInt : (n : ℕ) → IsInt (negative_int n)
negative_int-IsInt n = int_of_word-IsInt _ (omega arith)

read_signed-IsInt : (s : Bytes) → IsInt (read_signed s)
unfolding read_signed
read_signed-IsInt [] = omega arith
read_signed-IsInt (c ∷ s) = ground (
  arith,
  negative_int-IsInt (read_digits 0 s),
  positive_int-IsInt (read_digits 0 s),
  positive_int-IsInt (read_digits 0 (c ∷ s)),
)

pub atoi-IsInt : (s : Bytes) → IsInt (atoi s)
unfolding atoi
atoi-IsInt s = read_signed-IsInt (skip_spaces (c_str s))

-- What a port member is set to: 0, or a port.
pub port_cases {ℓ κ} :
    {A : Type ℓ} (P : A → Type κ) (z : ℤ) (set_member : ℕ → A)
    → ((n : ℕ) → n < 65536 → P (set_member n))
    → P (take_port (port_of z) set_member).1
unfolding port_of take_port
port_cases P (negsuc n) set_member h = h 0 (omega arith)
port_cases P (pos n) set_member h = elim (Option-cases (port_of (pos n))) [
  | inl e ↦ subst (λ o. P (take_port o set_member).1) (sym e) (h 0 (omega arith))
  | inr (port, e) ↦ subst (λ o. P (take_port o set_member).1) (sym e) (h port (ground arith))
]

-- A method keeps the ranges and leaves the queue.
abbrev pub Keeps : (PortAgentConfig → Bool × PortAgentConfig) → Type 0
Keeps f = (c : PortAgentConfig) → Ranges c → Ranges (f c).1 × ((f c).1.commands ≡ c.commands)

module _ (p : Bytes) where
  pub set_observatory_data_port-Keeps : Keeps (set_observatory_data_port p)
  unfolding set_observatory_data_port
  set_observatory_data_port-Keeps c r =
      port_cases (λ d. Ranges d × (d.commands ≡ c.commands)) (atoi p)
        (λ n. record c { observatory_data_port = n }) (λ n h. ground arith)

  pub set_observatory_command_port-Keeps : Keeps (set_observatory_command_port p)
  unfolding set_observatory_command_port
  set_observatory_command_port-Keeps c r =
      port_cases (λ d. Ranges d × (d.commands ≡ c.commands)) (atoi p)
        (λ n. record c { observatory_command_port = n }) (λ n h. ground arith)

  pub set_instrument_data_port-Keeps : Keeps (set_instrument_data_port p)
  unfolding set_instrument_data_port
  set_instrument_data_port-Keeps c r =
      port_cases (λ d. Ranges d × (d.commands ≡ c.commands)) (atoi p)
        (λ n. record c { instrument_data_port = n }) (λ n h. ground arith)

  pub set_instrument_data_tx_port-Keeps : Keeps (set_instrument_data_tx_port p)
  unfolding set_instrument_data_tx_port
  set_instrument_data_tx_port-Keeps c r =
      port_cases (λ d. Ranges d × (d.commands ≡ c.commands)) (atoi p)
        (λ n. record c { instrument_data_tx_port = n }) (λ n h. ground arith)

  pub set_instrument_data_rx_port-Keeps : Keeps (set_instrument_data_rx_port p)
  unfolding set_instrument_data_rx_port
  set_instrument_data_rx_port-Keeps c r =
      port_cases (λ d. Ranges d × (d.commands ≡ c.commands)) (atoi p)
        (λ n. record c { instrument_data_rx_port = n }) (λ n h. ground arith)

  pub set_instrument_command_port-Keeps : Keeps (set_instrument_command_port p)
  unfolding set_instrument_command_port
  set_instrument_command_port-Keeps c r =
      port_cases (λ d. Ranges d × (d.commands ≡ c.commands)) (atoi p)
        (λ n. record c { instrument_command_port = n }) (λ n h. ground arith)

  pub set_telnet_sniffer_port-Keeps : Keeps (set_telnet_sniffer_port p)
  unfolding set_telnet_sniffer_port
  set_telnet_sniffer_port-Keeps c r =
      port_cases (λ d. Ranges d × (d.commands ≡ c.commands)) (atoi p)
        (λ n. record c { telnet_sniffer_port = n }) (λ n h. ground arith)

  pub set_instrument_break_duration-Keeps : Keeps (set_instrument_break_duration p)
  unfolding set_instrument_break_duration
  set_instrument_break_duration-Keeps c r = ground (arith, atoi-IsInt p)

  pub set_instrument_connection_type-Keeps : Keeps (set_instrument_connection_type p)
  unfolding set_instrument_connection_type
  set_instrument_connection_type-Keeps c r = ground arith

  pub set_observatory_connection_type-Keeps : Keeps (set_observatory_connection_type p)
  unfolding set_observatory_connection_type
  set_observatory_connection_type-Keeps c r = ground arith

  pub set_sentinle_sequence-Keeps : Keeps (set_sentinle_sequence p)
  unfolding set_sentinle_sequence
  set_sentinle_sequence-Keeps c r = ground arith

  pub set_output_throttle-Keeps : Keeps (set_output_throttle p)
  unfolding set_output_throttle
  set_output_throttle-Keeps c r = ground (arith, atoi-IsInt p)

  pub set_heartbeat_interval-Keeps : Keeps (set_heartbeat_interval p)
  unfolding set_heartbeat_interval
  set_heartbeat_interval-Keeps c r = ground (arith, atoi-IsInt p)

  pub set_max_packet_size-Keeps : Keeps (set_max_packet_size p)
  unfolding set_max_packet_size
  set_max_packet_size-Keeps c r = ground (arith, atoi-IsInt p)

  pub set_device_path-Keeps : Keeps (set_device_path p)
  unfolding set_device_path
  set_device_path-Keeps c r = ground arith

  pub set_baud-Keeps : Keeps (set_baud p)
  unfolding set_baud
  set_baud-Keeps c r = ground arith

  pub set_stopbits-Keeps : Keeps (set_stopbits p)
  unfolding set_stopbits
  set_stopbits-Keeps c r = ground arith

  pub set_databits-Keeps : Keeps (set_databits p)
  unfolding set_databits
  set_databits-Keeps c r = ground arith

  pub set_parity-Keeps : Keeps (set_parity p)
  unfolding set_parity
  set_parity-Keeps c r = ground arith

  pub set_flow-Keeps : Keeps (set_flow p)
  unfolding set_flow
  set_flow-Keeps c r = ground arith

  pub set_rotation_interval-Keeps : Keeps (set_rotation_interval p)
  unfolding set_rotation_interval
  set_rotation_interval-Keeps c r = ground arith
