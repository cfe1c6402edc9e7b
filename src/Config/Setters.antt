-- ===== src/Config/Setters.antt =====
-- The set methods of PortAgentConfig: each gives its return value and the object afterwards.
-- Where the parameter is refused, most of them have already reset the member.
use port_agent.Prelude.{
  ℕ, Bool, true, false, ◌||◌, if◌then◌else◌, ltb, ◌==◌, Bytes, codes, bytes_eq, [], ◌∷◌, length,
  Option, none, some, ℤ, pos, negsuc,
}
use port_agent.Config.{
  PortAgentConfig, World, add_port, default_break_duration, obs_type_unknown, obs_type_standard,
  obs_type_multi, type_unknown, type_serial, type_tcp, type_botpt, type_rsn,
}
use port_agent.Config.Text.{atoi, first_char, next_token, get_until}

-- `value <= 0 || value > 65535` is refused.
unfoldable pub port_of : ℤ → Option ℕ
port_of (pos n) = if (n == 0) || ltb 65535 n then none else some n
port_of (negsuc n) = none

-- A port member is reset, and set if there is a port.
unfoldable pub take_port {ℓ} : {A : Type ℓ} → Option ℕ → (ℕ → A) → Bool × A
take_port none set_member = (false, set_member 0)
take_port (some port) set_member = (true, set_member port)

unfoldable pub set_observatory_data_port : Bytes → PortAgentConfig → Bool × PortAgentConfig
unfolding port_of take_port
set_observatory_data_port param c =
    take_port (port_of (atoi param)) (λ port. record c { observatory_data_port = port })

unfoldable pub set_observatory_command_port : Bytes → PortAgentConfig → Bool × PortAgentConfig
unfolding port_of take_port
set_observatory_command_port param c =
    take_port (port_of (atoi param)) (λ port. record c { observatory_command_port = port })

unfoldable pub set_instrument_data_port : Bytes → PortAgentConfig → Bool × PortAgentConfig
unfolding port_of take_port
set_instrument_data_port param c =
    take_port (port_of (atoi param)) (λ port. record c { instrument_data_port = port })

unfoldable pub set_instrument_data_tx_port : Bytes → PortAgentConfig → Bool × PortAgentConfig
unfolding port_of take_port
set_instrument_data_tx_port param c =
    take_port (port_of (atoi param)) (λ port. record c { instrument_data_tx_port = port })

unfoldable pub set_instrument_data_rx_port : Bytes → PortAgentConfig → Bool × PortAgentConfig
unfolding port_of take_port
set_instrument_data_rx_port param c =
    take_port (port_of (atoi param)) (λ port. record c { instrument_data_rx_port = port })

unfoldable pub set_instrument_command_port : Bytes → PortAgentConfig → Bool × PortAgentConfig
unfolding port_of take_port
set_instrument_command_port param c =
    take_port (port_of (atoi param)) (λ port. record c { instrument_command_port = port })

unfoldable pub set_telnet_sniffer_port : Bytes → PortAgentConfig → Bool × PortAgentConfig
unfolding port_of take_port
set_telnet_sniffer_port param c =
    take_port (port_of (atoi param)) (λ port. record c { telnet_sniffer_port = port })

-- addObservatoryDataPort: the member, then the container.
unfoldable pub register_port : Option ℕ → World → Bool × World
unfolding add_port
register_port none w =
    let c = w.config in (false, record w { config = record c { observatory_data_port = 0 } })
register_port (some port) w =
    let c = w.config in
    (
      true,
      record w {
        config = record c { observatory_data_port = port };
        data_ports = add_port port w.data_ports;
      },
    )

unfoldable pub add_observatory_data_port : Bytes → World → Bool × World
unfolding port_of register_port
add_observatory_data_port param w = register_port (port_of (atoi param)) w

-- setInstrumentBreakDuration: a negative duration becomes the default.
abbrev pub duration_of : ℤ → ℕ
duration_of (pos n) = n
duration_of (negsuc n) = default_break_duration

unfoldable pub set_instrument_break_duration : Bytes → PortAgentConfig → Bool × PortAgentConfig
set_instrument_break_duration param c = (
  true,
  record c {
    break_duration = if length param == 0 then default_break_duration else duration_of (atoi param);
  },
)

unfoldable pub set_instrument_connection_type : Bytes → PortAgentConfig → Bool × PortAgentConfig
set_instrument_connection_type param c =
    if bytes_eq param (codes "serial")
    then (true, record c { instrument_connection_type = type_serial })
    else if bytes_eq param (codes "tcp")
    then (true, record c { instrument_connection_type = type_tcp })
    else if bytes_eq param (codes "botpt")
    then (true, record c { instrument_connection_type = type_botpt })
    else if bytes_eq param (codes "rsn")
    then (true, record c { instrument_connection_type = type_rsn })
    else (false, record c { instrument_connection_type = type_unknown })

unfoldable pub set_observatory_connection_type : Bytes → PortAgentConfig → Bool × PortAgentConfig
set_observatory_connection_type param c =
    if bytes_eq param (codes "multi")
    then (true, record c { observatory_connection_type = obs_type_multi })
    else if bytes_eq param (codes "standard")
    then (true, record c { observatory_connection_type = obs_type_standard })
    else (false, record c { observatory_connection_type = obs_type_unknown })

-- setSentinleSequence, its loop: `\n` and `\r` stand for a character, any other backslash for
-- itself. It also ends at a NUL of the buffer.
abbrev pub escape : (c next : ℕ) → Option ℕ
escape c next =
    if c == 92 then if next == 110 then some 10 else if next == 114 then some 13 else none else none

unfoldable pub unescape : Bytes → Bytes
unescape [] = []
unescape (c ∷ []) = if c == 0 then [] else c ∷ []
unescape (c ∷ d ∷ s) =
    let rest = unescape (d ∷ s) in
    let after = unescape s in
    if c == 0 then [] else elim (escape c d) [ none ↦ c ∷ rest | some e ↦ e ∷ after ]

-- The text between the first two quotes, of at most 127 characters.
unfoldable pub set_sentinle_sequence : Bytes → PortAgentConfig → Bool × PortAgentConfig
unfolding unescape get_until next_token
set_sentinle_sequence command c =
    let (cmd, after_cmd) = next_token (some command) in
    let (front, quoted) = get_until 39 127 after_cmd in
    if first_char front == 0
    then (false, record c { sentinle_sequence = [] })
    else (let (buffer, rest) = get_until 39 127 quoted in
        (true, record c { sentinle_sequence = unescape buffer }))
