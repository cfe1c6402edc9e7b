-- ===== src/Config/Configured.antt =====
-- port_agent/config/port_agent_config.cxx: isConfigured.
use port_agent.Prelude.{◌==◌, if◌then◌else◌, length, Bool, true, false, ◌||◌}
use port_agent.Config.{
  InstrumentConnectionType, type_unknown, type_serial, type_tcp, type_botpt, type_rsn,
  PortAgentConfig,
}

-- isConfigured, test by test.
abbrev pub is_type : InstrumentConnectionType → InstrumentConnectionType → Bool
is_type type_unknown type_unknown = true
is_type type_serial type_serial = true
is_type type_tcp type_tcp = true
is_type type_botpt type_botpt = true
is_type type_rsn type_rsn = true
is_type _ _ = false

abbrev pub missing : Bool → Bool → Bool
missing condition ready = if condition then false else ready

unfoldable pub is_configured : PortAgentConfig → Bool
is_configured c =
    let type = c.instrument_connection_type in
    let r1 = missing (is_type type type_unknown) true in
    let r2 = missing (c.observatory_command_port == 0) r1 in
    let r3 = missing (c.observatory_data_port == 0) r2 in
    let r4 =
      if is_type type type_tcp || is_type type type_rsn
      then missing (c.instrument_data_port == 0) (missing (length c.instrument_addr == 0) r3)
      else r3 in
    let r5 =
      if is_type type type_botpt
      then missing (c.instrument_data_rx_port == 0)
          (missing (c.instrument_data_tx_port == 0) (missing (length c.instrument_addr == 0) r4))
      else r4 in
    let r6 = if is_type type type_rsn then missing (c.instrument_command_port == 0) r5 else r5 in
    if is_type type type_serial then missing (c.baud == 0) r6 else r6
