-- ===== src/Config/Readiness.antt =====
-- What isConfigured asks for.
use port_agent.Prelude.{length, ◌≡◌, refl, ◌≢◌, ◌↔◌, true, arith}
use port_agent.Config.Configured.{is_configured}
use port_agent.Config.{
  InstrumentConnectionType, type_unknown, type_serial, type_tcp, type_botpt, type_rsn,
  PortAgentConfig,
}

-- The settings that a connection of each type needs.
abbrev pub Needs : InstrumentConnectionType → PortAgentConfig → Type 0
Needs type_unknown c = ⊥
Needs type_serial c = c.baud ≢ 0
Needs type_tcp c = (length c.instrument_addr ≢ 0) × (c.instrument_data_port ≢ 0)
Needs type_botpt c =
    (length c.instrument_addr ≢ 0)
    × (c.instrument_data_tx_port ≢ 0)
    × (c.instrument_data_rx_port ≢ 0)
Needs type_rsn c =
    (length c.instrument_addr ≢ 0) × (c.instrument_data_port ≢ 0) × (c.instrument_command_port ≢ 0)

configured_of :
    (t : InstrumentConnectionType) (c : PortAgentConfig)
    → c.instrument_connection_type ≡ t
    → (is_configured c ≡ true)
      ↔ ((c.observatory_command_port ≢ 0) × (c.observatory_data_port ≢ 0) × Needs t c)
unfolding is_configured
configured_of type_unknown c e = rw e (ground arith)
configured_of type_serial c e = rw e (ground arith)
configured_of type_tcp c e = rw e (ground arith)
configured_of type_botpt c e = rw e (ground arith)
configured_of type_rsn c e = rw e (ground arith)

-- The agent is configured exactly when both observatory ports are set, and what its type of
-- instrument connection needs.
pub is_configured_iff :
    (c : PortAgentConfig)
    → (is_configured c ≡ true) ↔ (
        (c.observatory_command_port ≢ 0)
        × (c.observatory_data_port ≢ 0)
        × Needs c.instrument_connection_type c)
is_configured_iff c = configured_of c.instrument_connection_type c refl
