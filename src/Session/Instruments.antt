-- ===== src/Session/Instruments.antt =====
-- port_agent/port_agent.cxx: initializeInstrumentConnection and its four branches.
use port_agent.Prelude.{
  ◌==◌, if◌then◌else◌, Bytes, length, set, bytes_eq, ℕ, ◌+◌, Bool, true, false, not, ◌&&◌, ◌||◌,
}
use port_agent.Config.{
  InstrumentConnectionType, type_unknown, type_serial, type_tcp, type_botpt, type_rsn,
  PortAgentConfig,
}
use port_agent.Network.{
  wait, Kernel, done, M, ◌>>=◌, ◌>>◌, give, this, modify, perform, of_member, catch_connect_failure,
  when,
}
use port_agent.Network.CommSocket.{CommSocket, new_socket, socket_connected, disconnect_socket}
use port_agent.Network.SerialCommSocket.{
  SerialCommSocket, new_serial, set_serial_path, set_serial_baud, set_serial_flow,
  set_serial_stop_bits, set_serial_data_bits, set_serial_parity, serial_connected,
  initialize_serial_settings, send_serial_break,
}
use port_agent.Connection.Instrument.{
  change_port, change_host, initialize_data_socket, InstrumentBotptConnection, new_botpt, on_tx,
  on_rx, botpt_connected, change_botpt_host, initialize_botpt, disconnect_botpt, initialize_serial,
}
use port_agent.Connection.Rsn.{
  InstrumentRsnConnection, new_rsn, on_rsn_data, on_rsn_command, initialize_rsn, send_rsn_break,
}
use port_agent.Config.Text.{decimal}
use port_agent.Agent.{state_connected, state_disconnected, Agent}
use port_agent.Session.{
  InstrumentLink, tcp_instrument, rsn_instrument, botpt_instrument, serial_instrument, Session,
  on_agent, config_of, with_config, enter, asks,
}

abbrev pub with_instrument : InstrumentLink → Session → Session
with_instrument l s =
    let a = s.agent in record s { agent = record a { has_instrument = true }; instrument = l }

-- The connection object of the type that is asked for: a new one where there is none, or where
-- the old one has another type and is deleted. No destructor of these closes anything.
abbrev pub tcp_of : InstrumentLink → CommSocket
tcp_of (tcp_instrument c) = c
tcp_of _ = new_socket

abbrev pub rsn_of : InstrumentLink → InstrumentRsnConnection
rsn_of (rsn_instrument c) = c
rsn_of _ = new_rsn

abbrev pub botpt_of : InstrumentLink → InstrumentBotptConnection
botpt_of (botpt_instrument c) = c
botpt_of _ = new_botpt

abbrev pub serial_of : (junk : Bool) → (path : Bytes) → InstrumentLink → SerialCommSocket
serial_of junk path (serial_instrument c) = c
serial_of junk path _ = set_serial_path path (new_serial junk)

abbrev pub on_tcp : {A : Type 0} → M CommSocket A → M Session A
on_tcp = of_member (λ s. tcp_of s.instrument) (λ c s. with_instrument (tcp_instrument c) s)

abbrev pub on_rsn : {A : Type 0} → M InstrumentRsnConnection A → M Session A
on_rsn = of_member (λ s. rsn_of s.instrument) (λ c s. with_instrument (rsn_instrument c) s)

abbrev pub on_botpt : {A : Type 0} → M InstrumentBotptConnection A → M Session A
on_botpt = of_member (λ s. botpt_of s.instrument) (λ c s. with_instrument (botpt_instrument c) s)

abbrev pub on_serial : {A : Type 0} → (junk : Bool) → M SerialCommSocket A → M Session A
on_serial junk =
    of_member (λ s. serial_of junk (config_of s).device_path s.instrument)
      (λ c s. with_instrument (serial_instrument c) s)

-- A round for each byte of the longest command to a digi and one more.
abbrev pub command_fuel : (duration : ℕ) → ℕ
command_fuel duration = 20 + length (decimal duration)

-- The setters of initializeSerialSettings.
unfoldable pub apply_serial_config : PortAgentConfig → SerialCommSocket → SerialCommSocket
unfolding set_serial_baud set_serial_flow set_serial_stop_bits set_serial_data_bits
    set_serial_parity
apply_serial_config c s = set_serial_parity c.parity (
    set_serial_data_bits c.databits
      (set_serial_stop_bits c.stopbits (set_serial_flow c.flow (set_serial_baud c.baud s))))

unfoldable pub clear_device_path_changed : Agent → Agent
clear_device_path_changed = with_config (λ c. record c { device_path_changed = false })

unfoldable pub clear_serial_settings_changed : Agent → Agent
clear_serial_settings_changed = with_config (λ c. record c { serial_settings_changed = false })

-- `junk` is the indeterminate member of a new serial socket, `memory` what a new buffer holds.
module _ (k : Kernel) (junk : Bool) (memory : Bytes) where
  -- What the three network connections do once they have their settings.
  unfoldable pub reconnect :
      (is_connected : Session → Bool) (attempt disconnect_all : M Session (Unit {0}))
      → M Session (Unit {0})
  unfolding enter
  reconnect is_connected attempt disconnect_all = do
    up ← asks is_connected
    when (not up)
        (do enter state_disconnected; catch_connect_failure attempt disconnect_all; perform k wait)
    up ← asks is_connected
    when up (enter state_connected)

  -- initializeTCPInstrumentConnection
  unfoldable pub initialize_tcp_instrument : M Session (Unit {0})
  unfolding reconnect change_host change_port disconnect_socket initialize_data_socket new_socket
  initialize_tcp_instrument = do
    on_tcp (give tt)
    s ← this
    let c = config_of s
    let t = tcp_of s.instrument
    when (not (bytes_eq t.hostname c.instrument_addr) || not (t.port == c.instrument_data_port)) (
        on_tcp (do
          disconnect_socket k
          change_host k c.instrument_addr
          change_port k c.instrument_data_port))
    reconnect (λ s. socket_connected (tcp_of s.instrument)) (on_tcp (initialize_data_socket k))
        (do on_tcp (disconnect_socket k); give tt)

  -- initializeRSNInstrumentConnection
  unfoldable pub initialize_rsn_instrument : M Session (Unit {0})
  unfolding reconnect change_host change_port disconnect_socket initialize_rsn new_rsn decimal
  initialize_rsn_instrument = do
    on_rsn (give tt)
    s ← this
    let c = config_of s
    let r = rsn_of s.instrument
    when
        (not (bytes_eq r.rsn_data.hostname c.instrument_addr)
          || (not (r.rsn_data.port == c.instrument_data_port)
              || not (r.rsn_command.port == c.instrument_command_port)))
        (on_rsn (do
          on_rsn_data (do
            disconnect_socket k
            change_host k c.instrument_addr
            change_port k c.instrument_data_port)
          on_rsn_command
              (do change_host k c.instrument_addr; change_port k c.instrument_command_port)))
    reconnect (λ s. let r = rsn_of s.instrument in socket_connected r.rsn_data)
        (on_rsn (initialize_rsn k memory (command_fuel 0)))
        (do on_rsn (on_rsn_data (disconnect_socket k)); give tt)

  -- initialize_BOTPT_InstrumentConnection
  unfoldable pub initialize_botpt_instrument : M Session (Unit {0})
  unfolding reconnect change_botpt_host change_port disconnect_botpt initialize_botpt new_botpt
  initialize_botpt_instrument = do
    on_botpt (give tt)
    s ← this
    let c = config_of s
    let b = botpt_of s.instrument
    when
        (not (bytes_eq b.rx.hostname c.instrument_addr)
          || (not (b.tx.port == c.instrument_data_tx_port)
              || not (b.rx.port == c.instrument_data_rx_port)))
        (on_botpt (do
          disconnect_botpt k
          change_botpt_host k c.instrument_addr
          on_tx (change_port k c.instrument_data_tx_port)
          on_rx (change_port k c.instrument_data_rx_port)))
    reconnect (λ s. botpt_connected (botpt_of s.instrument)) (on_botpt (initialize_botpt k))
        (do on_botpt (disconnect_botpt k); give tt)

  -- PortAgent::initializeSerialSettings
  unfoldable pub initialize_serial_line : M Session Bool
  unfolding apply_serial_config initialize_serial_settings
  initialize_serial_line = do
    s ← this
    on_serial junk (do modify (apply_serial_config (config_of s)); initialize_serial_settings k)

  -- initializeSerialInstrumentConnection
  unfoldable pub initialize_serial_instrument : M Session (Unit {0})
  unfolding initialize_serial_line initialize_serial clear_device_path_changed
      clear_serial_settings_changed enter
  initialize_serial_instrument = do
    on_serial junk (give tt)
    up ← on_serial junk (λ c h. done (serial_connected c) c h)
    s ← this
    when ((config_of s).device_path_changed || not up) (do
      on_serial junk (initialize_serial k)
      on_agent clear_device_path_changed
      set ← initialize_serial_line
      when set (on_agent clear_serial_settings_changed))
    up ← on_serial junk (λ c h. done (serial_connected c) c h)
    s ← this
    when ((config_of s).serial_settings_changed && up)
        (do initialize_serial_line; on_agent clear_serial_settings_changed)
    enter (if up then state_connected else state_disconnected)

  unfoldable pub initialize_by_type : InstrumentConnectionType → M Session (Unit {0})
  unfolding initialize_tcp_instrument initialize_rsn_instrument initialize_botpt_instrument
      initialize_serial_instrument
  initialize_by_type type_tcp = initialize_tcp_instrument
  initialize_by_type type_rsn = initialize_rsn_instrument
  initialize_by_type type_botpt = initialize_botpt_instrument
  initialize_by_type type_serial = initialize_serial_instrument
  initialize_by_type type_unknown = give tt

  -- initializeInstrumentConnection
  unfoldable pub initialize_instrument_connection : M Session (Unit {0})
  unfolding initialize_by_type
  initialize_instrument_connection = do
    s ← this
    initialize_by_type (config_of s).instrument_connection_type

  -- sendBreak of the connection: the base class does nothing.
  unfoldable pub send_break_on : InstrumentLink → (duration : ℕ) → M Session (Unit {0})
  unfolding send_rsn_break send_serial_break decimal
  send_break_on (rsn_instrument c) duration = do
    on_rsn (send_rsn_break k memory (command_fuel duration) duration)
    give tt
  send_break_on (serial_instrument c) duration = do
    on_serial junk (send_serial_break k duration)
    give tt
  send_break_on _ duration = give tt
