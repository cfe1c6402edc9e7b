-- ===== src/Session/Handlers.antt =====
-- port_agent/port_agent.cxx: the handlers of connections. `ready` is what select left in the set
-- of descriptors.
use port_agent.Prelude.{
  ◌==◌, if◌then◌else◌, Bytes, length, ℤ, pos, ℕ, zero, suc, Bool, true, false, not, ◌&&◌, Option,
  none, some, List, [], ◌∷◌,
}
use port_agent.Packet.{data_from_instrument, data_from_rsn, data_from_driver, port_agent_command}
use port_agent.Config.{PortAgentCommand, cmd_break, command_code}
use port_agent.Network.{
  Kernel, socket_connect_failure, memory_fault, process_exit, done, thrown, unfinished, M, ◌>>=◌,
  ◌>>◌, give, raise, this, of_member, is_set, when,
}
use port_agent.Network.Hoare.{same_fd}
use port_agent.Network.TcpCommListener.{
  TcpCommListener, new_listener, listening, connected, accept_client, read_data,
}
use port_agent.Network.CommSocket.{socket_connected, read_socket}
use port_agent.Network.SerialCommSocket.{serial_connected}
use port_agent.Connection.Observatory.{for_each}
use port_agent.Connection.Instrument.{on_rx, botpt_connected}
use port_agent.Connection.Rsn.{on_rsn_data}
use port_agent.Agent.{
  Obeyed, goes_on, exits, Agent, obey, take_command, clear_commands, parse_commands,
  publish_payload,
}
use port_agent.Session.{
  InstrumentLink, no_instrument, tcp_instrument, rsn_instrument, botpt_instrument,
  serial_instrument, Session, on_agent, config_of,
}
use port_agent.Session.Instruments.{
  on_tcp, on_rsn, on_botpt, on_serial, initialize_instrument_connection, send_break_on,
}
use port_agent.Session.Observatories.{is_standard, is_multi, on_command_socket, on_data_socket}
use port_agent.Session.Sinks.{has_sniffer, on_sniffer}

-- FD_ISSET
unfoldable pub is_member : ℤ → List ℤ → Bool
is_member fd [] = false
is_member fd (x ∷ l) = let rest = is_member fd l in if same_fd x fd then true else rest

-- `fd && FD_ISSET(fd, &readFDs)`
unfoldable pub is_ready : List ℤ → ℤ → Bool
unfolding is_member
is_ready ready fd = is_set fd && is_member fd ready

abbrev pub is_break : PortAgentCommand → Bool
is_break cmd_break = true
is_break _ = false

-- A method of the agent alone that may be out of fuel.
abbrev pub on_agent_option : (Agent → Option Agent) → M Session (Unit {0})
on_agent_option f s h = elim (f s.agent) [
  | none ↦ unfinished
  | some a ↦ done tt (record s { agent = a }) h
]

-- What a command came to. exit() does not return.
abbrev pub on_obeyed : Obeyed → M Session (Unit {0})
on_obeyed (goes_on a) s h = done tt (record s { agent = a }) h
on_obeyed (exits a) s h = thrown process_exit (record s { agent = a }) h

-- The connection objects that readData may be called of, by their type.
abbrev pub link_code : InstrumentLink → ℕ
link_code no_instrument = 0
link_code (tcp_instrument c) = 1
link_code (rsn_instrument c) = 2
link_code (botpt_instrument c) = 3
link_code (serial_instrument c) = 4

-- `pConnection->connected()` of handleInstrumentDataRead
unfoldable pub data_link_connected : InstrumentLink → Bool
data_link_connected no_instrument = false
data_link_connected (tcp_instrument c) = socket_connected c
data_link_connected (rsn_instrument c) = socket_connected c.rsn_data
data_link_connected (botpt_instrument c) = socket_connected c.rx
data_link_connected (serial_instrument c) = serial_connected c

abbrev pub fd_if : Bool → ℤ → ℤ
fd_if b fd = if b then fd else pos 0

-- getInstrumentDataRxClientFD
unfoldable pub instrument_fd : InstrumentLink → ℤ
instrument_fd no_instrument = pos 0
instrument_fd (tcp_instrument c) = fd_if (socket_connected c) c.socket_fd
instrument_fd (rsn_instrument c) = let d = c.rsn_data in fd_if (socket_connected d) d.socket_fd
instrument_fd (botpt_instrument c) =
    let d = c.rx in fd_if (botpt_connected c && socket_connected d) d.socket_fd
instrument_fd (serial_instrument c) = let d = c.socket in fd_if (serial_connected c) d.socket_fd

module _ (k : Kernel) (junk : Bool) (memory version : Bytes) where
  -- One command of processPortAgentCommands.
  unfoldable pub obey_command_of : PortAgentCommand → M Session (Unit {0})
  unfolding send_break_on obey
  obey_command_of cmd = do
    s ← this
    if is_break cmd
        then send_break_on k junk memory s.instrument (config_of s).break_duration
        else on_obeyed (obey version cmd s.agent)

  -- processPortAgentCommands, on fuel.
  unfoldable pub process_commands : (fuel : ℕ) → M Session (Unit {0})
  unfolding take_command obey_command_of
  process_commands zero s h = unfinished
  process_commands (suc fuel) s h =
      let again : M Session (Unit {0}) = process_commands fuel in
      let (cmd, a) = take_command s.agent in
      (do
        on_agent (λ _. a)
        if command_code cmd == 0 then give tt else (do obey_command_of cmd; again))
        s h

  -- handlePortAgentCommand. Each loop has a round for every queued command and one more.
  unfoldable pub handle_commands : (text : Bytes) → M Session (Unit {0})
  unfolding clear_commands parse_commands process_commands
  handle_commands text = do
    on_agent_option (λ a. clear_commands (suc (length a.world.config.commands)) a)
    on_agent_option (parse_commands text)
    s ← this
    let c = config_of s
    process_commands (suc (length c.commands))

  -- handleTCPConnect
  unfoldable pub handle_tcp_connect : (persistent : Bool) → M TcpCommListener (Unit {0})
  unfolding accept_client
  handle_tcp_connect persistent = do
    accept_client k persistent
    l ← this
    when (not (connected l)) (raise socket_connect_failure)

  -- The two halves of a handler of one listener: to accept where its server is ready, and what a
  -- client sent where that is.
  unfoldable pub accept_ready : (ready : List ℤ) (persistent : Bool) → M TcpCommListener (Unit {0})
  unfolding handle_tcp_connect is_ready
  accept_ready ready persistent = do
    l ← this
    when (is_ready ready l.server_fd) (handle_tcp_connect persistent)

  unfoldable pub read_ready : (ready : List ℤ) → M TcpCommListener Bytes
  unfolding read_data is_ready
  read_ready ready = do l ← this; if is_ready ready l.client_fd then read_data k 1023 else give []

  -- handleObservatoryCommandAccept
  unfoldable pub handle_command_accept : (ready : List ℤ) → M Session (Unit {0})
  unfolding on_command_socket accept_ready
  handle_command_accept ready =
      on_command_socket (do l ← this; when (listening l) (accept_ready ready true))

  -- handleObservatoryCommandRead
  unfoldable pub handle_command_read : (ready : List ℤ) → M Session (Unit {0})
  unfolding on_command_socket read_ready handle_commands publish_payload
  handle_command_read ready = do
    bytes ← on_command_socket (read_ready ready)
    when (not (length bytes == 0))
        (do handle_commands bytes; on_agent (publish_payload bytes port_agent_command))

  abbrev pub on_data_listeners : M TcpCommListener (Unit {0}) → M Session (Unit {0})
  on_data_listeners m =
      of_member (λ s. s.data_listeners) (λ ls s. record s { data_listeners = ls }) (for_each m)

  -- handleObservatoryDataAccept and its two branches.
  unfoldable pub handle_data_accept : (ready : List ℤ) → M Session (Unit {0})
  unfolding on_data_socket accept_ready for_each
  handle_data_accept ready = do
    s ← this
    if is_standard s.observatory
        then on_data_socket (do l ← this; when (listening l) (accept_ready ready false))
        else if is_multi s.observatory
        then on_data_listeners (accept_ready ready false)
        else raise memory_fault

  -- handleObservatoryDataRead and its two branches. publishPacket has no case for
  -- DATA_FROM_DRIVER, so that nothing becomes of what the second reads.
  unfoldable pub handle_data_read : (ready : List ℤ) → M Session (Unit {0})
  unfolding on_data_socket read_ready publish_payload for_each
  handle_data_read ready = do
    s ← this
    if is_standard s.observatory
        then (do
          bytes ← on_data_socket (read_ready ready)
          when (not (length bytes == 0)) (on_agent (publish_payload bytes data_from_driver)))
        else if is_multi s.observatory
        then on_data_listeners (do read_ready ready; give tt)
        else raise memory_fault

  -- readData of the object that was found before the connection was initialized again.
  unfoldable pub read_link : (code : ℕ) → InstrumentLink → M Session Bytes
  unfolding read_socket
  read_link code no_instrument = raise memory_fault
  read_link code (tcp_instrument c) =
      if code == 1 then on_tcp (read_socket k 1023) else raise memory_fault
  read_link code (rsn_instrument c) =
      if code == 2 then on_rsn (on_rsn_data (read_socket k 1023)) else raise memory_fault
  read_link code (botpt_instrument c) =
      if code == 3 then on_botpt (on_rx (read_socket k 1023)) else raise memory_fault
  read_link code (serial_instrument c) =
      if code == 4
      then on_serial junk
          (of_member (λ d. d.socket) (λ t d. record d { socket = t }) (read_socket k 1023))
      else raise memory_fault

  abbrev pub is_rsn : InstrumentLink → Bool
  is_rsn (rsn_instrument c) = true
  is_rsn _ = false

  -- handleInstrumentDataRead
  unfoldable pub handle_instrument_read : (ready : List ℤ) → M Session (Unit {0})
  unfolding data_link_connected initialize_instrument_connection instrument_fd is_ready read_link
      publish_payload
  handle_instrument_read ready = do
    s ← this
    let code = link_code s.instrument
    when (code == 0) (raise memory_fault)
    when (not (data_link_connected s.instrument)) (initialize_instrument_connection k junk memory)
    s ← this
    when (is_ready ready (instrument_fd s.instrument)) (do
      bytes ← read_link code s.instrument
      s ← this
      when (not (length bytes == 0)) (
          on_agent (
            publish_payload bytes
              (if is_rsn s.instrument then data_from_rsn else data_from_instrument))))

  -- handleCommon: handleTelnetSnifferAccept and handleTelnetSnifferRead.
  unfoldable pub handle_common : (ready : List ℤ) → M Session (Unit {0})
  unfolding accept_ready read_ready new_listener
  handle_common ready = do
    s ← this
    when (has_sniffer s.sniffer)
        (do on_sniffer (accept_ready ready false); on_sniffer (read_ready ready); give tt)
