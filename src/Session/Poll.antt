-- ===== src/Session/Poll.antt =====
-- port_agent/port_agent.cxx: the handlers of states, buildFDSet and poll.
use port_agent.Prelude.{
  ◌==◌, if◌then◌else◌, Bytes, ℤ, ℕ, Bool, true, false, Option, none, some, List, [], ◌∷◌, ◌++◌,
}
use port_agent.Config.Commands.{logfile}
use port_agent.Network.{
  Kernel, CommError, unknown_state, memory_fault, process_exit, done, thrown, unfinished, M, ◌>>=◌,
  ◌>>◌, raise, this, is_set, when,
}
use port_agent.Network.TcpCommListener.{TcpCommListener, new_listener, listening, connected}
use port_agent.Connection.Observatory.{new_observatory}
use port_agent.Agent.{
  PortAgentState, state_unknown, state_startup, state_unconfigured, state_configured,
  state_connected, state_disconnected, Agent, leave_unconfigured, publish_heartbeat,
}
use port_agent.Session.{Session, on_agent, enter}
use port_agent.Session.Instruments.{initialize_instrument_connection}
use port_agent.Session.Observatories.{
  has_observatory, is_standard, is_multi, command_of, standard_of, initialize_observatory_command,
  initialize_observatory_data,
}
use port_agent.Session.Sinks.{sniffer_of, has_sniffer, initialize_publishers}
use port_agent.Session.Handlers.{
  fd_if, instrument_fd, handle_command_accept, handle_command_read, handle_data_accept,
  handle_data_read, handle_instrument_read, handle_common,
}

abbrev pub state_number : PortAgentState → ℕ
state_number state_unknown = 0
state_number state_startup = 1
state_number state_unconfigured = 2
state_number state_configured = 3
state_number state_connected = 4
state_number state_disconnected = 5

-- FD_SET, where there is a descriptor.
unfoldable pub add_fd : ℤ → List ℤ → List ℤ
add_fd fd l = if is_set fd then l ++ fd ∷ [] else l

unfoldable pub listener_fds : List TcpCommListener → List ℤ → List ℤ
unfolding add_fd
listener_fds [] fds = fds
listener_fds (l ∷ ls) fds = listener_fds ls (add_fd (fd_if (listening l) l.server_fd) fds)

unfoldable pub client_fds : List TcpCommListener → List ℤ → List ℤ
unfolding add_fd
client_fds [] fds = fds
client_fds (l ∷ ls) fds = client_fds ls (add_fd (fd_if (connected l) l.client_fd) fds)

-- The listeners of the data sockets.
unfoldable pub data_listeners_of : Session → List TcpCommListener
unfolding new_observatory
data_listeners_of s =
    if is_standard s.observatory
    then (let c = standard_of s.observatory in c.data_socket ∷ [])
    else if is_multi s.observatory
    then s.data_listeners
    else []

-- buildFDSet
unfoldable pub build_fd_set : Session → List ℤ
unfolding listener_fds client_fds data_listeners_of add_fd instrument_fd new_listener
build_fd_set s =
    let commands = if has_observatory s.observatory then command_of s.observatory ∷ [] else [] in
    let datas = data_listeners_of s in
    let sniffers = if has_sniffer s.sniffer then sniffer_of s.sniffer ∷ [] else [] in
    let f1 = client_fds commands (listener_fds commands []) in
    let f2 = client_fds datas (listener_fds datas f1) in
    let f3 = add_fd (instrument_fd s.instrument) f2 in
    client_fds sniffers (listener_fds sniffers f3)

-- What the catch of OOIException in poll does not end.
abbrev pub is_fatal : CommError → Bool
is_fatal unknown_state = true
is_fatal memory_fault = true
is_fatal process_exit = true
is_fatal _ = false

abbrev pub catch_ooi : M Session (Unit {0}) → M Session (Unit {0})
catch_ooi m s h = elim (m s h) [
  | done a s' h' ↦ done a s' h'
  | thrown e s' h' ↦ if is_fatal e then thrown e s' h' else done tt s' h'
  | unfinished ↦ unfinished
]

-- `if(getCurrentState() == state) handler`
abbrev pub in_state : PortAgentState → M Session (Unit {0}) → M Session (Unit {0})
in_state state handler = do
  s ← this
  let a = s.agent
  when (state_number a.state == state_number state) handler

module _ (k : Kernel) (junk : Bool) (memory version : Bytes) where
  unfoldable pub handle_state_unconfigured : (ready : List ℤ) → M Session (Unit {0})
  unfolding handle_command_accept handle_command_read handle_data_read leave_unconfigured
  handle_state_unconfigured ready = do
    handle_command_accept k junk memory version ready
    handle_command_read k junk memory version ready
    handle_data_read k junk memory version ready
    on_agent leave_unconfigured

  unfoldable pub handle_state_configured : M Session (Unit {0})
  unfolding initialize_observatory_command initialize_observatory_data
      initialize_instrument_connection initialize_publishers
  handle_state_configured = do
    initialize_observatory_command k
    initialize_observatory_data k
    initialize_instrument_connection k junk memory
    initialize_publishers k

  -- handleStateConnected and handleStateDisconnected, which do the same.
  unfoldable pub handle_state_connected : (ready : List ℤ) → M Session (Unit {0})
  unfolding handle_command_accept handle_data_accept handle_command_read handle_data_read
      handle_instrument_read
  handle_state_connected ready = do
    handle_command_accept k junk memory version ready
    handle_data_accept k junk memory version ready
    handle_command_read k junk memory version ready
    handle_data_read k junk memory version ready
    handle_instrument_read k junk memory version ready

  unfoldable pub open_log : Agent → Agent
  unfolding logfile
  open_log a = let w = a.world in record a { world = record w { log_file = logfile w.config } }

  unfoldable pub handle_state_startup : M Session (Unit {0})
  unfolding open_log initialize_observatory_command enter
  handle_state_startup = do
    on_agent open_log
    initialize_observatory_command k
    enter state_unconfigured

  -- The body of poll's try block.
  unfoldable pub dispatch : (ready : List ℤ) (time : ℕ) → M Session (Unit {0})
  unfolding handle_state_unconfigured handle_state_configured handle_state_connected
      handle_state_startup handle_common publish_heartbeat
  dispatch ready time = do
    in_state state_unconfigured (handle_state_unconfigured ready)
    in_state state_configured handle_state_configured
    in_state state_connected (handle_state_connected ready)
    in_state state_disconnected (handle_state_connected ready)
    in_state state_startup handle_state_startup
    in_state state_unknown (raise unknown_state)
    handle_common k junk memory version ready
    on_agent (publish_heartbeat time)

  -- poll. `select` gives the descriptors that are ready of those it is asked for, or fails;
  -- `time` is time(NULL).
  unfoldable pub poll : (select : List ℤ → Option (List ℤ)) (time : ℕ) → M Session (Unit {0})
  unfolding build_fd_set dispatch
  poll select time s h = elim (select (build_fd_set s)) [
    | none ↦ done tt s h
    | some ready ↦ catch_ooi (dispatch ready time) s h
  ]
