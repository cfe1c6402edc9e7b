-- ===== src/Session/Observatories.antt =====
-- port_agent/port_agent.cxx: initializeObservatoryCommandConnection and the two kinds of
-- initializeObservatoryDataConnection.
use port_agent.Prelude.{◌==◌, if◌then◌else◌, ℕ, Bool, true, false, not, List, [], ◌∷◌}
use port_agent.Config.{
  ObservatoryConnectionType, obs_type_unknown, obs_type_standard, obs_type_multi,
}
use port_agent.Network.{
  Kernel, memory_fault, done, M, ◌>>=◌, ◌>>◌, give, raise, this, modify, of_member, when,
}
use port_agent.Network.TcpCommListener.{
  TcpCommListener, new_listener, set_port, listening, get_listen_port, initialize, disconnect,
}
use port_agent.Connection.Observatory.{
  ObservatoryConnection, new_observatory, on_data, set_listener_port, ObservatoryMultiConnection,
  is_data_initialized, initialize_data_sockets, add_listener,
}
use port_agent.Session.{
  ObservatoryLink, no_observatory, standard_observatory, multi_observatory, Session, config_of,
}

abbrev pub has_observatory : ObservatoryLink → Bool
has_observatory no_observatory = false
has_observatory _ = true

abbrev pub is_standard : ObservatoryLink → Bool
is_standard (standard_observatory c) = true
is_standard _ = false

abbrev pub is_multi : ObservatoryLink → Bool
is_multi (multi_observatory l) = true
is_multi _ = false

abbrev pub command_of : ObservatoryLink → TcpCommListener
command_of no_observatory = new_listener
command_of (standard_observatory c) = c.command_socket
command_of (multi_observatory l) = l

abbrev pub with_command : TcpCommListener → ObservatoryLink → ObservatoryLink
with_command l no_observatory = no_observatory
with_command l (standard_observatory c) = standard_observatory (record c { command_socket = l })
with_command l (multi_observatory old) = multi_observatory l

abbrev pub standard_of : ObservatoryLink → ObservatoryConnection
standard_of (standard_observatory c) = c
standard_of _ = new_observatory

abbrev pub with_observatory : ObservatoryLink → Session → Session
with_observatory o s = record s { observatory = o }

-- A method of commandConnectionObject(), through m_pObservatoryConnection, which may be NULL.
unfoldable pub on_command_socket : {A : Type 0} → M TcpCommListener A → M Session A
unfolding new_listener
on_command_socket m = do
  s ← this
  if has_observatory s.observatory
      then of_member (λ s. command_of s.observatory)
          (λ l s. with_observatory (with_command l s.observatory) s) m
      else raise memory_fault

-- A method of dataConnectionObject(), which is NULL but for the standard connection.
unfoldable pub on_data_socket : {A : Type 0} → M TcpCommListener A → M Session A
unfolding new_observatory
on_data_socket m = do
  s ← this
  if is_standard s.observatory
      then of_member (λ s. standard_of s.observatory)
          (λ c s. with_observatory (standard_observatory c) s) (on_data m)
      else raise memory_fault

abbrev pub on_multi : {A : Type 0} → M ObservatoryMultiConnection A → M Session A
on_multi =
    of_member
      (λ s. record {
        multi_command_socket = command_of s.observatory;
        data_sockets = s.data_listeners;
      })
      (λ c s. record s { data_listeners = c.data_sockets })

-- The type that is configured is not the other one's.
unfoldable pub is_other_type : ObservatoryConnectionType → ObservatoryLink → Bool
is_other_type obs_type_standard o = not (is_standard o)
is_other_type obs_type_multi o = not (is_multi o)
is_other_type obs_type_unknown o = false

unfoldable pub new_link : ObservatoryConnectionType → ObservatoryLink
unfolding new_observatory new_listener
new_link obs_type_standard = standard_observatory new_observatory
new_link obs_type_multi = multi_observatory new_listener
new_link obs_type_unknown = no_observatory

module _ (k : Kernel) where
  -- `delete m_pObservatoryConnection`: the listeners' destructors, the last member first.
  unfoldable pub delete_observatory : M Session (Unit {0})
  unfolding on_command_socket on_data_socket disconnect
  delete_observatory = do
    on_command_socket (disconnect k)
    s ← this
    when (is_standard s.observatory) (do on_data_socket (disconnect k); give tt)
    modify (with_observatory no_observatory)

  -- A listener that does not listen on the configured port is closed.
  unfoldable pub close_other_port : (port : ℕ) → M TcpCommListener (Unit {0})
  unfolding get_listen_port disconnect
  close_other_port port = do
    bound ← get_listen_port k
    when (not (bound == port)) (do disconnect k; give tt)

  -- The socket of a new connection is initialized.
  unfoldable pub start_command_socket : (port : ℕ) → M TcpCommListener (Unit {0})
  unfolding set_port initialize
  start_command_socket port = do
    modify (set_port port)
    l ← this
    when (not (listening l)) (do initialize k; give tt)

  -- initializeObservatoryCommandConnection
  unfoldable pub initialize_observatory_command : M Session (Unit {0})
  unfolding on_command_socket close_other_port is_other_type delete_observatory new_link
      start_command_socket
  initialize_observatory_command = do
    s ← this
    let c = config_of s
    let type = c.observatory_connection_type
    when (has_observatory s.observatory) (do
      on_command_socket (close_other_port c.observatory_command_port)
      when (is_other_type type s.observatory) delete_observatory)
    s ← this
    when (not (has_observatory s.observatory)) (do
      modify (with_observatory (new_link type))
      s ← this
      when (has_observatory s.observatory)
          (on_command_socket (start_command_socket c.observatory_command_port)))

  -- What initializeObservatoryStandardDataConnection does with the listener.
  unfoldable pub start_data_socket : (port : ℕ) → M TcpCommListener (Unit {0})
  unfolding set_listener_port initialize
  start_data_socket port = do
    set_listener_port k port
    l ← this
    when (not (listening l)) (do initialize k; give tt)

  -- initializeObservatoryStandardDataConnection
  unfoldable pub initialize_standard_data : M Session (Unit {0})
  unfolding on_data_socket close_other_port start_data_socket new_observatory
  initialize_standard_data = do
    s ← this
    let port = (config_of s).observatory_data_port
    if has_observatory s.observatory
        then on_data_socket (close_other_port port)
        else modify (with_observatory (standard_observatory new_observatory))
    on_data_socket (start_data_socket port)

  -- The walk over the configured ports, which ends at a port 0.
  unfoldable pub add_listeners : List ℕ → M ObservatoryMultiConnection (Unit {0})
  unfolding add_listener
  add_listeners [] c h = done tt c h
  add_listeners (port ∷ ports) c h =
      let rest : M ObservatoryMultiConnection (Unit {0}) = add_listeners ports in
      (if port == 0 then give tt else (do add_listener k port; rest)) c h

  -- initializeObservatoryMultiDataConnection
  unfoldable pub initialize_multi_data : M Session (Unit {0})
  unfolding add_listeners is_data_initialized initialize_data_sockets new_listener
  initialize_multi_data = do
    s ← this
    when (not (has_observatory s.observatory))
        (modify (with_observatory (multi_observatory new_listener)))
    on_multi (do
      add_listeners s.agent.world.data_ports.ports
      c ← this
      when (not (is_data_initialized c)) (initialize_data_sockets k))

  unfoldable pub initialize_data_of_type : ObservatoryConnectionType → M Session (Unit {0})
  unfolding initialize_standard_data initialize_multi_data
  initialize_data_of_type obs_type_standard = initialize_standard_data
  initialize_data_of_type obs_type_multi = initialize_multi_data
  initialize_data_of_type obs_type_unknown = give tt

  -- initializeObservatoryDataConnection
  unfoldable pub initialize_observatory_data : M Session (Unit {0})
  unfolding initialize_data_of_type
  initialize_observatory_data = do
    s ← this
    initialize_data_of_type (config_of s).observatory_connection_type
