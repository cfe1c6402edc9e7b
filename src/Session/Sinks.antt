-- ===== src/Session/Sinks.antt =====
-- port_agent/port_agent.cxx: initializePublishers. A publisher keeps what its communication
-- object was when the publisher was made; the source keeps a pointer to the object.
use port_agent.Prelude.{
  ◌==◌, if◌then◌else◌, Bytes, codes, Bool, true, false, not, Option, none, some, List, [], ◌∷◌,
  ◌++◌,
}
use port_agent.Config.{daily, PortAgentConfig}
use port_agent.Config.Text.{decimal}
use port_agent.Publisher.{
  PublisherType, publisher_driver_command, publisher_driver_data, publisher_instrument_command,
  publisher_instrument_data, publisher_file, publisher_telnet_sniffer, CommBase, tcp_comm_listener,
  tcp_comm_socket, serial_comm_socket, LogFile, Publisher,
}
use port_agent.Publisher.PublisherList.{add}
use port_agent.Network.{
  Kernel, M, ◌>>=◌, ◌>>◌, give, this, modify, of_member, catch_connect_failure, when,
}
use port_agent.Network.TcpCommListener.{
  TcpCommListener, new_listener, set_port, initialize, disconnect,
}
use port_agent.Network.CommSocket.{CommSocket}
use port_agent.Agent.{Agent}
use port_agent.Session.{
  InstrumentLink, no_instrument, tcp_instrument, rsn_instrument, botpt_instrument,
  serial_instrument, ObservatoryLink, no_observatory, standard_observatory, multi_observatory,
  Session, on_agent, config_of,
}
use port_agent.Session.Observatories.{has_observatory, command_of}

-- LogFile(base, extention, DAILY), with the members that its equality reads.
unfoldable pub new_log_file : (base extention : Bytes) → LogFile
new_log_file base extention = record {
  file_name = [];
  file_base = base;
  file_extention = extention;
  rotation = daily;
}

-- A new publisher of a class, on a communication object if it has one.
unfoldable pub new_publisher : PublisherType → Option CommBase → Publisher
unfolding new_log_file
new_publisher type comm = record {
  publisher_type = type;
  ascii_out = false;
  error = none;
  comm_socket = comm;
  file_pointer = none;
  log_file = new_log_file [] [];
  prefix = [];
  suffix = [];
}

-- m_oPublishers.add. The types that the agent adds are known to it.
unfoldable pub add_to_list : Publisher → Agent → Agent
unfolding add
add_to_list p a = record a { publishers = (add p a.publishers).1 }

-- datafile()
unfoldable pub datafile : PortAgentConfig → Bytes
unfolding decimal
datafile c = c.logdir ++ (codes "/port_agent_" ++ decimal c.observatory_command_port)

-- initializePublisherFile; datafile() is never empty.
unfoldable pub initialize_publisher_file : Agent → Agent
unfolding datafile new_publisher new_log_file add_to_list
initialize_publisher_file a =
    let p = new_publisher publisher_file none in
    add_to_list (record p { log_file = new_log_file (datafile a.world.config) (codes "data") }) a

abbrev pub listener_comm : TcpCommListener → CommBase
listener_comm l = tcp_comm_listener l.port

abbrev pub socket_comm : CommSocket → CommBase
socket_comm s = tcp_comm_socket s.hostname s.port

-- A publisher for each data socket.
unfoldable pub add_data_publishers : List TcpCommListener → Agent → Agent
unfolding add_to_list new_publisher
add_data_publishers [] a = a
add_data_publishers (l ∷ ls) a =
    add_data_publishers ls
      (add_to_list (new_publisher publisher_driver_data (some (listener_comm l))) a)

-- initializePublisherObservatoryData and its two branches.
unfoldable pub initialize_publisher_observatory_data :
    ObservatoryLink → List TcpCommListener → Agent → Agent
unfolding add_to_list new_publisher add_data_publishers
initialize_publisher_observatory_data no_observatory ls a = a
initialize_publisher_observatory_data (standard_observatory c) ls a =
    add_to_list (new_publisher publisher_driver_data (some (listener_comm c.data_socket))) a
initialize_publisher_observatory_data (multi_observatory l) ls a = add_data_publishers ls a

unfoldable pub initialize_publisher_observatory_command : ObservatoryLink → Agent → Agent
unfolding add_to_list new_publisher
initialize_publisher_observatory_command o a =
    if has_observatory o
    then add_to_list (new_publisher publisher_driver_command (some (listener_comm (command_of o))))
        a
    else a

-- The data connection of initializePublisherInstrumentData.
unfoldable pub data_comm : InstrumentLink → Option CommBase
data_comm no_instrument = none
data_comm (tcp_instrument c) = some (socket_comm c)
data_comm (rsn_instrument c) = some (socket_comm c.rsn_data)
data_comm (botpt_instrument c) = some (socket_comm c.tx)
data_comm (serial_instrument c) = some serial_comm_socket

-- The command connection of initializePublisherInstrumentCommand: only a digi has one.
unfoldable pub command_comm : InstrumentLink → Option CommBase
command_comm (rsn_instrument c) = some (socket_comm c.rsn_command)
command_comm _ = none

unfoldable pub add_on_comm : PublisherType → Option CommBase → Agent → Agent
unfolding add_to_list new_publisher
add_on_comm type none a = a
add_on_comm type (some comm) a = add_to_list (new_publisher type (some comm)) a

abbrev pub with_sniffer : Option TcpCommListener → Session → Session
with_sniffer o s = record s { sniffer = o }

abbrev pub sniffer_of : Option TcpCommListener → TcpCommListener
sniffer_of none = new_listener
sniffer_of (some l) = l

abbrev pub has_sniffer : Option TcpCommListener → Bool
has_sniffer none = false
has_sniffer (some l) = true

abbrev pub on_sniffer : {A : Type 0} → M TcpCommListener A → M Session A
on_sniffer = of_member (λ s. sniffer_of s.sniffer) (λ l s. with_sniffer (some l) s)

unfoldable pub sniffer_publisher : PortAgentConfig → TcpCommListener → Publisher
unfolding new_publisher
sniffer_publisher c l =
    let p = new_publisher publisher_telnet_sniffer (some (listener_comm l)) in
    record p { prefix = c.telnet_sniffer_prefix; suffix = c.telnet_sniffer_suffix }

module _ (k : Kernel) where
  -- `delete m_pTelnetSnifferConnection`
  unfoldable pub delete_sniffer : M Session (Unit {0})
  unfolding disconnect new_listener
  delete_sniffer = do
    s ← this
    when (has_sniffer s.sniffer) (do on_sniffer (disconnect k); give tt)
    modify (with_sniffer none)

  -- initializePublisherTelnetSniffer. The publisher is added where the listener was started.
  unfoldable pub initialize_publisher_telnet_sniffer : M Session (Unit {0})
  unfolding delete_sniffer new_listener set_port initialize add_to_list sniffer_publisher
  initialize_publisher_telnet_sniffer = do
    s ← this
    let c = config_of s
    when (not (c.telnet_sniffer_port == 0)) (do
      delete_sniffer
      modify (with_sniffer (some (set_port c.telnet_sniffer_port new_listener)))
      catch_connect_failure (do on_sniffer (initialize k); give tt) delete_sniffer
      s ← this
      when (has_sniffer s.sniffer)
          (on_agent (add_to_list (sniffer_publisher c (sniffer_of s.sniffer)))))

  -- initializePublishers; initializePublisherTCP and initializePublisherUDP do nothing.
  unfoldable pub initialize_publishers : M Session (Unit {0})
  unfolding initialize_publisher_file initialize_publisher_observatory_data
      initialize_publisher_observatory_command add_on_comm data_comm command_comm
      initialize_publisher_telnet_sniffer
  initialize_publishers = do
    s ← this
    on_agent initialize_publisher_file
    on_agent (initialize_publisher_observatory_data s.observatory s.data_listeners)
    on_agent (initialize_publisher_observatory_command s.observatory)
    on_agent (add_on_comm publisher_instrument_data (data_comm s.instrument))
    on_agent (add_on_comm publisher_instrument_command (command_comm s.instrument))
    initialize_publisher_telnet_sniffer
