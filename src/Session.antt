-- ===== src/Session.antt =====
-- port_agent/port_agent.h and port_agent.cxx: the agent with its connections, over a kernel.
pub mod Instruments
pub mod Observatories
pub mod Sinks
pub mod Handlers
pub mod Poll
pub mod Keeping
pub mod Endings
pub mod Machine
pub mod Connecting
pub mod Listening
pub mod Serving
pub mod Running
pub mod Dispatching
pub mod Rounds
pub mod Moving
pub mod Lines
use port_agent.Prelude.{Option, List}
use port_agent.Config.{PortAgentConfig}
use port_agent.Network.{done, M, modify}
use port_agent.Network.TcpCommListener.{TcpCommListener}
use port_agent.Network.CommSocket.{CommSocket}
use port_agent.Network.SerialCommSocket.{SerialCommSocket}
use port_agent.Connection.Observatory.{ObservatoryConnection}
use port_agent.Connection.Instrument.{InstrumentBotptConnection}
use port_agent.Connection.Rsn.{InstrumentRsnConnection}
use port_agent.Agent.{PortAgentState, Agent, set_state}

-- The object under m_pInstrumentConnection, by its connectionType.
pub data InstrumentLink : Type 0 where
  no_instrument : InstrumentLink
  tcp_instrument : CommSocket → InstrumentLink
  rsn_instrument : InstrumentRsnConnection → InstrumentLink
  botpt_instrument : InstrumentBotptConnection → InstrumentLink
  serial_instrument : SerialCommSocket → InstrumentLink

-- The object under m_pObservatoryConnection. The data sockets of the second belong to a
-- singleton, which stays when the connection is deleted.
pub data ObservatoryLink : Type 0 where
  no_observatory : ObservatoryLink
  standard_observatory : ObservatoryConnection → ObservatoryLink
  multi_observatory : (command_socket : TcpCommListener) → ObservatoryLink

pub record Session : Type 0 where
  pub agent : Agent
  pub instrument : InstrumentLink
  pub observatory : ObservatoryLink
  pub data_listeners : List TcpCommListener  -- ObservatoryDataSockets
  pub sniffer : Option TcpCommListener  -- m_pTelnetSnifferConnection

-- A method on the agent's own members.
abbrev pub on_agent : (Agent → Agent) → M Session (Unit {0})
on_agent f = modify (λ s. record s { agent = f s.agent })

abbrev pub config_of : Session → PortAgentConfig
config_of s = s.agent.world.config

abbrev pub with_config : (PortAgentConfig → PortAgentConfig) → Agent → Agent
with_config f a = let w = a.world in record a { world = record w { config = f w.config } }

-- setState
unfoldable pub enter : PortAgentState → M Session (Unit {0})
unfolding set_state
enter state = on_agent (set_state state)

-- What the session's methods ask of a member.
abbrev pub asks : {A : Type 0} → (Session → A) → M Session A
asks f s h = done (f s) s h
