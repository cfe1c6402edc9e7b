-- ===== src/Session/Machine.antt =====
-- The states of the agent that serve connections, the changes of state that a round of poll
-- allows, and the property of a session that its methods keep.
use port_agent.Config.Validity.{IsValid}
use port_agent.Agent.{
  PortAgentState, state_startup, state_unconfigured, state_configured, state_connected,
  state_disconnected,
}
use port_agent.Session.{Session}

-- The states in which the agent serves its connections.
pub data Running : PortAgentState → Type 0 where
  unconfigured_runs : Running state_unconfigured
  configured_runs : Running state_configured
  connected_runs : Running state_connected
  disconnected_runs : Running state_disconnected

-- The state in which a round of poll begins, and one in which it may end: nothing leads to the
-- start or to the unknown state, the start leads to the unconfigured state alone, and a round
-- ends in the configured state only where it began there or in the unconfigured one.
pub data Round : PortAgentState → PortAgentState → Type 0 where
  stays : {s : PortAgentState} → Round s s
  starts : Round state_startup state_unconfigured
  gets_configured : Round state_unconfigured state_configured
  is_reset : {s : PortAgentState} → Running s → Round s state_unconfigured
  connects : {s : PortAgentState} → Running s → Round s state_connected
  disconnects : {s : PortAgentState} → Running s → Round s state_disconnected

-- A set of states that a method may assume and has to stay in.
pub record Allows (R : PortAgentState → Type 0) : Type 0 where
  pub reset_allowed : (s : PortAgentState) → R s → R state_unconfigured

-- The same for a method that connects to the instrument.
pub record AllowsConnecting (R : PortAgentState → Type 0) : Type 0 where
  pub connected_allowed : (s : PortAgentState) → R s → R state_connected
  pub disconnected_allowed : (s : PortAgentState) → R s → R state_disconnected

-- The session's configuration is valid, and its state is in the set.
pub record Good (R : PortAgentState → Type 0) (s : Session) : Type 0 where
  pub valid : IsValid s.agent.world
  pub allowed : R s.agent.state
