-- ===== src/Agent/States.antt =====
-- The agent's state under the commands of a text.
use port_agent.Prelude.{Bool, if◌then◌else◌}
use port_agent.Agent.{Agent, PortAgentState, state_unconfigured}

state_after : Bool → PortAgentState → PortAgentState
state_after b s = if b then state_unconfigured else s
