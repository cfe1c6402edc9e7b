-- ===== src/Session/Rounds.antt =====
-- A round of poll ends, and leads the agent to a state that it allows.
use port_agent.Session.{Session}
