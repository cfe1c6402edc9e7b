-- ===== src/Session/Moving.antt =====
-- What becomes of the command port when its number is changed.
use port_agent.Session.{Session}
