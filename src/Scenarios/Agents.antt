-- ===== src/Scenarios/Agents.antt =====
-- An agent that is told to change its connection, and its heartbeats.
use port_agent.Prelude.{◌≡◌, refl, false, [], ◌∷◌}
use port_agent.Config.{cmd_ping, cmd_shutdown, CommandQueue, cmd_comm_config_update, defaults}
use port_agent.Agent.{Agent, state_connected, publish_heartbeat, emit}
use port_agent.Agent.Heartbeat.{beats, Spaced, beats-Spaced}
use port_agent.Scenarios.Configs.{start}

abbrev running : Agent
running = record {
  state = state_connected;
  world = start;
  publishers = [];
  has_instrument = false;
  last_heartbeat = 1000;
  effects = [];
}

abbrev updates : CommandQueue
updates = cmd_comm_config_update ∷ cmd_shutdown ∷ cmd_ping ∷ []

-- The interval is 120 seconds at the start.
two_beats : beats (1100 ∷ 1121 ∷ 1200 ∷ 1242 ∷ []) running ≡ 1121 ∷ 1242 ∷ []
unfolding beats publish_heartbeat emit defaults
two_beats = refl

beats-Spaced_example :
    Spaced running.world.config.heartbeat_interval 1000
      (beats (1100 ∷ 1121 ∷ 1200 ∷ 1242 ∷ []) running)
    × (running.world.config.heartbeat_interval ≡ 0
        → beats (1100 ∷ 1121 ∷ 1200 ∷ 1242 ∷ []) running ≡ [])
beats-Spaced_example = beats-Spaced (1100 ∷ 1121 ∷ 1200 ∷ 1242 ∷ []) running
