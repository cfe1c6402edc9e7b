-- ===== src/Agent.antt =====
-- port_agent/port_agent.cxx: class PortAgent, its state and the commands that it obeys.
pub mod Obedience
pub mod States
pub mod Heartbeat
use port_agent.Prelude.{
  ltb, ◌==◌, if◌then◌else◌, Bytes, codes, length, ℕ, zero, suc, ◌-◌, Bool, not, ◌&&◌, Option, none,
  some, List, [], ◌∷◌, ◌++◌,
}
use port_agent.Packet.{
  PacketType, data_from_instrument, data_from_rsn, port_agent_status, port_agent_fault,
  port_agent_heartbeat,
}
use port_agent.Config.Configured.{is_configured}
use port_agent.Config.{
  PortAgentCommand, cmd_unknown, cmd_help, cmd_comm_config_update, cmd_publisher_config_update,
  cmd_path_config_update, cmd_save_config, cmd_get_config, cmd_get_state, cmd_ping, cmd_break,
  cmd_shutdown, cmd_rotation_interval, command_code, RotationType, get_command, World,
}
use port_agent.Config.Text.{c_str}
use port_agent.Config.Commands.{parse}
use port_agent.Publisher.{publisher_file, same_type, Publisher}

-- enum PortAgentState
pub data PortAgentState : Type 0 where
  state_unknown state_startup state_unconfigured : PortAgentState
  state_configured state_connected state_disconnected : PortAgentState

unfoldable pub current_state_as_string : PortAgentState → Bytes
current_state_as_string state_unconfigured = codes "UNCONFIGURED"
current_state_as_string state_configured = codes "CONFIGURED"
current_state_as_string state_connected = codes "CONNECTED"
current_state_as_string state_disconnected = codes "DISCONNECTED"
current_state_as_string state_startup = codes "STARTUP"
current_state_as_string state_unknown = codes "UNKNOWN"

-- What leaves the agent, as far as it cannot fail; Session/Handlers.antt sends the break on the
-- connection. Packets for its publishers, a break on the instrument's line, the end.
pub data Effect : Type 0 where
  publish_packet : PacketType → Bytes → Effect
  publish_cast : Bytes → Effect  -- the bytes themselves, taken as a Packet object
  send_break : (duration : ℕ) → Effect
  shutdown : Effect

pub record Agent : Type 0 where
  pub state : PortAgentState
  pub world : World  -- m_pConfig, the data ports and the logger
  pub publishers : List Publisher
  pub has_instrument : Bool  -- m_pInstrumentConnection is set
  pub last_heartbeat : ℕ
  pub effects : List Effect  -- in the order in which they happened

-- setState, which writes only where the state changes.
unfoldable pub set_state : PortAgentState → Agent → Agent
set_state s a = record a { state = s }

unfoldable pub emit : Effect → Agent → Agent
emit e a = record a { effects = a.effects ++ e ∷ [] }

-- FilePublisher::setRotationInterval, on the first file publisher of the list.
unfoldable pub rotate : RotationType → List Publisher → List Publisher
rotate interval [] = []
rotate interval (p ∷ l) =
    let rest = rotate interval l in
    let log = p.log_file in
    if same_type p.publisher_type publisher_file
    then record p { log_file = record log { rotation = interval } } ∷ l
    else p ∷ rest

unfoldable pub set_rotation_interval : Agent → Agent
unfolding rotate
set_rotation_interval a = record a {
  publishers = rotate a.world.config.rotation_interval a.publishers;
}

-- What a command comes to: the loop goes on, or exit() was called.
pub data Obeyed : Type 0 where
  goes_on exits : Agent → Obeyed

abbrev pub agent_of : Obeyed → Agent
agent_of (goes_on a) = a
agent_of (exits a) = a

-- The switch of processPortAgentCommands. It has no case for CMD_HELP. shutdown() of
-- daemon_process.cxx ends the process.
unfoldable pub obey : (version : Bytes) → PortAgentCommand → Agent → Obeyed
unfolding set_state emit set_rotation_interval current_state_as_string
obey version cmd_comm_config_update a = goes_on (set_state state_unconfigured a)
obey version cmd_publisher_config_update a = goes_on a
obey version cmd_path_config_update a = goes_on a
obey version cmd_save_config a =
    goes_on (emit (publish_packet port_agent_fault (codes "not implemented")) a)
obey version cmd_get_config a =
    goes_on (emit (publish_packet port_agent_fault (codes "not implemented")) a)
obey version cmd_get_state a =
    goes_on (emit (publish_packet port_agent_status (current_state_as_string a.state)) a)
obey version cmd_ping a =
    goes_on (emit (publish_packet port_agent_status (codes "pong. version: " ++ version)) a)
obey version cmd_break a =
    goes_on (if a.has_instrument then emit (send_break a.world.config.break_duration) a else a)
obey version cmd_rotation_interval a = goes_on (set_rotation_interval a)
obey version cmd_shutdown a = exits (emit shutdown a)
obey version cmd_help a = goes_on a
obey version cmd_unknown a = goes_on a

-- The command that getCommand gives, and the agent with the rest of the queue.
unfoldable pub take_command : Agent → PortAgentCommand × Agent
unfolding get_command
take_command a =
    let w = a.world in
    let (cmd, c) = get_command w.config in (cmd, record a { world = record w { config = c } })

-- The rest of the loop, which is not reached where the process has ended.
abbrev pub unless_exited : Obeyed → (Agent → Option Obeyed) → Option Obeyed
unless_exited (goes_on a) rest = rest a
unless_exited (exits a) rest = some (exits a)

-- processPortAgentCommands, on fuel: `while(cmd = getCommand())`.
unfoldable pub process_port_agent_commands : (fuel : ℕ) → (version : Bytes) → Agent → Option Obeyed
unfolding take_command obey
process_port_agent_commands zero version a = none
process_port_agent_commands (suc fuel) version a =
    let (cmd, b) = take_command a in
    let rest = unless_exited (obey version cmd b) (process_port_agent_commands fuel version) in
    if command_code cmd == 0 then some (goes_on b) else rest

-- The loop of handlePortAgentCommand that clears the queue.
unfoldable pub clear_commands : (fuel : ℕ) → Agent → Option Agent
unfolding take_command
clear_commands zero a = none
clear_commands (suc fuel) a =
    let (cmd, b) = take_command a in
    let rest = clear_commands fuel b in if command_code cmd == 0 then some b else rest

abbrev pub bind {ℓ κ} : {A : Type ℓ} {B : Type κ} → Option A → (A → Option B) → Option B
bind none f = none
bind (some x) f = f x

-- parse, which the agent does not ask for its result.
unfoldable pub parse_commands : Bytes → Agent → Option Agent
parse_commands text a = bind (parse (c_str text) a.world) (λ r. some (record a { world = r.1 }))

-- handlePortAgentCommand. Each loop has a round for every queued command and one more.
unfoldable pub handle_port_agent_command : (version : Bytes) → Bytes → Agent → Option Obeyed
unfolding clear_commands parse_commands process_port_agent_commands
handle_port_agent_command version text a =
    bind (clear_commands (suc (length a.world.config.commands)) a) (λ b.
      bind (parse_commands text b)
        (λ c. process_port_agent_commands (suc (length c.world.config.commands)) version c))

-- The end of handleStateUnconfigured, behind its reads.
unfoldable pub leave_unconfigured : Agent → Agent
unfolding set_state
leave_unconfigured a = if is_configured a.world.config then set_state state_configured a else a

-- publishHeartbeat; `now` is time(NULL).
unfoldable pub publish_heartbeat : (now : ℕ) → Agent → Agent
unfolding emit
publish_heartbeat now a =
    let interval = a.world.config.heartbeat_interval in
    let b = emit (publish_packet port_agent_heartbeat []) a in
    if not (interval == 0) && ltb interval (now - a.last_heartbeat)
    then record b { last_heartbeat = now }
    else a

-- publishPacket(payload, size, type): a packet is made of the instrument's data only. The
-- payload of DATA_FROM_RSN is cast to a `Packet *`: the bytes read are used as an object.
unfoldable pub publish_payload : Bytes → PacketType → Agent → Agent
unfolding emit
publish_payload payload data_from_instrument a =
    emit (publish_packet data_from_instrument payload) a
publish_payload payload data_from_rsn a = emit (publish_cast payload) a
publish_payload payload t a = a
