-- ===== src/Config.antt =====
-- port_agent/config/port_agent_config.h and .cxx: class PortAgentConfig, its constructor's
-- defaults, its command queue, and the container of the observatory's data ports.
pub mod Text
pub mod Setters
pub mod Values
pub mod Sentinle
pub mod Keywords
pub mod Commands
pub mod Ranges
pub mod Queue
pub mod Draining
pub mod Ports
pub mod Validity
pub mod Steps
pub mod Parsing
pub mod Rejection
pub mod Configured
pub mod Readiness
pub mod CommandLine
pub mod Construction
pub mod Decimal
use port_agent.Prelude.{
  ◌==◌, if◌then◌else◌, Bytes, codes, get_elem?, ℕ, ◌+◌, Bool, true, false, not, Option, none, some,
  List, [], ◌∷◌, ◌++◌,
}

-- enum PortAgentCommand
pub data PortAgentCommand : Type 0 where
  cmd_unknown cmd_help cmd_comm_config_update cmd_publisher_config_update : PortAgentCommand
  cmd_path_config_update cmd_save_config cmd_get_config cmd_get_state : PortAgentCommand
  cmd_ping cmd_break cmd_shutdown cmd_rotation_interval : PortAgentCommand

unfoldable pub command_code : PortAgentCommand → ℕ
command_code cmd_unknown = 0x00
command_code cmd_help = 0x01
command_code cmd_comm_config_update = 0x02
command_code cmd_publisher_config_update = 0x03
command_code cmd_path_config_update = 0x04
command_code cmd_save_config = 0x05
command_code cmd_get_config = 0x06
command_code cmd_get_state = 0x07
command_code cmd_ping = 0x08
command_code cmd_break = 0x09
command_code cmd_shutdown = 0x10
command_code cmd_rotation_interval = 0x11

abbrev pub CommandQueue : Type 0
CommandQueue = List PortAgentCommand

-- enum ObservatoryConnectionType
pub data ObservatoryConnectionType : Type 0 where
  obs_type_unknown obs_type_standard obs_type_multi : ObservatoryConnectionType

-- enum InstrumentConnectionType
pub data InstrumentConnectionType : Type 0 where
  type_unknown type_serial type_tcp type_botpt type_rsn : InstrumentConnectionType

-- enum RotationType of common/log_file.h
pub data RotationType : Type 0 where
  daily hourly quarter_hourly minute second : RotationType

abbrev pub default_packet_size : ℕ
default_packet_size = 1024

abbrev pub default_break_duration : ℕ
default_break_duration = 0

abbrev pub greatest_packet_size : ℕ
greatest_packet_size = 65472

pub record PortAgentConfig : Type 0 where
  pub commands : CommandQueue
  pub help : Bool
  pub kill : Bool
  pub version : Bool
  pub ppid : ℕ  -- uint32_t
  pub pidfile : Bytes
  pub conffile : Bytes
  pub piddir : Bytes
  pub logdir : Bytes
  pub confdir : Bytes
  pub datadir : Bytes
  pub no_detatch : Bool
  pub verbose : ℕ  -- unsigned short
  pub observatory_command_port : ℕ  -- uint16_t
  pub observatory_data_port : ℕ  -- uint16_t
  pub sentinle_sequence : Bytes
  pub output_throttle : ℕ  -- uint32_t
  pub max_packet_size : ℕ  -- uint32_t
  pub observatory_connection_type : ObservatoryConnectionType
  pub instrument_connection_type : InstrumentConnectionType
  pub rotation_interval : RotationType
  pub heartbeat_interval : ℕ  -- uint16_t
  pub device_path_changed : Bool
  pub serial_settings_changed : Bool
  pub device_path : Bytes
  pub break_duration : ℕ  -- uint32_t
  pub baud : ℕ  -- uint32_t
  pub stopbits : ℕ  -- uint16_t
  pub databits : ℕ  -- uint16_t
  pub parity : ℕ  -- uint16_t
  pub flow : ℕ  -- uint16_t
  pub instrument_addr : Bytes
  pub instrument_data_port : ℕ  -- uint16_t
  pub instrument_data_tx_port : ℕ  -- uint16_t
  pub instrument_data_rx_port : ℕ  -- uint16_t
  pub instrument_command_port : ℕ  -- uint16_t
  pub telnet_sniffer_port : ℕ  -- uint16_t
  pub telnet_sniffer_prefix : Bytes
  pub telnet_sniffer_suffix : Bytes

-- The members after the constructor's defaults. It leaves out two: the rotation interval and
-- the break duration are what the memory held.
unfoldable pub defaults : (interval : RotationType) (duration : ℕ) → PortAgentConfig
defaults interval duration = record {
  commands = [];
  help = false;
  kill = false;
  version = false;
  ppid = 0;
  pidfile = [];
  conffile = [];
  piddir = codes "/tmp";
  logdir = codes "/tmp";
  confdir = codes "/tmp";
  datadir = codes "/tmp";
  no_detatch = false;
  verbose = 0;
  observatory_command_port = 0;
  observatory_data_port = 0;
  sentinle_sequence = [];
  output_throttle = 0;
  max_packet_size = default_packet_size;
  observatory_connection_type = obs_type_standard;
  instrument_connection_type = type_unknown;
  rotation_interval = interval;
  heartbeat_interval = 120;
  device_path_changed = true;
  serial_settings_changed = true;
  device_path = [];
  break_duration = duration;
  baud = 0;
  stopbits = 1;
  databits = 8;
  parity = 0;
  flow = 0;
  instrument_addr = [];
  instrument_data_port = 0;
  instrument_data_tx_port = 0;
  instrument_data_rx_port = 0;
  instrument_command_port = 0;
  telnet_sniffer_port = 0;
  telnet_sniffer_prefix = [];
  telnet_sniffer_suffix = [];
}

-- The search of addCommand, over all of the queue.
unfoldable pub find_command : PortAgentCommand → CommandQueue → Bool → Bool
find_command command [] found = found
find_command command (i ∷ queue) found =
    find_command command queue (if command_code i == command_code command then true else found)

-- addCommand, on the queue.
unfoldable pub enqueue : PortAgentCommand → CommandQueue → CommandQueue
unfolding find_command
enqueue command queue =
    if not (find_command command queue false) then queue ++ command ∷ [] else queue

unfoldable pub add_command : PortAgentCommand → PortAgentConfig → PortAgentConfig
unfolding enqueue
add_command command c = record c { commands = enqueue command c.commands }

-- getCommand: the oldest command and the queue without it.
unfoldable pub dequeue : CommandQueue → PortAgentCommand × CommandQueue
dequeue [] = (cmd_unknown, [])
dequeue (cmd ∷ queue) = (cmd, queue)

unfoldable pub get_command : PortAgentConfig → PortAgentCommand × PortAgentConfig
unfolding dequeue
get_command c = let (cmd, queue) = dequeue c.commands in (cmd, record c { commands = queue })

-- ObservatoryDataPorts: the list, and the position of its iterator.
pub record ObservatoryDataPorts : Type 0 where
  pub ports : List ℕ
  pub position : ℕ

-- `list::remove`
unfoldable pub remove : ℕ → List ℕ → List ℕ
remove port [] = []
remove port (p ∷ ports) = let rest = remove port ports in if p == port then rest else p ∷ rest

-- addPort, which always succeeds. The iterator of the source is set before each walk.
unfoldable pub add_port : ℕ → ObservatoryDataPorts → ObservatoryDataPorts
unfolding remove
add_port port d = record d { ports = remove port d.ports ++ port ∷ [] }

-- The port under the iterator, 0 at the end.
abbrev pub port_at : Option ℕ → ℕ
port_at none = 0
port_at (some port) = port

unfoldable pub get_first_port : ObservatoryDataPorts → ℕ × ObservatoryDataPorts
get_first_port d = (port_at (get_elem? d.ports 0), record d { position = 0 })

unfoldable pub get_next_port : ObservatoryDataPorts → ℕ × ObservatoryDataPorts
get_next_port d =
    (port_at (get_elem? d.ports (d.position + 1)), record d { position = d.position + 1 })

-- What a command can change: the configuration, the data ports, and the logger's level and file.
pub record World : Type 0 where
  pub config : PortAgentConfig
  pub data_ports : ObservatoryDataPorts
  pub log_level : ℕ
  pub log_file : Bytes
