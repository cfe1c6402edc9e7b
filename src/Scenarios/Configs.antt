-- ===== src/Scenarios/Configs.antt =====
-- A configuration file of four lines, and lines that are refused.
use port_agent.Prelude.{
  if◌then◌else◌, Bytes, codes, length, bytes_eq, pos, negsuc, ◌≡◌, refl, ◌≢◌, ◌↔◌, Bool, true,
  false, Option, none, some, List, [], ◌∷◌, ◌++◌, arith,
}
use port_agent.Config.Configured.{is_configured}
use port_agent.Config.{
  PortAgentCommand, add_command, cmd_publisher_config_update, cmd_get_config, cmd_get_state,
  cmd_ping, command_code, daily, defaults, ObservatoryDataPorts, get_first_port, World,
}
use port_agent.Config.Sentinle.{print_sentinle, sentinle_line, process_command-sentinle_line}
use port_agent.Config.CommandLine.{
  parameter_required, Outcome, thrown, Parameter, conffile_option, command_port_option,
  verify_command_line_parameters, read_options,
}
use port_agent.Config.Construction.{Returns, IsStarted, read_options-Returns}
use port_agent.Config.Text.{atoi, decimal}
use port_agent.Config.Setters.{
  set_observatory_data_port, set_observatory_command_port, set_instrument_data_port,
  set_instrument_data_tx_port, set_instrument_data_rx_port, set_instrument_command_port,
  set_telnet_sniffer_port, set_sentinle_sequence,
}
use port_agent.Config.Values.{set_heartbeat_interval}
use port_agent.Config.Commands.{process_command, parse}
use port_agent.Config.Queue.{Known}
use port_agent.Config.Draining.{firsts, enqueue_all, drain, drain-enqueue_all}
use port_agent.Config.Ports.{walk, walk_lem}
use port_agent.Config.Validity.{IsValid}
use port_agent.Config.Steps.{process_command-IsValid}
use port_agent.Config.Parsing.{parse-IsValid}
use port_agent.Config.Rejection.{third_word, process_command_trailing}
use port_agent.Config.Readiness.{Needs, is_configured_iff}
use port_agent.Config.Decimal.{ports-decimal}

abbrev pub start : World
start = record {
  config = defaults daily 0;
  data_ports = record { ports = []; position = 0 };
  log_level = 1;
  log_file = [];
}

pub start-IsValid : IsValid start
unfolding defaults
start-IsValid = record {
  ranges = ground arith;
  commands_apart = (tt, tt);
  ports_apart = (tt, tt);
  level_fits = omega arith;
}

abbrev pub file : Bytes
file =
    codes "instrument_type tcp"
    ++ (10
        ∷ (codes "instrument_addr localhost\r"
            ++ (10 ∷ (codes "add_data_port 4001" ++ (10 ∷ codes "ping")))))

parse-IsValid_example :
    (done : Bool) × (v : World) × (parse file start ≡ some (done, v)) × IsValid v
parse-IsValid_example = parse-IsValid file start start-IsValid

process_command-IsValid_example : IsValid (process_command (codes "data_port 70000") start).1
process_command-IsValid_example =
    process_command-IsValid (codes "data_port 70000") start start-IsValid

abbrev spaced : Bytes
spaced = codes "sentinle 'a b c'"

three_words : length (third_word spaced) ≢ 0
unfolding third_word
three_words e = omega (arith, e)

-- The sentinle cannot hold a space.
process_command_trailing_example : process_command spaced start ≡ (false, start)
process_command_trailing_example = process_command_trailing spaced start three_words

abbrev two_ports : ObservatoryDataPorts
two_ports = record { ports = 4001 ∷ 4002 ∷ []; position = 1 }

walk_lem_example : walk 3 (get_first_port two_ports) ≡ 4001 ∷ 4002 ∷ []
walk_lem_example = walk_lem two_ports (ground arith)

abbrev asked : List PortAgentCommand
asked = cmd_ping ∷ cmd_get_state ∷ cmd_ping ∷ cmd_get_config ∷ []

asked-Known : Known asked
unfolding command_code
asked-Known = (refl, (refl, (refl, (refl, tt))))

drain-enqueue_all_example : drain 5 (enqueue_all asked []) ≡ firsts asked
drain-enqueue_all_example = drain-enqueue_all asked asked-Known

asked_once : firsts asked ≡ cmd_ping ∷ cmd_get_state ∷ cmd_get_config ∷ []
unfolding firsts command_code
asked_once = refl

is_configured_iff_example : (is_configured start.config ≡ true) ↔ (
    (start.config.observatory_command_port ≢ 0)
    × (start.config.observatory_data_port ≢ 0)
    × Needs start.config.instrument_connection_type start.config)
is_configured_iff_example = is_configured_iff start.config

ports-decimal_example :
    (set_observatory_command_port (decimal 4001) start.config
      ≡ (true, (let c = start.config in record c { observatory_command_port = 4001 })))
    × (set_observatory_data_port (decimal 4001) start.config
        ≡ (true, (let c = start.config in record c { observatory_data_port = 4001 })))
    × (set_instrument_data_port (decimal 4001) start.config
        ≡ (true, (let c = start.config in record c { instrument_data_port = 4001 })))
    × (set_instrument_data_tx_port (decimal 4001) start.config
        ≡ (true, (let c = start.config in record c { instrument_data_tx_port = 4001 })))
    × (set_instrument_data_rx_port (decimal 4001) start.config
        ≡ (true, (let c = start.config in record c { instrument_data_rx_port = 4001 })))
    × (set_instrument_command_port (decimal 4001) start.config
        ≡ (true, (let c = start.config in record c { instrument_command_port = 4001 })))
    × (set_telnet_sniffer_port (decimal 4001) start.config
        ≡ (true, (let c = start.config in record c { telnet_sniffer_port = 4001 })))
ports-decimal_example = ports-decimal 4001 start.config (omega arith) (omega arith)

minus_seven : atoi (codes " -7x") ≡ negsuc 6
unfolding atoi
minus_seven = refl

-- 4294967298 is 2 in 32 bits.
wraps : atoi (codes "4294967298") ≡ pos 2
unfolding atoi
wraps = refl

escaped :
    (set_sentinle_sequence (codes "sentinle 'ab\\r\\n'") start.config).1.sentinle_sequence
    ≡ codes "ab" ++ (13 ∷ 10 ∷ [])
unfolding set_sentinle_sequence
escaped = refl

-- An interval of 65536 seconds becomes none.
interval_wraps : (set_heartbeat_interval (codes "65536") start.config).1.heartbeat_interval ≡ 0
unfolding set_heartbeat_interval atoi
interval_wraps = refl

abbrev newline : Bytes
newline = 13 ∷ 10 ∷ []

process_command-sentinle_line_example : process_command (sentinle_line newline) start ≡ (
  true,
  record start {
    config = record (add_command cmd_publisher_config_update start.config) {
      sentinle_sequence = newline;
    };
  },
)
process_command-sentinle_line_example =
    process_command-sentinle_line newline start (ground arith) (ground arith)
      (unfold print_sentinle in omega arith)

-- A file system with one file.
abbrev files : Bytes → Option Bytes
files name = if bytes_eq name (codes "a.conf") then some file else none

abbrev anywhere : Bytes → Bool
anywhere path = true

abbrev options : List Parameter
options = conffile_option (codes "a.conf") ∷ command_port_option (codes "4000") ∷ []

read_options-Returns_example :
    (o : Outcome) × (read_options files anywhere options start ≡ some o)
    × Returns (λ v. IsValid v × IsStarted anywhere v) o
read_options-Returns_example = read_options-Returns files anywhere options start start-IsValid

no_port : read_options files anywhere [] start ≡ some (thrown parameter_required)
unfolding read_options verify_command_line_parameters defaults
no_port = refl
