-- ===== src/Config/Keywords.antt =====
-- Which branch of processCommand a line reaches, and splitCommand.
use port_agent.Prelude.{if◌then◌else◌, ◌==◌, Bytes, codes, bytes_eq, [], length, Option, none, some}
use port_agent.Config.Text.{next_token, chomp}

-- What the ladder of processCommand finds; the setters of one port each share a shape.
pub data Keyword : Type 0 where
  help verbose save_config get_config get_state ping shutdown break instrument_type : Keyword
  observatory_type sentinle output_throttle heartbeat_interval max_packet_size : Keyword
  data_port add_data_port command_port instrument_data_port instrument_data_tx_port : Keyword
  instrument_data_rx_port instrument_command_port log_level log_dir pid_dir data_dir : Keyword
  conf_dir instrument_addr device_path baud stopbits databits parity flow : Keyword
  rotation_interval telnet_sniffer_port telnet_sniffer_prefix telnet_sniffer_suffix : Keyword

-- splitCommand: the command and its parameter. Where a third token follows, it returns false
-- and leaves both strings of the caller empty; the caller does not look at what it returns.
unfoldable pub split_command : Bytes → Bytes × Bytes
unfolding next_token chomp
split_command raw =
    let (cmd, after_cmd) = next_token (some raw) in
    let (param, after_param) = next_token after_cmd in
    let (dump, rest) = next_token after_param in
    if length dump == 0 then (chomp cmd, chomp param) else ([], [])

-- The first part of the ladder compares the whole line.
unfoldable pub whole_line : Bytes → Option Keyword
whole_line command =
    if bytes_eq command (codes "help")
    then some help
    else if bytes_eq command (codes "verbose")
    then some verbose
    else if bytes_eq command (codes "save_config")
    then some save_config
    else if bytes_eq command (codes "get_config")
    then some get_config
    else if bytes_eq command (codes "get_state")
    then some get_state
    else if bytes_eq command (codes "ping")
    then some ping
    else if bytes_eq command (codes "shutdown")
    then some shutdown
    else none

-- The second part compares the first token. A second branch for "log_dir" is never reached.
unfoldable pub first_token : Bytes → Option Keyword
first_token cmd =
    if bytes_eq cmd (codes "break")
    then some break
    else if bytes_eq cmd (codes "instrument_type")
    then some instrument_type
    else if bytes_eq cmd (codes "observatory_type")
    then some observatory_type
    else if bytes_eq cmd (codes "sentinle")
    then some sentinle
    else if bytes_eq cmd (codes "output_throttle")
    then some output_throttle
    else if bytes_eq cmd (codes "heartbeat_interval")
    then some heartbeat_interval
    else if bytes_eq cmd (codes "max_packet_size")
    then some max_packet_size
    else if bytes_eq cmd (codes "data_port")
    then some data_port
    else if bytes_eq cmd (codes "add_data_port")
    then some add_data_port
    else if bytes_eq cmd (codes "command_port")
    then some command_port
    else if bytes_eq cmd (codes "instrument_data_port")
    then some instrument_data_port
    else if bytes_eq cmd (codes "instrument_data_tx_port")
    then some instrument_data_tx_port
    else if bytes_eq cmd (codes "instrument_data_rx_port")
    then some instrument_data_rx_port
    else if bytes_eq cmd (codes "instrument_command_port")
    then some instrument_command_port
    else if bytes_eq cmd (codes "log_level")
    then some log_level
    else if bytes_eq cmd (codes "log_dir")
    then some log_dir
    else if bytes_eq cmd (codes "pid_dir")
    then some pid_dir
    else if bytes_eq cmd (codes "data_dir")
    then some data_dir
    else if bytes_eq cmd (codes "conf_dir")
    then some conf_dir
    else if bytes_eq cmd (codes "instrument_addr")
    then some instrument_addr
    else if bytes_eq cmd (codes "device_path")
    then some device_path
    else if bytes_eq cmd (codes "baud")
    then some baud
    else if bytes_eq cmd (codes "stopbits")
    then some stopbits
    else if bytes_eq cmd (codes "databits")
    then some databits
    else if bytes_eq cmd (codes "parity")
    then some parity
    else if bytes_eq cmd (codes "flow")
    then some flow
    else if bytes_eq cmd (codes "rotation_interval")
    then some rotation_interval
    else if bytes_eq cmd (codes "telnet_sniffer_port")
    then some telnet_sniffer_port
    else if bytes_eq cmd (codes "telnet_sniffer_prefix")
    then some telnet_sniffer_prefix
    else if bytes_eq cmd (codes "telnet_sniffer_suffix")
    then some telnet_sniffer_suffix
    else none

-- The ladder's order: the whole line first, then the first token.
abbrev pub or_else {ℓ} : {A : Type ℓ} → Option A → Option A → Option A
or_else none o = o
or_else (some a) o = some a
