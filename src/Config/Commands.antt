-- ===== src/Config/Commands.antt =====
-- processCommand and parse of PortAgentConfig.
use port_agent.Prelude.{
  ℕ, zero, suc, Bool, true, false, Bytes, codes, ◌++◌, length, Option, none, some,
}
use port_agent.Config.{
  PortAgentConfig, World, PortAgentCommand, add_command, cmd_help, cmd_comm_config_update,
  cmd_publisher_config_update, cmd_path_config_update, cmd_save_config, cmd_get_config,
  cmd_get_state, cmd_ping, cmd_break, cmd_shutdown, cmd_rotation_interval,
}
use port_agent.Config.Text.{Stream, get_line, c_str, chomp, decimal}
use port_agent.Config.Setters.{
  set_observatory_data_port, set_observatory_command_port, set_instrument_data_port,
  set_instrument_data_tx_port, set_instrument_data_rx_port, set_instrument_command_port,
  set_telnet_sniffer_port, add_observatory_data_port, set_instrument_break_duration,
  set_instrument_connection_type, set_observatory_connection_type, set_sentinle_sequence,
}
use port_agent.Config.Values.{
  set_output_throttle, set_heartbeat_interval, set_max_packet_size, set_log_level,
  increase_log_level, set_device_path, set_baud, set_stopbits, set_databits, set_parity, set_flow,
  set_rotation_interval,
}
use port_agent.Config.Keywords.{
  Keyword, help, verbose, save_config, get_config, get_state, ping, shutdown, break,
  instrument_type, observatory_type, sentinle, output_throttle, heartbeat_interval, max_packet_size,
  data_port, add_data_port, command_port, instrument_data_port, instrument_data_tx_port,
  instrument_data_rx_port, instrument_command_port, log_level, log_dir, pid_dir, data_dir, conf_dir,
  instrument_addr, device_path, baud, stopbits, databits, parity, flow, rotation_interval,
  telnet_sniffer_port, telnet_sniffer_prefix, telnet_sniffer_suffix, split_command, whole_line,
  first_token, or_else,
}

-- A setter of the configuration, behind the call of addCommand.
abbrev pub on_config : Bool × PortAgentConfig → World → Bool × World
on_config (done, c) w = (done, record w { config = c })

abbrev pub queue : PortAgentCommand → World → World
queue command w = record w { config = add_command command w.config }

abbrev pub serial_changed : World → World
serial_changed w =
    let c = w.config in record w { config = record c { serial_settings_changed = true } }

-- logfile()
unfoldable pub logfile : PortAgentConfig → Bytes
logfile c =
    c.logdir ++ (codes "/port_agent_" ++ (decimal c.observatory_command_port ++ codes ".log"))

-- The branches of processCommand: `command` is the line, `param` its second token. logfile() is
-- never empty.
unfoldable pub execute : Keyword → (command param : Bytes) → World → Bool × World
unfolding logfile add_command
execute help command param w = (true, queue cmd_help w)
execute verbose command param w = (true, increase_log_level w)
execute save_config command param w = (true, queue cmd_save_config w)
execute get_config command param w = (true, queue cmd_get_config w)
execute get_state command param w = (true, queue cmd_get_state w)
execute ping command param w = (true, queue cmd_ping w)
execute shutdown command param w = (true, queue cmd_shutdown w)
execute break command param w =
    let v = queue cmd_break w in on_config (set_instrument_break_duration param v.config) v
execute instrument_type command param w =
    let v = queue cmd_comm_config_update w in
    on_config (set_instrument_connection_type param v.config) v
execute observatory_type command param w =
    let v = queue cmd_comm_config_update w in
    on_config (set_observatory_connection_type param v.config) v
execute sentinle command param w =
    let v = queue cmd_publisher_config_update w in
    on_config (set_sentinle_sequence command v.config) v
execute output_throttle command param w =
    let v = queue cmd_comm_config_update w in on_config (set_output_throttle param v.config) v
execute heartbeat_interval command param w = on_config (set_heartbeat_interval param w.config) w
execute max_packet_size command param w =
    let v = queue cmd_publisher_config_update w in on_config (set_max_packet_size param v.config) v
execute data_port command param w =
    let v = queue cmd_comm_config_update w in on_config (set_observatory_data_port param v.config) v
execute add_data_port command param w =
    add_observatory_data_port param (queue cmd_comm_config_update w)
execute command_port command param w =
    let v = queue cmd_comm_config_update w in
    on_config (set_observatory_command_port param v.config) v
execute instrument_data_port command param w =
    let v = queue cmd_comm_config_update w in on_config (set_instrument_data_port param v.config) v
execute instrument_data_tx_port command param w =
    let v = queue cmd_comm_config_update w in
    on_config (set_instrument_data_tx_port param v.config) v
execute instrument_data_rx_port command param w =
    let v = queue cmd_comm_config_update w in
    on_config (set_instrument_data_rx_port param v.config) v
execute instrument_command_port command param w =
    let v = queue cmd_comm_config_update w in
    on_config (set_instrument_command_port param v.config) v
execute log_level command param w = set_log_level param w
execute log_dir command param w =
    let c = w.config in
    let c' = record c { logdir = param } in (true, record w { config = c'; log_file = logfile c' })
execute pid_dir command param w =
    let v = queue cmd_path_config_update w in
    let c = v.config in (true, record v { config = record c { piddir = param } })
execute data_dir command param w =
    let v = queue cmd_path_config_update w in
    let c = v.config in (true, record v { config = record c { datadir = param } })
execute conf_dir command param w =
    let v = queue cmd_path_config_update w in
    let c = v.config in (true, record v { config = record c { confdir = param } })
execute instrument_addr command param w =
    let v = queue cmd_comm_config_update w in
    let c = v.config in (true, record v { config = record c { instrument_addr = param } })
execute device_path command param w =
    let c = w.config in
    let v =
      queue cmd_comm_config_update
        (record w { config = record c { device_path_changed = true } }) in
    on_config (set_device_path param v.config) v
execute baud command param w =
    let v = queue cmd_comm_config_update (serial_changed w) in on_config (set_baud param v.config) v
execute stopbits command param w =
    let v = queue cmd_comm_config_update (serial_changed w) in
    on_config (set_stopbits param v.config) v
execute databits command param w =
    let v = queue cmd_comm_config_update (serial_changed w) in
    on_config (set_databits param v.config) v
execute parity command param w =
    let v = queue cmd_comm_config_update (serial_changed w) in
    on_config (set_parity param v.config) v
execute flow command param w =
    let v = queue cmd_comm_config_update (serial_changed w) in on_config (set_flow param v.config) v
execute rotation_interval command param w =
    let v = queue cmd_rotation_interval w in on_config (set_rotation_interval param v.config) v
execute telnet_sniffer_port command param w =
    let v = queue cmd_publisher_config_update w in
    on_config (set_telnet_sniffer_port param v.config) v
execute telnet_sniffer_prefix command param w =
    let v = queue cmd_publisher_config_update w in
    let c = v.config in (true, record v { config = record c { telnet_sniffer_prefix = param } })
execute telnet_sniffer_suffix command param w =
    let v = queue cmd_publisher_config_update w in
    let c = v.config in (true, record v { config = record c { telnet_sniffer_suffix = param } })

-- The last branch of the ladder changes nothing.
abbrev pub run_keyword : Option Keyword → (command param : Bytes) → World → Bool × World
run_keyword none command param w = (false, w)
run_keyword (some k) command param w = execute k command param w

unfoldable pub process_command : Bytes → World → Bool × World
unfolding split_command whole_line first_token execute
process_command command w =
    let (cmd, param) = split_command command in
    run_keyword (or_else (whole_line command) (first_token cmd)) command param w

-- parse, on fuel: a round for each line. The first line that fails ends it.
abbrev pub after_line :
    Bool × World → Stream → (Stream → World → Option (Bool × World)) → Option (Bool × World)
after_line (true, w) rest next = next rest w
after_line (false, w) rest next = some (false, w)

abbrev pub next_line :
    Option (Bytes × Stream)
    → World
    → (Stream → World → Option (Bool × World))
    → Option (Bool × World)
next_line none w next = some (true, w)
next_line (some (buffer, rest)) w next =
    after_line (process_command (chomp (c_str buffer)) w) rest next

unfoldable pub parse_loop : (fuel : ℕ) → Stream → World → Option (Bool × World)
unfolding process_command get_line
parse_loop zero s w = none
parse_loop (suc fuel) s w = next_line (get_line s) w (parse_loop fuel)

-- Every line takes at least one byte: a round more than there are bytes is enough.
unfoldable pub parse : Bytes → World → Option (Bool × World)
unfolding parse_loop
parse commands w = parse_loop (suc (length commands)) (some commands) w
