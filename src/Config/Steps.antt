-- ===== src/Config/Steps.antt =====
-- Each line keeps the invariant.
use port_agent.Prelude.{◌≡◌, refl, Bool, true, false, Bytes, Option, none, some}
use port_agent.Config.{
  PortAgentConfig, World, PortAgentCommand, cmd_unknown, cmd_help, cmd_comm_config_update,
  cmd_publisher_config_update, cmd_path_config_update, cmd_save_config, cmd_get_config,
  cmd_get_state, cmd_ping, cmd_break, cmd_shutdown, cmd_rotation_interval, command_code,
}
use port_agent.Config.Ranges
use port_agent.Config.Ranges.{Ranges, Keeps}
use port_agent.Config.Queue.{same}
use port_agent.Config.Setters.{
  set_instrument_break_duration, set_instrument_command_port, set_instrument_connection_type,
  set_instrument_data_port, set_instrument_data_rx_port, set_instrument_data_tx_port,
  set_observatory_command_port, set_observatory_connection_type, set_observatory_data_port,
  set_sentinle_sequence, set_telnet_sniffer_port,
}
use port_agent.Config.Values.{
  set_baud, set_databits, set_device_path, set_flow, set_heartbeat_interval, set_max_packet_size,
  set_output_throttle, set_parity, set_rotation_interval, set_stopbits,
}
use port_agent.Config.Keywords.{
  Keyword, help, verbose, save_config, get_config, get_state, ping, shutdown, break,
  instrument_type, observatory_type, sentinle, output_throttle, heartbeat_interval, max_packet_size,
  data_port, add_data_port, command_port, instrument_data_port, instrument_data_tx_port,
  instrument_data_rx_port, instrument_command_port, log_level, log_dir, pid_dir, data_dir, conf_dir,
  instrument_addr, device_path, baud, stopbits, databits, parity, flow, rotation_interval,
  telnet_sniffer_port, telnet_sniffer_prefix, telnet_sniffer_suffix, split_command, whole_line,
  first_token, or_else,
}
use port_agent.Config.Commands.{
  on_config, queue, serial_changed, execute, run_keyword, process_command,
}
use port_agent.Config.Validity.{
  IsValid, on_config-IsValid, queue-IsValid, keeps_IsValid, set_log_level-IsValid,
  increase_log_level-IsValid, add_observatory_data_port-IsValid,
}

-- execute, before it queues a command for a device path.
abbrev device_changed : World → World
device_changed w = let c = w.config in record w { config = record c { device_path_changed = true } }

queued :
    (f : PortAgentConfig → Bool × PortAgentConfig) (c : PortAgentCommand) (w : World)
    → Keeps f
    → IsValid w
    → same c cmd_unknown ≡ false
    → IsValid (on_config (f (queue c w).config) (queue c w)).1
queued f c w keep v h = on_config-IsValid (queue c w) (queue-IsValid w v c h) f keep

-- Each branch of processCommand keeps the invariant.
execute-IsValid :
    (k : Keyword) (command param : Bytes) (w : World)
    → IsValid w
    → IsValid (execute k command param w).1
unfolding execute command_code
execute-IsValid help command param w v = queue-IsValid w v cmd_help refl
execute-IsValid save_config command param w v = queue-IsValid w v cmd_save_config refl
execute-IsValid get_config command param w v = queue-IsValid w v cmd_get_config refl
execute-IsValid get_state command param w v = queue-IsValid w v cmd_get_state refl
execute-IsValid ping command param w v = queue-IsValid w v cmd_ping refl
execute-IsValid shutdown command param w v = queue-IsValid w v cmd_shutdown refl
execute-IsValid verbose command param w v = increase_log_level-IsValid w v
execute-IsValid log_level command param w v = set_log_level-IsValid w v param
execute-IsValid add_data_port command param w v =
    add_observatory_data_port-IsValid (queue cmd_comm_config_update w)
      (queue-IsValid w v cmd_comm_config_update refl) param
execute-IsValid heartbeat_interval command param w v =
    on_config-IsValid w v (set_heartbeat_interval param) (Ranges.set_heartbeat_interval-Keeps param)
execute-IsValid break command param w v =
    queued (set_instrument_break_duration param) cmd_break w
      (Ranges.set_instrument_break_duration-Keeps param) v refl
execute-IsValid instrument_type command param w v =
    queued (set_instrument_connection_type param) cmd_comm_config_update w
      (Ranges.set_instrument_connection_type-Keeps param) v refl
execute-IsValid observatory_type command param w v =
    queued (set_observatory_connection_type param) cmd_comm_config_update w
      (Ranges.set_observatory_connection_type-Keeps param) v refl
execute-IsValid output_throttle command param w v =
    queued (set_output_throttle param) cmd_comm_config_update w
      (Ranges.set_output_throttle-Keeps param) v refl
execute-IsValid max_packet_size command param w v =
    queued (set_max_packet_size param) cmd_publisher_config_update w
      (Ranges.set_max_packet_size-Keeps param) v refl
execute-IsValid data_port command param w v =
    queued (set_observatory_data_port param) cmd_comm_config_update w
      (Ranges.set_observatory_data_port-Keeps param) v refl
execute-IsValid command_port command param w v =
    queued (set_observatory_command_port param) cmd_comm_config_update w
      (Ranges.set_observatory_command_port-Keeps param) v refl
execute-IsValid instrument_data_port command param w v =
    queued (set_instrument_data_port param) cmd_comm_config_update w
      (Ranges.set_instrument_data_port-Keeps param) v refl
execute-IsValid instrument_data_tx_port command param w v =
    queued (set_instrument_data_tx_port param) cmd_comm_config_update w
      (Ranges.set_instrument_data_tx_port-Keeps param) v refl
execute-IsValid instrument_data_rx_port command param w v =
    queued (set_instrument_data_rx_port param) cmd_comm_config_update w
      (Ranges.set_instrument_data_rx_port-Keeps param) v refl
execute-IsValid instrument_command_port command param w v =
    queued (set_instrument_command_port param) cmd_comm_config_update w
      (Ranges.set_instrument_command_port-Keeps param) v refl
execute-IsValid rotation_interval command param w v =
    queued (set_rotation_interval param) cmd_rotation_interval w
      (Ranges.set_rotation_interval-Keeps param) v refl
execute-IsValid telnet_sniffer_port command param w v =
    queued (set_telnet_sniffer_port param) cmd_publisher_config_update w
      (Ranges.set_telnet_sniffer_port-Keeps param) v refl
execute-IsValid sentinle command param w v =
    queued (set_sentinle_sequence command) cmd_publisher_config_update w
      (Ranges.set_sentinle_sequence-Keeps command) v refl
execute-IsValid device_path command param w v =
    queued (set_device_path param) cmd_comm_config_update (device_changed w)
      (Ranges.set_device_path-Keeps param) (keeps_IsValid w v _ v.ranges refl) refl
execute-IsValid baud command param w v =
    queued (set_baud param) cmd_comm_config_update (serial_changed w) (Ranges.set_baud-Keeps param)
      (keeps_IsValid w v _ v.ranges refl) refl
execute-IsValid stopbits command param w v =
    queued (set_stopbits param) cmd_comm_config_update (serial_changed w)
      (Ranges.set_stopbits-Keeps param) (keeps_IsValid w v _ v.ranges refl) refl
execute-IsValid databits command param w v =
    queued (set_databits param) cmd_comm_config_update (serial_changed w)
      (Ranges.set_databits-Keeps param) (keeps_IsValid w v _ v.ranges refl) refl
execute-IsValid parity command param w v =
    queued (set_parity param) cmd_comm_config_update (serial_changed w)
      (Ranges.set_parity-Keeps param) (keeps_IsValid w v _ v.ranges refl) refl
execute-IsValid flow command param w v =
    queued (set_flow param) cmd_comm_config_update (serial_changed w) (Ranges.set_flow-Keeps param)
      (keeps_IsValid w v _ v.ranges refl) refl
execute-IsValid log_dir command param w v = record {
  ranges = v.ranges;
  commands_apart = v.commands_apart;
  ports_apart = v.ports_apart;
  level_fits = v.level_fits;
}
execute-IsValid pid_dir command param w v =
    keeps_IsValid (queue cmd_path_config_update w) (queue-IsValid w v cmd_path_config_update refl) _
      v.ranges refl
execute-IsValid data_dir command param w v =
    keeps_IsValid (queue cmd_path_config_update w) (queue-IsValid w v cmd_path_config_update refl) _
      v.ranges refl
execute-IsValid conf_dir command param w v =
    keeps_IsValid (queue cmd_path_config_update w) (queue-IsValid w v cmd_path_config_update refl) _
      v.ranges refl
execute-IsValid instrument_addr command param w v =
    keeps_IsValid (queue cmd_comm_config_update w) (queue-IsValid w v cmd_comm_config_update refl) _
      v.ranges refl
execute-IsValid telnet_sniffer_prefix command param w v =
    keeps_IsValid (queue cmd_publisher_config_update w)
      (queue-IsValid w v cmd_publisher_config_update refl) _ v.ranges refl
execute-IsValid telnet_sniffer_suffix command param w v =
    keeps_IsValid (queue cmd_publisher_config_update w)
      (queue-IsValid w v cmd_publisher_config_update refl) _ v.ranges refl

run_keyword-IsValid :
    (k : Option Keyword) (command param : Bytes) (w : World)
    → IsValid w
    → IsValid (run_keyword k command param w).1
run_keyword-IsValid none command param w v = v
run_keyword-IsValid (some k) command param w v = execute-IsValid k command param w v

-- processCommand keeps the invariant, whatever the line.
pub process_command-IsValid :
    (command : Bytes) (w : World) → IsValid w → IsValid (process_command command w).1
unfolding process_command
process_command-IsValid command w v =
    let (cmd, param) = split_command command in
    run_keyword-IsValid (or_else (whole_line command) (first_token cmd)) command param w v
