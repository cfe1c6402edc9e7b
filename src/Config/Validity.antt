-- ===== src/Config/Validity.antt =====
-- The invariant of a configuration, its data ports and the logger's level.
use port_agent.Prelude.{
  ℕ, ◌≤◌, ◌<◌, ◌≡◌, refl, sym, subst, arith, Bool, true, false, if◌then◌else◌, Bytes, bytes_eq,
  codes, Option, none, some, ℤ, pos, negsuc,
}
use port_agent.Config.{
  PortAgentConfig, World, PortAgentCommand, CommandQueue, cmd_unknown, add_command,
}
use port_agent.Config.Text.{atoi, to_upper}
use port_agent.Config.Ranges.{Ranges, Keeps}
use port_agent.Config.Queue.{Distinct, Known, same, enqueue-Distinct}
use port_agent.Config.Ports.{DistinctPorts, ArePorts, add_port-Distinct}
use port_agent.Config.Setters.{add_observatory_data_port, register_port, port_of}
use port_agent.Config.Values.{
  set_log_level, set_logger_level, increase_log_level, level_from_string,
}
use port_agent.Config.Commands.{on_config, queue}

-- The queue holds no command twice, and none that getCommand's "none" could be taken for.
abbrev pub IsQueue : CommandQueue → Type 0
IsQueue q = Distinct q × Known q

pub record IsValid (w : World) : Type 0 where
  pub ranges : Ranges w.config
  pub commands_apart : IsQueue w.config.commands
  pub ports_apart : DistinctPorts w.data_ports.ports × ArePorts w.data_ports.ports
  pub level_fits : w.log_level ≤ 7

data Fits : Option ℕ → Type 0 where
  no_level : Fits none
  level : (n : ℕ) → n ≤ 7 → Fits (some n)

one-Fits :
    (b : Bool) (n : ℕ) (rest : Option ℕ) → n ≤ 7 → Fits rest → Fits (if b then some n else rest)
one-Fits true n rest h f = level n h
one-Fits false n rest h f = f

level_from_string-Fits : (s : Bytes) → Fits (level_from_string s)
unfolding level_from_string
level_from_string-Fits s = one-Fits _ 7 _ (omega arith) (
    one-Fits _ 6 _ (omega arith) (
      one-Fits _ 5 _ (omega arith) (
        one-Fits _ 4 _ (omega arith) (
          one-Fits _ 3 _ (omega arith) (
            one-Fits _ 2 _ (omega arith)
              (one-Fits _ 1 _ (omega arith) (one-Fits _ 0 _ (omega arith) no_level)))))))

port_of-bounds : (z : ℤ) (p : ℕ) → port_of z ≡ some p → (0 < p) × (p < 65536)
unfolding port_of
port_of-bounds (pos n) p h = ground arith
port_of-bounds (negsuc n) p h = cc

module _ (w : World) (v : IsValid w) where
  pub on_config-IsValid :
      (f : PortAgentConfig → Bool × PortAgentConfig)
      → Keeps f
      → IsValid (on_config (f w.config) w).1
  on_config-IsValid f keep =
      let (r, same_queue) = keep w.config v.ranges in
      record {
        ranges = r;
        commands_apart = subst IsQueue (sym same_queue) v.commands_apart;
        ports_apart = v.ports_apart;
        level_fits = v.level_fits;
      }

  pub queue-IsValid : (c : PortAgentCommand) → same c cmd_unknown ≡ false → IsValid (queue c w)
  unfolding add_command
  queue-IsValid c h = record {
    ranges = v.ranges;
    commands_apart = enqueue-Distinct c w.config.commands v.commands_apart h;
    ports_apart = v.ports_apart;
    level_fits = v.level_fits;
  }

  register_port-IsValid :
      (o : Option ℕ)
      → ((p : ℕ) → o ≡ some p → (0 < p) × (p < 65536))
      → IsValid (register_port o w).1
  unfolding register_port
  register_port-IsValid none h = record {
    ranges = ground (arith, v.ranges);
    commands_apart = v.commands_apart;
    ports_apart = v.ports_apart;
    level_fits = v.level_fits;
  }
  register_port-IsValid (some p) h = record {
    ranges = ground (arith, v.ranges, h p refl);
    commands_apart = v.commands_apart;
    ports_apart = add_port-Distinct p w.data_ports (h p refl).0 (h p refl).1 v.ports_apart;
    level_fits = v.level_fits;
  }

  -- A field that no invariant reads.
  pub keeps_IsValid :
      (c : PortAgentConfig)
      → Ranges c
      → c.commands ≡ w.config.commands
      → IsValid (record w { config = c })
  keeps_IsValid c r e = record {
    ranges = r;
    commands_apart = subst IsQueue (sym e) v.commands_apart;
    ports_apart = v.ports_apart;
    level_fits = v.level_fits;
  }

  set_logger_level-IsValid : (o : Option ℕ) → Fits o → IsValid (set_logger_level o w).1
  set_logger_level-IsValid none f = v
  set_logger_level-IsValid (some n) (level _ h) = record {
    ranges = v.ranges;
    commands_apart = v.commands_apart;
    ports_apart = v.ports_apart;
    level_fits = h;
  }

  pub set_log_level-IsValid : (p : Bytes) → IsValid (set_log_level p w).1
  unfolding set_log_level
  set_log_level-IsValid p =
      let str = to_upper p in
      let name = if bytes_eq str (codes "WARN") then codes "WARNING" else str in
      set_logger_level-IsValid (level_from_string name) (level_from_string-Fits name)

  pub increase_log_level-IsValid : IsValid (increase_log_level w)
  unfolding increase_log_level
  increase_log_level-IsValid = record {
    ranges = v.ranges;
    commands_apart = v.commands_apart;
    ports_apart = v.ports_apart;
    level_fits = ground arith;
  }

  pub add_observatory_data_port-IsValid : (p : Bytes) → IsValid (add_observatory_data_port p w).1
  unfolding add_observatory_data_port
  add_observatory_data_port-IsValid p =
      register_port-IsValid (port_of (atoi p)) (port_of-bounds (atoi p))
