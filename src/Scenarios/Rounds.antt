-- ===== src/Scenarios/Rounds.antt =====
-- An agent that has just started, and one whose command port is changed.
use port_agent.Prelude.{if◌then◌else◌, u16, ◌==◌, pos, ◌≡◌, ◌↔◌, refl, false, none, some, []}
use port_agent.Config.{PortAgentConfig, daily, defaults}
use port_agent.Network.{
  parity_none, keeps, clears, sets, Outcome, done, thrown, unfinished, ◌>>=◌, ◌>>◌, when, of_member,
}
use port_agent.Connection.Observatory.{ObservatoryConnection, new_observatory}
use port_agent.Network.SerialCommSocket.{new_serial, known_baud, line_settings}
use port_agent.Session.Instruments.{apply_serial_config}
use port_agent.Session.Lines.{line_settings-apply_serial_config}
use port_agent.Agent.{PortAgentState, state_unknown, state_unconfigured, state_startup, Agent}
use port_agent.Session.{no_instrument, no_observatory, Session}
use port_agent.Session.Poll.{poll}
use port_agent.Scenarios.Configs.{start}
use port_agent.Scenarios.Listeners.{lively}

abbrev pub new_agent : Agent
new_agent = record {
  state = state_startup;
  world = start;
  publishers = [];
  has_instrument = false;
  last_heartbeat = 0;
  effects = [];
}

abbrev pub new_session : Session
new_session = record {
  agent = new_agent;
  instrument = no_instrument;
  observatory = no_observatory;
  data_listeners = [];
  sniffer = none;
}

abbrev state_after : Outcome Session (Unit {0}) → PortAgentState
state_after (done a s h) = let b = s.agent in b.state
state_after (thrown e s h) = state_unknown
state_after unfinished = state_unknown

first_round :
    state_after (poll lively false [] [] (λ fds. some []) 1000 new_session []) ≡ state_unconfigured
unfolding poll ◌>>=◌ ◌>>◌ when of_member defaults
first_round = refl

abbrev listening_connection : ObservatoryConnection
listening_connection = record new_observatory {
  command_socket = record { blocking = false; port = 4000; server_fd = pos 5; client_fd = pos 0 };
}

-- Seven data bits, even parity and one stop bit are asked for.
abbrev seven_even : PortAgentConfig
seven_even = record (defaults daily 0) { baud = 19200; databits = 7; parity = 2; flow = 1 }

line_settings-apply_serial_config_example :
    let t = apply_serial_config seven_even (new_serial false) in
    let l = line_settings t in
    (t.data_bits ≡ 8)
    × (t.parity ≡ 0)
    × (l.bits ≡ 8)
    × (l.parity_bits ≡ parity_none)
    × (l.rate ≡ (if known_baud 19200 then 19200 else 9600))
    × (l.control_crtscts ≡ keeps)
    × (l.input_ixon ≡ clears)
    × ((l.local_crtscts ≡ sets) ↔ (u16 1 ≡ 1))
    × ((l.local_ixon ≡ sets) ↔ (u16 1 ≡ 2))
    × (l.two_stop_bits ≡ (u16 2 == 2))
unfolding new_serial
line_settings-apply_serial_config_example =
    line_settings-apply_serial_config seven_even (new_serial false) refl refl
