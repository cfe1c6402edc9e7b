-- ===== src/Scenarios/Publishers.antt =====
-- A list with a log file and the driver's command port, and a slow peer.
use port_agent.Prelude.{
  ℕ, ◌≡◌, ◌↔◌, ◌/◌, refl, arith, true, false, if◌then◌else◌, ltb, codes, [], ◌∷◌, List, Option,
  some, none, take,
}
use port_agent.Config.{daily, quarter_hourly}
use port_agent.Packet.{data_from_instrument, port_agent_heartbeat, unknown}
use port_agent.Packet.PortAgentPacket.{PortAgentPacket, construct, new_packet, ok}
use port_agent.Scenarios.Packets.{zeros, now}
use port_agent.Publisher.{
  publisher_driver_command, publisher_file, publisher_instrument_command, publisher_code,
  tcp_comm_listener, Publisher, LogFile, compare, PacketView, view, returned, raised,
  unknown_packet_type, packet_publish_failure, write, write_loop,
}
use port_agent.Publisher.Routing.{Surroundings, publish, handler, log_packet}
use port_agent.Publisher.PublisherList.{add, add_publisher, has_duplicate, is_unique}
use port_agent.Publisher.Writing.{Bounded, Patient, Sends, write-Sends, write_all}
use port_agent.Publisher.Delivery.{publish-construct}
use port_agent.Publisher.Ordering.{IsOrdered}
use port_agent.Publisher.Adding.{add-IsOrdered}
use port_agent.Publisher.Rotation.{LocalTime, get_filename}
use port_agent.Publisher.Rotation.Periods.{rolling, seconds_of_day, period, get_filename_iff}

abbrev no_file : LogFile
no_file = record { file_name = []; file_base = []; file_extention = []; rotation = daily }

abbrev driver : Publisher
driver = record {
  publisher_type = publisher_driver_command;
  ascii_out = false;
  error = none;
  comm_socket = some (tcp_comm_listener 4001);
  file_pointer = none;
  log_file = no_file;
  prefix = [];
  suffix = [];
}

abbrev log : Publisher
log = record driver { publisher_type = publisher_file; comm_socket = none }

-- Two bytes an attempt.
abbrev slow : ℕ → ℕ → Option ℕ
slow attempt offered = some (if ltb offered 2 then offered else 2)

slow-Bounded : Bounded slow
slow-Bounded i n k h = ground arith

-- Two bytes at first, and all from the third attempt on.
abbrev late : ℕ → ℕ → Option ℕ
late attempt offered =
    some (if ltb attempt 2 then (if ltb offered 2 then offered else 2) else offered)

late-Bounded : Bounded late
late-Bounded i n k h = ground arith

late-Patient : Patient late
late-Patient = (λ i n. (if ltb i 2 then (if ltb n 2 then n else 2) else n, refl), λ n. refl)

-- Six bytes are sent of seven.
six_of_seven :
    write slow driver (codes "restart") 7 ≡ (codes "restar", raised packet_publish_failure)
unfolding write write_loop
six_of_seven = refl

write-Sends_example : Sends (codes "restart") 7 (write slow driver (codes "restart") 7)
write-Sends_example =
    write-Sends slow driver (codes "restart") 7 slow-Bounded refl (λ e. omega (arith, e))

write_all_example :
    write late driver (codes "restart") 7 ≡ (take 7 (codes "restart"), returned true)
write_all_example =
    write_all late driver (codes "restart") 7 late-Bounded late-Patient refl (λ e. omega (arith, e))

abbrev env : Surroundings
env = record { device = λ call. late; connected = true; junk = true }

abbrev reading : PortAgentPacket
reading = new_packet zeros now data_from_instrument (some (codes "hey")) 3

reading_made : construct zeros now data_from_instrument now (some (codes "hey")) 3 ≡ ok reading
unfolding construct port_agent.Packet.type_code
reading_made = refl

publish-construct_example :
    publish env driver (view (λ p. []) reading)
    ≡ ([], false, record driver { error = some unknown_packet_type })
publish-construct_example =
    publish-construct zeros now data_from_instrument now (some (codes "hey")) 3 reading (λ p. [])
      env driver reading_made

abbrev both : List Publisher
both = log ∷ driver ∷ []

abbrev seen : PacketView
seen = record {
  packet_type = data_from_instrument;
  packet_size = 4;
  bytes = codes "data";
  payload = [];
  payload_size = 0;
  ascii = [];
}

alone-IsOrdered : IsOrdered (driver ∷ [])
alone-IsOrdered = record { files_first = (λ n. tt, tt); apart = (tt, tt) }

add-IsOrdered_example : IsOrdered (add log (driver ∷ [])).1
add-IsOrdered_example = add-IsOrdered log (driver ∷ []) alone-IsOrdered

file_in_front : add log (driver ∷ []) ≡ (none, both)
unfolding add add_publisher has_duplicate is_unique publisher_code compare
file_in_front = refl

-- The heartbeat of the agent goes to the instrument's command port.
heartbeat_to_instrument : handler publisher_instrument_command port_agent_heartbeat ≡ log_packet
unfolding handler
heartbeat_to_instrument = refl

abbrev before : LocalTime
before = record { year = 2014; month = 3; day = 7; hour = 10; min = 44; sec = 59 }

abbrev after : LocalTime
after = record { year = 2014; month = 3; day = 7; hour = 10; min = 45; sec = 0 }

quarter_name :
    get_filename (rolling 47 (codes "pa") (codes "data") quarter_hourly) before
    ≡ some (codes "/pa.20140307_103000.data")
unfolding get_filename
quarter_name = refl

-- The name changes at a quarter to eleven.
get_filename_iff_example :
    (get_filename (rolling 47 (codes "pa") (codes "data") quarter_hourly) before
      ≡ get_filename (rolling 47 (codes "pa") (codes "data") quarter_hourly) after)
    ↔ ((before.year ≡ after.year)
        × (before.month ≡ after.month)
        × (before.day ≡ after.day)
        × (seconds_of_day before / period quarter_hourly
            ≡ seconds_of_day after / period quarter_hourly))
get_filename_iff_example =
    get_filename_iff 47 (codes "pa") (codes "data") quarter_hourly before after
      (record { hour_fits = omega arith; min_fits = omega arith; sec_fits = omega arith })
      (record { hour_fits = omega arith; min_fits = omega arith; sec_fits = omega arith })
