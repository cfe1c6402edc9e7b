-- ===== src/Config/Values.antt =====
-- The set methods of numbers, of the log level and of the names of an interval.
use port_agent.Prelude.{
  ℕ, ◌+◌, Bool, true, false, ◌&&◌, ◌||◌, not, if◌then◌else◌, ltb, ◌==◌, Bytes, codes, bytes_eq,
  length, Option, none, some, ℤ, pos, negsuc, to_u32, u16,
}
use port_agent.Config.{
  PortAgentConfig, World, default_packet_size, greatest_packet_size, daily, hourly, quarter_hourly,
  minute,
}
use port_agent.Config.Text.{atoi, first_char, to_upper}

-- `value == 0 && v[0] != '0'`
abbrev pub not_a_number : ℤ → Bytes → Bool
not_a_number (pos n) v = (n == 0) && not (first_char v == 48)
not_a_number (negsuc n) v = false

abbrev pub throttle_of : ℤ → Bool × ℕ
throttle_of (pos n) = (true, n)
throttle_of (negsuc n) = (false, 0)

unfoldable pub set_output_throttle : Bytes → PortAgentConfig → Bool × PortAgentConfig
set_output_throttle param c =
    if not_a_number (atoi param) param
    then (false, record c { output_throttle = 0 })
    else (let (done, value) = throttle_of (atoi param) in
        (done, record c { output_throttle = value }))

-- The interval is an int, and the member 16 bits wide.
unfoldable pub set_heartbeat_interval : Bytes → PortAgentConfig → Bool × PortAgentConfig
set_heartbeat_interval param c =
    if not_a_number (atoi param) param
    then (false, c)
    else (let (done, value) = throttle_of (atoi param) in
        (done, record c { heartbeat_interval = u16 value }))

-- setMaxPacketSize: a size that is not positive or too large is the default.
abbrev pub packet_size_of : ℤ → Option ℕ
packet_size_of (pos n) = if (n == 0) || ltb greatest_packet_size n then none else some n
packet_size_of (negsuc n) = none

abbrev pub take_size : Option ℕ → PortAgentConfig → Bool × PortAgentConfig
take_size none c = (false, record c { max_packet_size = default_packet_size })
take_size (some size) c = (true, record c { max_packet_size = size })

unfoldable pub set_max_packet_size : Bytes → PortAgentConfig → Bool × PortAgentConfig
set_max_packet_size param c = take_size (packet_size_of (atoi param)) c

-- Logger::levelFromString
unfoldable pub level_from_string : Bytes → Option ℕ
level_from_string s =
    if bytes_eq s (codes "MESG")
    then some 7
    else if bytes_eq s (codes "DEBUG3")
    then some 6
    else if bytes_eq s (codes "DEBUG2")
    then some 5
    else if bytes_eq s (codes "DEBUG1")
    then some 4
    else if bytes_eq s (codes "DEBUG")
    then some 3
    else if bytes_eq s (codes "INFO")
    then some 2
    else if bytes_eq s (codes "WARNING")
    then some 1
    else if bytes_eq s (codes "ERROR")
    then some 0
    else none

-- Logger::SetLogLevel, which leaves the level where the name is unknown. The logger does not
-- raise its errors.
abbrev pub set_logger_level : Option ℕ → World → Bool × World
set_logger_level none w = (false, w)
set_logger_level (some level) w = (true, record w { log_level = level })

unfoldable pub set_log_level : Bytes → World → Bool × World
set_log_level param w =
    let str = to_upper param in
    set_logger_level
      (level_from_string (if bytes_eq str (codes "WARN") then codes "WARNING" else str)) w

-- Logger::IncreaseLogLevel(1)
unfoldable pub increase_log_level : World → World
increase_log_level w = record w {
  log_level = if ltb 7 (w.log_level + 1) then 7 else w.log_level + 1;
}

unfoldable pub set_device_path : Bytes → PortAgentConfig → Bool × PortAgentConfig
set_device_path param c =
    if length param == 0 then (false, c) else (true, record c { device_path = param })

abbrev pub is_baud : ℕ → Bool
is_baud b =
    (b == 1200)
    || (b == 2400)
    || (b == 4800)
    || (b == 9600)
    || (b == 19200)
    || (b == 38400)
    || (b == 57600)
    || (b == 115200)

unfoldable pub set_baud : Bytes → PortAgentConfig → Bool × PortAgentConfig
set_baud param c =
    let baud = to_u32 (atoi param) in
    if is_baud baud then (true, record c { baud = baud }) else (false, record c { baud = 0 })

unfoldable pub set_stopbits : Bytes → PortAgentConfig → Bool × PortAgentConfig
set_stopbits param c =
    let bits = to_u32 (atoi param) in
    if (bits == 1) || (bits == 2)
    then (true, record c { stopbits = bits })
    else (false, record c { stopbits = 1 })

unfoldable pub set_databits : Bytes → PortAgentConfig → Bool × PortAgentConfig
set_databits param c =
    let bits = to_u32 (atoi param) in
    if (bits == 5) || (bits == 6) || (bits == 7) || (bits == 8)
    then (true, record c { databits = bits })
    else (false, record c { databits = 8 })

-- The test that setParity and setFlow share.
abbrev pub refused_choice : (first value : ℕ) → Bool
refused_choice first value =
    (not (first == 48) && (value == 0))
    || (not (value == 0) && not (value == 1) && not (value == 2))

unfoldable pub set_parity : Bytes → PortAgentConfig → Bool × PortAgentConfig
set_parity param c =
    let parity = to_u32 (atoi param) in
    if refused_choice (first_char param) parity
    then (false, record c { parity = 0 })
    else (true, record c { parity = parity })

unfoldable pub set_flow : Bytes → PortAgentConfig → Bool × PortAgentConfig
set_flow param c =
    let flow = to_u32 (atoi param) in
    if refused_choice (first_char param) flow
    then (false, record c { flow = 0 })
    else (true, record c { flow = flow })

unfoldable pub set_rotation_interval : Bytes → PortAgentConfig → Bool × PortAgentConfig
set_rotation_interval param c =
    if bytes_eq param (codes "daily")
    then (true, record c { rotation_interval = daily })
    else if bytes_eq param (codes "hourly")
    then (true, record c { rotation_interval = hourly })
    else if bytes_eq param (codes "quarter_hourly")
    then (true, record c { rotation_interval = quarter_hourly })
    else if bytes_eq param (codes "minute")
    then (true, record c { rotation_interval = minute })
    else (false, record c { rotation_interval = daily })
