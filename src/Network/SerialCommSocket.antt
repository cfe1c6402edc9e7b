-- ===== src/Network/SerialCommSocket.antt =====
-- network/serial_comm_socket.h and serial_comm_socket.cxx: class SerialCommSocket. The
-- attributes of the terminal are what tcsetattr is given, as a record of choices.
use port_agent.Prelude.{◌==◌, if◌then◌else◌, Bytes, codes, ℤ, pos, u16, ℕ, Bool, true, not, ◌||◌}
use port_agent.Network.CommSocket.{CommSocket, new_socket}
use port_agent.Network.{
  FlagChange, keeps, clears, sets, Parity, parity_none, parity_odd, parity_even, LineSettings,
  close_fd, open_device, apply_settings, break_line, wait, Kernel, socket_write_failure,
  device_open_failure, M, ◌>>=◌, ◌>>◌, give, raise, this, modify, call, perform, descriptor,
  is_positive, is_set, when, is_failure, write_rounds,
}

pub record SerialCommSocket : Type 0 where
  pub socket : CommSocket  -- the base class
  pub is_configured : Bool  -- bIsConfigured, which the constructor does not set
  pub device_path : Bytes
  pub baud : ℕ  -- the rate of the termios constant
  pub flow_control : ℕ  -- uint16_t
  pub stop_bits : ℕ  -- uint16_t
  pub data_bits : ℕ  -- uint16_t
  pub parity : ℕ  -- uint16_t

-- SerialCommSocket(); `junk` is what the memory held.
unfoldable pub new_serial : (junk : Bool) → SerialCommSocket
unfolding new_socket
new_serial junk = record {
  socket = new_socket;
  is_configured = junk;
  device_path = codes "devicePath not initialized!";
  baud = 9600;
  flow_control = 0;
  stop_bits = 1;
  data_bits = 8;
  parity = 0;
}

unfoldable pub set_serial_path : Bytes → SerialCommSocket → SerialCommSocket
set_serial_path path s = record s { device_path = path }

-- The rates that setBaud has a constant for.
unfoldable pub known_baud : ℕ → Bool
known_baud rate =
    (rate == 1200)
    || ((rate == 2400)
        || ((rate == 4800)
            || ((rate == 9600)
                || ((rate == 19200)
                    || ((rate == 38400) || ((rate == 57600) || (rate == 115200)))))))

unfoldable pub set_serial_baud : ℕ → SerialCommSocket → SerialCommSocket
unfolding known_baud
set_serial_baud rate s = if known_baud rate then record s { baud = rate } else s

unfoldable pub set_serial_flow : ℕ → SerialCommSocket → SerialCommSocket
set_serial_flow flow s = record s { flow_control = u16 flow }

unfoldable pub set_serial_stop_bits : ℕ → SerialCommSocket → SerialCommSocket
set_serial_stop_bits bits s = record s { stop_bits = u16 bits }

-- setDataBits and setParity assign the member of the stop bits.
unfoldable pub set_serial_data_bits : ℕ → SerialCommSocket → SerialCommSocket
set_serial_data_bits bits s = record s { stop_bits = u16 bits }

unfoldable pub set_serial_parity : ℕ → SerialCommSocket → SerialCommSocket
set_serial_parity parity s = record s { stop_bits = u16 parity }

abbrev pub serial_connected : SerialCommSocket → Bool
serial_connected s = is_positive s.socket.socket_fd

-- The choice of the flow control: the flags that it changes, CRTSCTS and IXON, are those of
-- c_lflag.
unfoldable pub crtscts_of : ℕ → FlagChange
crtscts_of f = if f == 0 then clears else if f == 1 then sets else if f == 2 then clears else keeps

unfoldable pub ixon_of : ℕ → FlagChange
ixon_of f = if f == 0 then keeps else if f == 1 then keeps else if f == 2 then sets else keeps

unfoldable pub parity_of : ℕ → Parity
parity_of p = if p == 1 then parity_odd else if p == 2 then parity_even else parity_none

unfoldable pub line_settings : SerialCommSocket → LineSettings
unfolding crtscts_of ixon_of parity_of
line_settings s = record {
  rate = s.baud;
  bits =
      if (s.data_bits == 5) || ((s.data_bits == 6) || (s.data_bits == 7)) then s.data_bits else 8;
  parity_bits = parity_of s.parity;
  two_stop_bits = s.stop_bits == 2;
  local_crtscts = crtscts_of s.flow_control;
  local_ixon = ixon_of s.flow_control;
  control_crtscts = keeps;
  input_ixon = clears;
}

unfoldable pub with_device : ℤ → SerialCommSocket → SerialCommSocket
with_device fd s = let b = s.socket in record s { socket = record b { socket_fd = fd } }

module _ (k : Kernel) where
  -- initialize
  unfoldable pub open_serial : M SerialCommSocket Bool
  open_serial = do
    s ← this
    when (is_set s.socket.socket_fd) (perform k (close_fd s.socket.socket_fd))
    r ← call k (open_device s.device_path)
    modify (with_device (descriptor r))
    when (is_failure r) (do perform k wait; raise device_open_failure)
    give true

  -- initializeSerialSettings. The rates of setBaud are accepted by cfsetispeed.
  unfoldable pub initialize_serial_settings : M SerialCommSocket Bool
  unfolding line_settings
  initialize_serial_settings = do
    s ← this
    r ← call k (apply_settings s.socket.socket_fd (line_settings s))
    modify (λ s. record s { is_configured = not (is_failure r) })
    give (not (is_failure r))

  -- writeData, on fuel.
  unfoldable pub write_serial : (fuel : ℕ) → Bytes → M SerialCommSocket ℕ
  unfolding write_rounds
  write_serial fuel buffer = do
    s ← this
    when (not (serial_connected s)) (raise socket_write_failure)
    write_rounds k fuel s.socket.socket_fd (with_device (pos 0)) buffer 0

  -- sendBreak, which takes a positive answer for a failure; tcsendbreak gives 0 or -1.
  unfoldable pub send_serial_break : (duration : ℕ) → M SerialCommSocket Bool
  send_serial_break duration = do
    s ← this
    r ← call k (break_line s.socket.socket_fd duration)
    give (not (is_positive (descriptor r)))
