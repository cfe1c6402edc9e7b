-- ===== src/Network/CommSocket.antt =====
-- network/comm_socket.cxx, tcp_comm_socket.cxx and udp_comm_socket.cxx: the sockets that connect
-- to a server. One record has the members of CommBase, of CommSocket and of both subclasses.
pub mod Connecting
use port_agent.Prelude.{
  ltb, ◌==◌, if◌then◌else◌, Bytes, length, ℤ, pos, u16, ℕ, Bool, true, false, not, ◌&&◌, ◌||◌, [],
}
use port_agent.Network.{
  eagain, einprogress, socket_stream, socket_datagram, get_host, connect_to, set_nonblocking,
  shut_down, close_fd, read_from, send_to, Kernel, socket_create_failure, socket_host_failure,
  socket_connect_failure, socket_read_failure, socket_write_failure, socket_missing_config,
  socket_not_initialized, not_implemented, M, ◌>>=◌, ◌>>◌, give, raise, this, modify, call, perform,
  descriptor, is_positive, is_set, when, is_failure, fails_with, bytes_of, is_zero, write_rounds,
}

pub record CommSocket : Type 0 where
  pub blocking : Bool
  pub is_connected : Bool  -- m_bConnected
  pub hostname : Bytes
  pub port : ℕ  -- uint16_t
  pub socket_fd : ℤ

-- TCPCommSocket() and UDPCommSocket()
unfoldable pub new_socket : CommSocket
new_socket = record {
  blocking = false;
  is_connected = false;
  hostname = [];
  port = 0;
  socket_fd = pos 0;
}

-- The copy constructors of both subclasses. They construct the base class anew.
unfoldable pub copy_socket : CommSocket → CommSocket
unfolding new_socket
copy_socket rhs = record new_socket { hostname = rhs.hostname; port = rhs.port }

-- Their operator=, which keeps the descriptor of the object.
unfoldable pub assign_socket : CommSocket → CommSocket → CommSocket
assign_socket s rhs = record s { hostname = rhs.hostname; port = rhs.port }

unfoldable pub set_socket_port : ℕ → CommSocket → CommSocket
set_socket_port port s = record s { port = u16 port }

unfoldable pub set_hostname : Bytes → CommSocket → CommSocket
set_hostname hostname s = record s { hostname = hostname }

abbrev pub socket_connected : CommSocket → Bool
socket_connected s = is_positive s.socket_fd

unfoldable pub socket_configured : CommSocket → Bool
socket_configured s = not (length s.hostname == 0) && ltb 0 s.port

module _ (k : Kernel) where
  -- CommSocket::disconnect
  unfoldable pub disconnect_socket : M CommSocket Bool
  disconnect_socket = do
    s ← this
    when (is_set s.socket_fd) (do
      perform k (shut_down s.socket_fd)
      perform k (close_fd s.socket_fd)
      modify (λ s. record s { socket_fd = pos 0; is_connected = false }))
    give true

  -- TCPCommSocket::initialize. The descriptor is stored before the host is looked up.
  unfoldable pub initialize_tcp : M CommSocket Bool
  unfolding socket_configured
  initialize_tcp = do
    s ← this
    when (not (socket_configured s)) (raise socket_missing_config)
    r ← call k socket_stream
    modify (λ s. record s { socket_fd = descriptor r })
    when (is_zero (descriptor r)) (raise socket_create_failure)
    server ← call k (get_host s.hostname)
    when (is_failure server) (raise socket_host_failure)
    retval ← call k (connect_to (descriptor r) (bytes_of server) s.port)
    when (is_failure retval && not (fails_with einprogress retval)) (raise socket_connect_failure)
    when (not s.blocking) (perform k (set_nonblocking (descriptor r)))
    modify (λ s. record s { is_connected = true })
    give true

  -- UDPCommSocket::initialize. The address that gethostbyname gives is its bytes.
  unfoldable pub initialize_udp : M CommSocket Bool
  unfolding socket_configured
  initialize_udp = do
    s ← this
    when (not (socket_configured s)) (raise socket_missing_config)
    r ← call k socket_datagram
    when (is_zero (descriptor r)) (raise socket_create_failure)
    server ← call k (get_host s.hostname)
    when (length (bytes_of server) == 0) (raise socket_host_failure)
    when (not s.blocking) (perform k (set_nonblocking (descriptor r)))
    modify (λ s. record s { socket_fd = descriptor r })
    give true

  -- CommSocket::writeData, on fuel. A failed write forgets the descriptor without closing it.
  unfoldable pub write_socket : (fuel : ℕ) → Bytes → M CommSocket ℕ
  unfolding write_rounds
  write_socket fuel buffer = do
    s ← this
    when (not (socket_connected s)) (raise socket_write_failure)
    write_rounds k fuel s.socket_fd (λ s. record s { socket_fd = pos 0 }) buffer 0

  -- CommSocket::readData: the bytes that are put into the caller's buffer.
  unfoldable pub read_socket : (size : ℕ) → M CommSocket Bytes
  unfolding disconnect_socket
  read_socket size = do
    s ← this
    when (not (socket_connected s)) (raise socket_read_failure)
    r ← call k (read_from s.socket_fd size)
    if is_failure r
        then (if fails_with eagain r || fails_with einprogress r
            then give []
            else (do disconnect_socket; raise socket_read_failure))
        else (do when (length (bytes_of r) == 0) (do disconnect_socket; give tt); give (bytes_of r))

  -- UDPCommSocket::writeData
  unfoldable pub write_udp : Bytes → M CommSocket ℕ
  write_udp buffer = do
    s ← this
    when (not (socket_connected s)) (raise socket_not_initialized)
    server ← call k (get_host s.hostname)
    when (length (bytes_of server) == 0) (raise socket_host_failure)
    r ← call k (send_to s.socket_fd buffer (bytes_of server) s.port)
    when (is_failure r) (raise socket_write_failure)
    give (length buffer)

-- UDPCommSocket::readData
unfoldable pub read_udp : (size : ℕ) → M CommSocket Bytes
read_udp size = raise not_implemented
