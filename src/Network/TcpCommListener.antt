-- ===== src/Network/TcpCommListener.antt =====
-- network/tcp_comm_listener.h and tcp_comm_listener.cxx: class TCPCommListener, with the members
-- of CommBase.
pub mod Binding
pub mod Clients
pub mod Accepting
pub mod Reading
pub mod Stalling
use port_agent.Prelude.{
  ltb, ◌==◌, if◌then◌else◌, Bytes, length, ℤ, pos, u16, ℕ, zero, suc, Bool, true, false, not, ◌&&◌,
  ◌||◌, [],
}
use port_agent.Network.{
  eagain, einprogress, etimedout, eaddrinuse, socket_stream, reuse_address, bind_port, listen_on,
  accept_from, set_nonblocking, socket_port, close_fd, read_from, elapsed, wait, Kernel,
  socket_create_failure, socket_connect_failure, socket_read_failure, socket_not_connected,
  socket_already_connected, socket_not_initialized, unfinished, M, ◌>>=◌, ◌>>◌, give, raise, this,
  modify, call, perform, now, descriptor, is_positive, is_set, when, number, is_failure, fails_with,
  bytes_of, is_zero, write_rounds,
}

pub record TcpCommListener : Type 0 where
  pub blocking : Bool
  pub port : ℕ  -- uint16_t
  pub server_fd : ℤ
  pub client_fd : ℤ

-- TCPCommListener::TCPCommListener()
unfoldable pub new_listener : TcpCommListener
new_listener = record { blocking = false; port = 0; server_fd = pos 0; client_fd = pos 0 }

-- The copy constructor. CommBase's copies nothing: `junk` is what the memory held.
unfoldable pub copy_listener : (junk : Bool) → TcpCommListener → TcpCommListener
copy_listener junk rhs = record rhs { blocking = junk }

-- operator=, which assigns nothing.
unfoldable pub assign_listener : TcpCommListener → TcpCommListener → TcpCommListener
assign_listener l rhs = l

unfoldable pub set_port : ℕ → TcpCommListener → TcpCommListener
set_port port l = record l { port = u16 port }

abbrev pub listening : TcpCommListener → Bool
listening l = is_positive l.server_fd

abbrev pub connected : TcpCommListener → Bool
connected l = is_set l.client_fd

-- The rounds of the bind loop: one for each second of TCP_BIND_TIMEOUT and one more.
abbrev pub bind_rounds : ℕ
bind_rounds = 11

module _ (k : Kernel) where
  unfoldable pub disconnect_server : M TcpCommListener Bool
  disconnect_server = do
    l ← this
    when (listening l)
        (do perform k (close_fd l.server_fd); modify (λ l. record l { server_fd = pos 0 }))
    give true

  -- getListenPort
  unfoldable pub get_listen_port : M TcpCommListener ℕ
  get_listen_port = do
    l ← this
    if listening l
        then (do
          r ← call k (socket_port l.server_fd)
          if is_failure r then raise socket_connect_failure else give (u16 (number r)))
        else give 0

  -- The rounds of `while (bind_result < 0)`. TCP_BIND_TIMEOUT is 10 seconds.
  unfoldable pub bind_loop :
      (fuel : ℕ) → (newsock : ℤ) (port start : ℕ) → M TcpCommListener (Unit {0})
  bind_loop zero newsock port start l h = unfinished
  bind_loop (suc fuel) newsock port start l h =
      let again : M TcpCommListener (Unit {0}) = bind_loop fuel newsock port start in
      (do
        r ← call k (bind_port newsock port)
        if is_failure r
            then (do
              t ← call k (elapsed start)
              if fails_with eaddrinuse r && ltb (number t) 10
                  then (do perform k wait; again)
                  else raise socket_connect_failure)
            else give tt)
        l h

  -- What initialize does with the bound socket.
  unfoldable pub start_listening : (newsock : ℤ) → M TcpCommListener Bool
  unfolding get_listen_port
  start_listening newsock = do
    r ← call k (listen_on newsock)
    when (is_failure r && not (fails_with einprogress r)) (raise socket_connect_failure)
    l ← this
    when (not l.blocking) (perform k (set_nonblocking newsock))
    modify (λ l. record l { server_fd = newsock })
    port ← get_listen_port
    when (not (l.port == 0) && not (port == l.port)) (raise socket_connect_failure)
    give true

  unfoldable pub initialize : M TcpCommListener Bool
  unfolding start_listening bind_loop
  initialize = do
    start ← now
    s ← call k socket_stream
    let newsock = descriptor s
    when (is_zero newsock) (raise socket_create_failure)
    o ← call k (reuse_address newsock)
    when (is_failure o) (raise socket_create_failure)
    l ← this
    bind_loop bind_rounds newsock l.port start
    start_listening newsock

  -- The first part of disconnectClient.
  unfoldable pub drop_client : M TcpCommListener (Unit {0})
  drop_client = do
    l ← this
    when (connected l)
        (do perform k (close_fd l.client_fd); modify (λ l. record l { client_fd = pos 0 }))

  -- disconnectClient. Unless the server shuts down, the listener is initialized again.
  unfoldable pub disconnect_client : (server_shutdown : Bool) → M TcpCommListener Bool
  unfolding drop_client initialize
  disconnect_client server_shutdown = do
    drop_client
    when (not server_shutdown) (do initialize; give tt)
    give true

  -- disconnect, which is also what the destructor does.
  unfoldable pub disconnect : M TcpCommListener Bool
  unfolding disconnect_client disconnect_server
  disconnect = do disconnect_client true; disconnect_server; give true

  -- The branch of acceptClient for a listener that has a client: the new one is turned away.
  unfoldable pub refuse_client : M TcpCommListener Bool
  refuse_client = do
    l ← this
    r ← call k (accept_from l.server_fd)
    when (is_set (descriptor r)) (perform k (close_fd (descriptor r)))
    raise socket_already_connected

  unfoldable pub take_client : (persistent : Bool) → (newsockfd : ℤ) → M TcpCommListener Bool
  unfolding disconnect_server
  take_client persistent newsockfd = do
    l ← this
    when (not l.blocking) (perform k (set_nonblocking newsockfd))
    modify (λ l. record l { client_fd = newsockfd })
    when (not persistent) (do disconnect_server; give tt)
    give true

  unfoldable pub accept_client : (persistent : Bool) → M TcpCommListener Bool
  unfolding refuse_client take_client
  accept_client persistent = do
    l ← this
    when (not (listening l)) (raise socket_not_initialized)
    if connected l then refuse_client else (do
      r ← call k (accept_from l.server_fd)
      if is_failure r
          then (if fails_with eagain r then give false else raise socket_connect_failure)
          else take_client persistent (descriptor r))

  -- writeData, on fuel: `write` may take nothing of what it is offered, and is called again.
  unfoldable pub write_data : (fuel : ℕ) → Bytes → M TcpCommListener ℕ
  unfolding write_rounds
  write_data fuel buffer = do
    l ← this
    if connected l then write_rounds k fuel l.client_fd (λ l. l) buffer 0 else give 0

  -- readData: the bytes that are put into the caller's buffer.
  unfoldable pub read_data : (size : ℕ) → M TcpCommListener Bytes
  unfolding disconnect_client
  read_data size = do
    l ← this
    when (not (connected l)) (raise socket_not_connected)
    r ← call k (read_from l.client_fd size)
    if is_failure r
        then (if fails_with eagain r || fails_with einprogress r
            then give []
            else if fails_with etimedout r
            then (do disconnect_client false; give [])
            else raise socket_read_failure)
        else (do
          when (length (bytes_of r) == 0) (do disconnect_client false; give tt)
          give (bytes_of r))
