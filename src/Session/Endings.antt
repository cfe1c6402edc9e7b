-- ===== src/Session/Endings.antt =====
-- The methods of listeners and sockets end.
pub mod Digi
pub mod Several
use port_agent.Prelude.{Bytes, ℤ, ℕ, ◌≡◌, refl, Bool, true, false, arith}
use port_agent.Network.{
  Kernel, CommError, socket_connect_failure, ◌>>=◌, ◌>>◌, is_connect_failure, when,
}
use port_agent.Network.Hoare.{Post-map, Sound}
use port_agent.Network.TcpCommListener.{
  bind_rounds, disconnect_server, get_listen_port, bind_loop, start_listening, initialize,
  drop_client, disconnect_client, disconnect, refuse_client, take_client, accept_client, read_data,
}
use port_agent.Network.TcpCommListener.Binding.{bind_loop_ends}
use port_agent.Network.CommSocket.{disconnect_socket, initialize_tcp, read_socket}
use port_agent.Network.SerialCommSocket.{open_serial, initialize_serial_settings, send_serial_break}
use port_agent.Connection.Observatory.{set_listener_port}
use port_agent.Connection.Instrument.{
  change_port, change_host, initialize_data_socket, change_botpt_host, initialize_botpt,
  disconnect_botpt, initialize_serial,
}
use port_agent.Session.Keeping.{
  is_unknown_state, Ends, Keeps-bind, Keeps-then, Keeps-if, Keeps-give, Keeps-when, Keeps-this,
  Ends-of, keeping,
}

module _ (k : Kernel) where
  pub disconnect_server-Ends : Ends (disconnect_server k)
  unfolding disconnect_server ◌>>=◌ ◌>>◌ when
  disconnect_server-Ends = Ends-of (λ l h. ground arith)

  pub get_listen_port-Ends : Ends (get_listen_port k)
  unfolding get_listen_port ◌>>=◌ ◌>>◌ when
  get_listen_port-Ends = Ends-of (λ l h. ground arith)

  pub drop_client-Ends : Ends (drop_client k)
  unfolding drop_client ◌>>=◌ ◌>>◌ when
  drop_client-Ends = Ends-of (λ l h. ground arith)

  pub disconnect-Ends : Ends (disconnect k)
  unfolding disconnect disconnect_client disconnect_server drop_client ◌>>=◌ ◌>>◌ when
  disconnect-Ends = Ends-of (λ l h. ground arith)

  pub start_listening-Ends : (fd : ℤ) → Ends (start_listening k fd)
  unfolding start_listening get_listen_port ◌>>=◌ ◌>>◌ when
  start_listening-Ends fd = Ends-of (λ l h. ground arith)

  pub accept_client-Ends : (persistent : Bool) → Ends (accept_client k persistent)
  unfolding accept_client refuse_client take_client disconnect_server ◌>>=◌ ◌>>◌ when
  accept_client-Ends persistent = Ends-of (λ l h. ground arith)

  pub disconnect_socket-Ends : Ends (disconnect_socket k)
  unfolding disconnect_socket ◌>>=◌ ◌>>◌ when
  disconnect_socket-Ends = Ends-of (λ s h. ground arith)

  pub initialize_tcp-Ends : Ends (initialize_tcp k)
  unfolding initialize_tcp ◌>>=◌ ◌>>◌ when
  initialize_tcp-Ends = Ends-of (λ s h. ground arith)

  pub read_socket-Ends : (size : ℕ) → Ends (read_socket k size)
  unfolding read_socket disconnect_socket ◌>>=◌ ◌>>◌ when
  read_socket-Ends size = Ends-of (λ s h. ground arith)

  pub open_serial-Ends : Ends (open_serial k)
  unfolding open_serial ◌>>=◌ ◌>>◌ when
  open_serial-Ends = Ends-of (λ s h. ground arith)

  pub change_host-Ends : (host : Bytes) → Ends (change_host k host)
  unfolding change_host
  change_host-Ends host = search (keeping, initialize_tcp-Ends) depth 14 fits 4000

  pub change_port-Ends : (port : ℕ) → Ends (change_port k port)
  unfolding change_port
  change_port-Ends port = search (keeping, initialize_tcp-Ends) depth 14 fits 4000

  pub initialize_data_socket-Ends : Ends (initialize_data_socket k)
  unfolding initialize_data_socket
  initialize_data_socket-Ends = search (keeping, initialize_tcp-Ends) depth 14 fits 4000

  pub change_botpt_host-Ends : (host : Bytes) → Ends (change_botpt_host k host)
  unfolding change_botpt_host
  change_botpt_host-Ends host = search (keeping, change_host-Ends) depth 14 fits 4000

  pub initialize_botpt-Ends : Ends (initialize_botpt k)
  unfolding initialize_botpt
  initialize_botpt-Ends = search (keeping, initialize_tcp-Ends) depth 14 fits 4000

  pub disconnect_botpt-Ends : Ends (disconnect_botpt k)
  unfolding disconnect_botpt
  disconnect_botpt-Ends = search (keeping, disconnect_socket-Ends) depth 14 fits 4000

  pub initialize_serial-Ends : Ends (initialize_serial k)
  unfolding initialize_serial
  initialize_serial-Ends = search (keeping, open_serial-Ends) depth 14 fits 4000

  pub initialize_serial_settings-Ends : Ends (initialize_serial_settings k)
  unfolding initialize_serial_settings
  initialize_serial_settings-Ends = search keeping depth 14 fits 4000

  pub send_serial_break-Ends : (duration : ℕ) → Ends (send_serial_break k duration)
  unfolding send_serial_break
  send_serial_break-Ends duration = search keeping depth 14 fits 4000

connect_failure_known : (e : CommError) → is_connect_failure e ≡ true → is_unknown_state e ≡ false
connect_failure_known socket_connect_failure h = refl
connect_failure_known e h = ground arith

module _ (k : Kernel) (sound : Sound k) where
  bind_loop-Ends : (fd : ℤ) (port start : ℕ) → Ends (bind_loop k bind_rounds fd port start)
  bind_loop-Ends fd port start = Ends-of (λ l h.
      Post-map (bind_loop k bind_rounds fd port start l h) _ _ _ _ (λ a l' h' q. tt)
        (λ e l' h' q. (tt, connect_failure_known e q.2))
        (bind_loop_ends k sound bind_rounds fd port start l h (omega arith) (omega arith)))

  pub initialize-Ends : Ends (initialize k)
  unfolding initialize
  initialize-Ends =
      search (keeping, bind_loop-Ends, start_listening-Ends k, Ends-of) depth 20 fits 8000

  pub disconnect_client-Ends : (server_shutdown : Bool) → Ends (disconnect_client k server_shutdown)
  unfolding disconnect_client
  disconnect_client-Ends server_shutdown =
      Keeps-then (drop_client-Ends k)
        (Keeps-then (Keeps-when _ (Keeps-then initialize-Ends Keeps-give)) Keeps-give)

  pub read_data-Ends : (size : ℕ) → Ends (read_data k size)
  unfolding read_data
  read_data-Ends size = search (keeping, disconnect_client-Ends) depth 20 fits 8000

  pub set_listener_port-Ends : (port : ℕ) → Ends (set_listener_port k port)
  unfolding set_listener_port
  set_listener_port-Ends port = Keeps-then (search keeping) (
      Keeps-bind Keeps-this (λ l.
        Keeps-if _
          (Keeps-bind (get_listen_port-Ends k)
            (λ b. Keeps-when _ (search (keeping, initialize-Ends))))
          Keeps-give))
