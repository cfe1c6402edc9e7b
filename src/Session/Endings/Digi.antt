-- ===== src/Session/Endings/Digi.antt =====
-- The commands to a digi end, where each write takes some of the bytes or fails.
use port_agent.Prelude.{
  ltb, if◌then◌else◌, Bytes, codes, length, length-append, ℤ, ℕ, zero, suc, ◌+◌, ◌<◌, ap, [], ◌∷◌,
  ◌++◌, arith,
}
use port_agent.Config.Text.{decimal}
use port_agent.Network.{wait, Kernel, ◌>>=◌, ◌>>◌, give, perform, write_rounds}
use port_agent.Network.Hoare.{Post-map}
use port_agent.Network.Sending.{Takes, write_rounds_sent}
use port_agent.Network.CommSocket.{write_socket, read_socket}
use port_agent.Connection.Rsn.{
  response_loop, read_command_response, send_command, obey_command, set_timestamp_binary_on,
  initialize_command_socket, initialize_rsn, send_rsn_break,
}
use port_agent.Session.Keeping.{
  is_unknown_state, Ends, Keeps-bind, Keeps-then, Keeps-if, Keeps-give, Keeps-this, Keeps-perform,
  Keeps-member, Ends-of, keeping,
}
use port_agent.Session.Endings.{disconnect_socket-Ends, initialize_tcp-Ends, read_socket-Ends}

module _ (k : Kernel) (memory : Bytes) where
  response_loop-Ends :
      (timeout bytes_read size : ℕ) (buffer : Bytes)
      → Ends (response_loop k memory timeout bytes_read size buffer)
  unfolding response_loop
  response_loop-Ends zero bytes_read size buffer = Ends-of (λ s h. tt)
  response_loop-Ends (suc timeout) bytes_read size buffer =
      let body : Ends (
          if ltb bytes_read size
          then (do
            r ← read_socket k size
            perform k wait
            response_loop k memory timeout (length r) size (buffer ++ r))
          else give (suc timeout, buffer)) =
        Keeps-if _
          (Keeps-bind (read_socket-Ends k size) (λ r.
            Keeps-then (Keeps-perform k wait)
              (response_loop-Ends timeout (length r) size (buffer ++ r))))
          Keeps-give in
      Ends-of (λ s h. body.kept s h tt)

  read_command_response-Ends : (response : Bytes) → Ends (read_command_response k memory response)
  unfolding read_command_response
  read_command_response-Ends response = search (keeping, response_loop-Ends) depth 14 fits 4000

module _ (k : Kernel) (memory : Bytes) (takes : (fd : ℤ) → Takes k fd) where
  write_socket-Ends :
      (fuel : ℕ) (buffer : Bytes) → length buffer < fuel → Ends (write_socket k fuel buffer)
  unfolding write_socket
  write_socket-Ends fuel buffer f = Keeps-bind Keeps-this (λ s. Keeps-then (search keeping) (
      Ends-of (λ t h.
        Post-map (write_rounds k fuel s.socket_fd _ buffer 0 t h) _ _ _ _ (λ n t' h' q. tt)
          (λ e t' h' q. (tt, ap is_unknown_state q.0))
          (write_rounds_sent k s.socket_fd _ (takes s.socket_fd) fuel buffer 0 t h f))))

  send_command-Ends :
      (fuel : ℕ) (command : Bytes)
      → length command < fuel
      → Ends (send_command k memory fuel command)
  unfolding send_command
  send_command-Ends fuel command f =
      search (keeping, write_socket-Ends, read_command_response-Ends) depth 14 fits 4000

  obey_command-Ends :
      (fuel : ℕ) (command response : Bytes)
      → length command < fuel
      → Ends (obey_command k memory fuel command response)
  unfolding obey_command
  obey_command-Ends fuel command response f =
      search (keeping, send_command-Ends, read_command_response-Ends) depth 14 fits 4000

  set_timestamp_binary_on-Ends :
      (fuel : ℕ) → 16 < fuel → Ends (set_timestamp_binary_on k memory fuel)
  unfolding set_timestamp_binary_on
  set_timestamp_binary_on-Ends fuel f =
      obey_command-Ends fuel (codes "timestamping 2\r\n")
        (codes "Set Timestamping:On(binary)\r\n\r\n") f

  initialize_command_socket-Ends :
      (fuel : ℕ) → 16 < fuel → Ends (initialize_command_socket k memory fuel)
  unfolding initialize_command_socket
  initialize_command_socket-Ends fuel f =
      search
        (keeping, initialize_tcp-Ends, read_command_response-Ends, set_timestamp_binary_on-Ends)
        depth 20 fits 8000

  pub initialize_rsn-Ends : (fuel : ℕ) → 16 < fuel → Ends (initialize_rsn k memory fuel)
  unfolding initialize_rsn
  initialize_rsn-Ends fuel f =
      search (keeping, initialize_tcp-Ends, disconnect_socket-Ends, initialize_command_socket-Ends)
        depth 20 fits 8000

  command_length :
      (duration : ℕ)
      → length (codes "break " ++ (decimal duration ++ codes "\r\n"))
        < 20 + length (decimal duration)
  command_length duration = omega (arith, length-append (decimal duration) (13 ∷ 10 ∷ []))

  pub send_rsn_break-Ends :
      (duration : ℕ) → Ends (send_rsn_break k memory (20 + length (decimal duration)) duration)
  unfolding send_rsn_break
  send_rsn_break-Ends duration = Keeps-then (initialize_command_socket-Ends _ (omega arith)) (
      Keeps-bind
        (Keeps-member _ _ (λ t s p. tt)
          (obey_command-Ends (20 + length (decimal duration))
            (codes "break " ++ (decimal duration ++ codes "\r\n"))
            (codes "Sending Serial Break " ++ (decimal duration ++ codes "(ms)\r\n\r\n"))
            (command_length duration)))
        (λ b. search (keeping, disconnect_socket-Ends) depth 14 fits 4000))
