-- ===== src/Connection/Rsn.antt =====
-- port_agent/connection/instrument_rsn_connection.cxx: the connection to a digi, whose command
-- port is opened for each command.
use port_agent.Prelude.{
  ltb, ◌==◌, if◌then◌else◌, Bytes, codes, length, take, bytes_eq, ℕ, zero, suc, Bool, false, not,
  ◌&&◌, [], ◌++◌,
}
use port_agent.Network.{
  wait, Kernel, done, M, ◌>>=◌, ◌>>◌, give, this, modify, perform, of_member, when,
}
use port_agent.Network.CommSocket.{
  CommSocket, new_socket, assign_socket, socket_connected, socket_configured, disconnect_socket,
  initialize_tcp, write_socket, read_socket,
}
use port_agent.Config.Text.{decimal}

pub record InstrumentRsnConnection : Type 0 where
  pub rsn_data : CommSocket
  pub rsn_command : CommSocket
  pub timestamp_binary_on : Bool

unfoldable pub new_rsn : InstrumentRsnConnection
unfolding new_socket
new_rsn = record { rsn_data = new_socket; rsn_command = new_socket; timestamp_binary_on = false }

unfoldable pub copy_rsn :
    InstrumentRsnConnection → InstrumentRsnConnection → InstrumentRsnConnection
unfolding assign_socket
copy_rsn c rhs = record {
  rsn_data = assign_socket c.rsn_data rhs.rsn_data;
  rsn_command = assign_socket c.rsn_command rhs.rsn_command;
  timestamp_binary_on = rhs.timestamp_binary_on;
}

abbrev pub on_rsn_data : {A : Type 0} → M CommSocket A → M InstrumentRsnConnection A
on_rsn_data = of_member (λ c. c.rsn_data) (λ s c. record c { rsn_data = s })

abbrev pub on_rsn_command : {A : Type 0} → M CommSocket A → M InstrumentRsnConnection A
on_rsn_command = of_member (λ c. c.rsn_command) (λ s c. record c { rsn_command = s })

-- `junk` is what the new buffer of 1000 bytes holds. The source does not check that what it
-- reads fits; here the buffer grows.
module _ (k : Kernel) (junk : Bytes) where
  -- The loop of readCommandResponse: the time left and the bytes in the buffer at its end.
  unfoldable pub response_loop :
      (timeout : ℕ) → (bytes_read size : ℕ) → Bytes → M CommSocket (ℕ × Bytes)
  response_loop zero bytes_read size buffer s h = done (0, buffer) s h
  response_loop (suc timeout) bytes_read size buffer s h =
      let again : Bytes → M CommSocket (ℕ × Bytes) =
        λ r. response_loop timeout (length r) size (buffer ++ r) in
      (if ltb bytes_read size
          then (do r ← read_socket k size; perform k wait; again r)
          else give (suc timeout, buffer))
        s h

  -- readCommandResponse. The 30 rounds take three seconds.
  unfoldable pub read_command_response : Bytes → M CommSocket Bool
  unfolding response_loop
  read_command_response response = if length response == 0 then give false else (do
    end ← response_loop 30 0 (length response) []
    give (not (end.0 == 0) && bytes_eq (take (length response) (end.1 ++ junk)) response))

  -- sendCommand: the digi echoes a command.
  unfoldable pub send_command : (fuel : ℕ) → Bytes → M CommSocket Bool
  unfolding read_command_response
  send_command fuel command = do
    written ← write_socket k fuel command
    if written == 0 then give false else read_command_response command

  -- A command and its acknowledgement.
  unfoldable pub obey_command : (fuel : ℕ) (command response : Bytes) → M CommSocket Bool
  unfolding send_command
  obey_command fuel command response = do
    echoed ← send_command fuel command
    if echoed then read_command_response response else give false

  unfoldable pub set_timestamp_binary_on : (fuel : ℕ) → M CommSocket Bool
  unfolding obey_command
  set_timestamp_binary_on fuel =
      obey_command fuel (codes "timestamping 2\r\n") (codes "Set Timestamping:On(binary)\r\n\r\n")

  unfoldable pub initialize_command_socket : (fuel : ℕ) → M InstrumentRsnConnection (Unit {0})
  unfolding set_timestamp_binary_on
  initialize_command_socket fuel = do
    on_rsn_command (initialize_tcp k)
    greeted ← on_rsn_command (
        read_command_response
          (codes "OOI - Digi Command Interface\r\ntype help for command information\r\n"))
    on ← if greeted then on_rsn_command (set_timestamp_binary_on fuel) else give false
    modify (λ c. record c { timestamp_binary_on = on })

  unfoldable pub initialize_rsn : (fuel : ℕ) → M InstrumentRsnConnection (Unit {0})
  unfolding socket_configured initialize_command_socket
  initialize_rsn fuel = do
    c ← this
    let all_good = socket_configured c.rsn_data && socket_configured c.rsn_command
    when (all_good && not (socket_connected c.rsn_data))
        (do on_rsn_data (initialize_tcp k); give tt)
    when (all_good && not (socket_connected c.rsn_command))
        (do initialize_command_socket fuel; on_rsn_command (disconnect_socket k); give tt)

  -- sendBreak
  unfoldable pub send_rsn_break : (fuel duration : ℕ) → M InstrumentRsnConnection Bool
  unfolding initialize_command_socket obey_command decimal
  send_rsn_break fuel duration = do
    initialize_command_socket fuel
    acknowledged ← on_rsn_command (
        obey_command fuel (codes "break " ++ (decimal duration ++ codes "\r\n"))
          (codes "Sending Serial Break " ++ (decimal duration ++ codes "(ms)\r\n\r\n")))
    on_rsn_command (disconnect_socket k)
    give acknowledged
