-- ===== src/Connection/Instrument.antt =====
-- port_agent/connection/instrument_tcp_connection.cxx, instrument_botpt_connection.cxx and
-- instrument_serial_connection.cxx, without their trivial accessors.
use port_agent.Prelude.{◌==◌, if◌then◌else◌, Bytes, bytes_eq, ℕ, Bool, false, not, ◌&&◌}
use port_agent.Network.{Kernel, M, ◌>>=◌, ◌>>◌, give, this, modify, of_member, when}
use port_agent.Network.CommSocket.{
  CommSocket, new_socket, assign_socket, set_socket_port, set_hostname, socket_connected,
  socket_configured, disconnect_socket, initialize_tcp,
}
use port_agent.Network.SerialCommSocket.{SerialCommSocket, serial_connected, open_serial}

module _ (k : Kernel) where
  -- setDataPort of InstrumentTCPConnection, and the like of the others, on one socket: a
  -- connected socket is initialized again if its port changed.
  unfoldable pub change_port : ℕ → M CommSocket (Unit {0})
  unfolding set_socket_port
  change_port port = do
    old ← this
    modify (set_socket_port port)
    s ← this
    when (socket_connected s && not (s.port == old.port)) (do initialize_tcp k; give tt)

  -- setDataHost
  unfoldable pub change_host : Bytes → M CommSocket (Unit {0})
  unfolding set_hostname
  change_host host = do
    old ← this
    modify (set_hostname host)
    s ← this
    when (socket_connected s && not (bytes_eq s.hostname old.hostname))
        (do initialize_tcp k; give tt)

  -- InstrumentTCPConnection::initialize, on its data socket. dataInitialized is dataConfigured.
  unfoldable pub initialize_data_socket : M CommSocket (Unit {0})
  unfolding socket_configured
  initialize_data_socket = do
    s ← this
    when (socket_configured s && not (socket_connected s)) (do initialize_tcp k; give tt)

pub record InstrumentBotptConnection : Type 0 where
  pub tx : CommSocket
  pub rx : CommSocket

unfoldable pub new_botpt : InstrumentBotptConnection
unfolding new_socket
new_botpt = record { tx = new_socket; rx = new_socket }

unfoldable pub copy_botpt :
    InstrumentBotptConnection → InstrumentBotptConnection → InstrumentBotptConnection
unfolding assign_socket
copy_botpt c rhs = record { tx = assign_socket c.tx rhs.tx; rx = assign_socket c.rx rhs.rx }

abbrev pub on_tx : {A : Type 0} → M CommSocket A → M InstrumentBotptConnection A
on_tx = of_member (λ c. c.tx) (λ s c. record c { tx = s })

abbrev pub on_rx : {A : Type 0} → M CommSocket A → M InstrumentBotptConnection A
on_rx = of_member (λ c. c.rx) (λ s c. record c { rx = s })

abbrev pub botpt_connected : InstrumentBotptConnection → Bool
botpt_connected c = socket_connected c.tx && socket_connected c.rx

unfoldable pub botpt_configured : InstrumentBotptConnection → Bool
unfolding socket_configured
botpt_configured c = socket_configured c.tx && socket_configured c.rx

module _ (k : Kernel) where
  unfoldable pub change_botpt_host : Bytes → M InstrumentBotptConnection (Unit {0})
  unfolding change_host
  change_botpt_host host = do on_tx (change_host k host); on_rx (change_host k host)

  unfoldable pub initialize_botpt : M InstrumentBotptConnection (Unit {0})
  unfolding botpt_configured
  initialize_botpt = do
    c ← this
    when (botpt_configured c && not (botpt_connected c))
        (do on_tx (initialize_tcp k); on_rx (initialize_tcp k); give tt)

  -- disconnect: `m_oDataTxSocket.disconnect() && m_oDataRxSocket.disconnect()`.
  unfoldable pub disconnect_botpt : M InstrumentBotptConnection Bool
  unfolding disconnect_socket
  disconnect_botpt = do
    closed ← on_tx (disconnect_socket k)
    if closed then on_rx (disconnect_socket k) else give false

  -- InstrumentSerialConnection::initialize, on its socket.
  unfoldable pub initialize_serial : M SerialCommSocket (Unit {0})
  unfolding open_serial
  initialize_serial = do
    s ← this
    when (s.is_configured && not (serial_connected s)) (do open_serial k; give tt)
