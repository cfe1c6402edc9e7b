-- ===== src/Session/Serving.antt =====
-- The handlers of connections end and keep the session good.
pub mod Commands
pub mod Obeying
pub mod Unbroken
use port_agent.Prelude.{Bytes, ℤ, ℕ, refl, Bool, true, false, List}
use port_agent.Packet.{
  PacketType, unknown, data_from_instrument, data_from_rsn, data_from_driver, port_agent_command,
  port_agent_status, port_agent_fault, instrument_command, port_agent_heartbeat,
}
use port_agent.Network.{Kernel, M}
use port_agent.Network.Hoare.{Sound}
use port_agent.Network.Sending.{Takes}
use port_agent.Network.TcpCommListener.{TcpCommListener}
use port_agent.Agent.{PortAgentState, emit, publish_payload}
use port_agent.Session.{
  InstrumentLink, no_instrument, tcp_instrument, rsn_instrument, botpt_instrument,
  serial_instrument, on_agent,
}
use port_agent.Session.Handlers.{
  handle_tcp_connect, accept_ready, read_ready, handle_command_accept, on_data_listeners,
  handle_data_accept, handle_data_read, read_link, handle_instrument_read, handle_common,
}
use port_agent.Session.Keeping.{
  Keeps, Ends, Keeps-bind, Keeps-then, Keeps-if, Keeps-give, Keeps-when, Keeps-this, Keeps-modify,
  Keeps-raise, Keeps-member,
}
use port_agent.Session.Endings.{accept_client-Ends, read_socket-Ends, read_data-Ends}
use port_agent.Session.Endings.Several.{for_each-Ends}
use port_agent.Session.Machine.{AllowsConnecting, Good}
use port_agent.Session.Connecting.{
  Good-instrument, Good-listeners, initialize_instrument_connection-Keeps,
}
use port_agent.Session.Listening.{on_command_socket-Keeps, on_data_socket-Keeps, on_sniffer-Keeps}

module _ (k : Kernel) (sound : Sound k) (R : PortAgentState → Type 0) where
  pub handle_tcp_connect-Ends :
      (junk : Bool) (memory version : Bytes) (persistent : Bool)
      → Ends (handle_tcp_connect k junk memory version persistent)
  unfolding handle_tcp_connect
  handle_tcp_connect-Ends junk memory version persistent =
      Keeps-then (accept_client-Ends k persistent)
        (Keeps-bind Keeps-this (λ l. Keeps-when _ (Keeps-raise refl)))

  pub accept_ready-Ends :
      (junk : Bool) (memory version : Bytes) (ready : List ℤ) (persistent : Bool)
      → Ends (accept_ready k junk memory version ready persistent)
  unfolding accept_ready
  accept_ready-Ends junk memory version ready persistent =
      Keeps-bind Keeps-this
        (λ l. Keeps-when _ (handle_tcp_connect-Ends junk memory version persistent))

  pub read_ready-Ends :
      (junk : Bool) (memory version : Bytes) (ready : List ℤ)
      → Ends (read_ready k junk memory version ready)
  unfolding read_ready
  read_ready-Ends junk memory version ready =
      Keeps-bind Keeps-this (λ l. Keeps-if _ (read_data-Ends k sound 1023) Keeps-give)

  pub handle_command_accept-Keeps :
      (junk : Bool) (memory version : Bytes) (ready : List ℤ)
      → Keeps (Good R) (handle_command_accept k junk memory version ready)
  unfolding handle_command_accept
  handle_command_accept-Keeps junk memory version ready =
      on_command_socket-Keeps k sound R _ (
        Keeps-bind Keeps-this
          (λ l. Keeps-when _ (accept_ready-Ends junk memory version ready true)))

  on_data_listeners-Keeps :
      (junk : Bool) (memory version : Bytes) (m : M TcpCommListener (Unit {0}))
      → Ends m
      → Keeps (Good R) (on_data_listeners k junk memory version m)
  on_data_listeners-Keeps junk memory version m e =
      Keeps-member _ _ (λ t s g. Good-listeners R _ s g) (for_each-Ends m e)

  pub handle_data_accept-Keeps :
      (junk : Bool) (memory version : Bytes) (ready : List ℤ)
      → Keeps (Good R) (handle_data_accept k junk memory version ready)
  unfolding handle_data_accept
  handle_data_accept-Keeps junk memory version ready = Keeps-bind Keeps-this (λ s.
      Keeps-if _
        (on_data_socket-Keeps k sound R _ (
          Keeps-bind Keeps-this
            (λ l. Keeps-when _ (accept_ready-Ends junk memory version ready false))))
        (Keeps-if _
          (on_data_listeners-Keeps junk memory version _
            (accept_ready-Ends junk memory version ready false))
          (Keeps-raise refl)))

  pub published :
      (bytes : Bytes) (type : PacketType) → Keeps (Good R) (on_agent (publish_payload bytes type))
  unfolding publish_payload emit
  published bytes unknown = Keeps-modify (λ s g. g)
  published bytes data_from_instrument =
      Keeps-modify (λ s g. record { valid = g.valid; allowed = g.allowed })
  published bytes data_from_rsn =
      Keeps-modify (λ s g. record { valid = g.valid; allowed = g.allowed })
  published bytes data_from_driver =
      Keeps-modify (λ s g. record { valid = g.valid; allowed = g.allowed })
  published bytes port_agent_command =
      Keeps-modify (λ s g. record { valid = g.valid; allowed = g.allowed })
  published bytes port_agent_status =
      Keeps-modify (λ s g. record { valid = g.valid; allowed = g.allowed })
  published bytes port_agent_fault =
      Keeps-modify (λ s g. record { valid = g.valid; allowed = g.allowed })
  published bytes instrument_command =
      Keeps-modify (λ s g. record { valid = g.valid; allowed = g.allowed })
  published bytes port_agent_heartbeat =
      Keeps-modify (λ s g. record { valid = g.valid; allowed = g.allowed })

  pub handle_data_read-Keeps :
      (junk : Bool) (memory version : Bytes) (ready : List ℤ)
      → Keeps (Good R) (handle_data_read k junk memory version ready)
  unfolding handle_data_read
  handle_data_read-Keeps junk memory version ready = Keeps-bind Keeps-this (λ s.
      Keeps-if _
        (Keeps-bind (on_data_socket-Keeps k sound R _ (read_ready-Ends junk memory version ready))
          (λ bytes. Keeps-when _ (published bytes data_from_driver)))
        (Keeps-if _
          (on_data_listeners-Keeps junk memory version _
            (Keeps-then (read_ready-Ends junk memory version ready) Keeps-give))
          (Keeps-raise refl)))

  pub handle_common-Keeps :
      (junk : Bool) (memory version : Bytes) (ready : List ℤ)
      → Keeps (Good R) (handle_common k junk memory version ready)
  unfolding handle_common
  handle_common-Keeps junk memory version ready = Keeps-bind Keeps-this (λ s. Keeps-when _ (
      Keeps-then (on_sniffer-Keeps k sound R (accept_ready-Ends junk memory version ready false)) (
        Keeps-then (on_sniffer-Keeps k sound R (read_ready-Ends junk memory version ready))
          Keeps-give)))

  pub read_link-Keeps :
      (junk : Bool) (memory version : Bytes) (code : ℕ) (l : InstrumentLink)
      → Keeps (Good R) (read_link k junk memory version code l)
  unfolding read_link
  read_link-Keeps junk memory version code no_instrument = Keeps-raise refl
  read_link-Keeps junk memory version code (tcp_instrument c) =
      Keeps-if _ (Keeps-member _ _ (λ t s g. Good-instrument R _ s g) (read_socket-Ends k 1023))
        (Keeps-raise refl)
  read_link-Keeps junk memory version code (rsn_instrument c) =
      Keeps-if _
        (Keeps-member _ _ (λ t s g. Good-instrument R _ s g)
          (Keeps-member _ _ (λ t s p. tt) (read_socket-Ends k 1023)))
        (Keeps-raise refl)
  read_link-Keeps junk memory version code (botpt_instrument c) =
      Keeps-if _
        (Keeps-member _ _ (λ t s g. Good-instrument R _ s g)
          (Keeps-member _ _ (λ t s p. tt) (read_socket-Ends k 1023)))
        (Keeps-raise refl)
  read_link-Keeps junk memory version code (serial_instrument c) =
      Keeps-if _
        (Keeps-member _ _ (λ t s g. Good-instrument R _ s g)
          (Keeps-member _ _ (λ t s p. tt) (read_socket-Ends k 1023)))
        (Keeps-raise refl)

  pub handle_instrument_read-Keeps :
      (junk : Bool) (memory version : Bytes) (ready : List ℤ)
      → ((fd : ℤ) → Takes k fd)
      → AllowsConnecting R
      → Keeps (Good R) (handle_instrument_read k junk memory version ready)
  unfolding handle_instrument_read
  handle_instrument_read-Keeps junk memory version ready takes connecting =
      Keeps-bind Keeps-this (λ s. Keeps-then (Keeps-when _ (Keeps-raise refl)) (
        Keeps-then
          (Keeps-when _ (initialize_instrument_connection-Keeps R connecting k junk memory takes))
          (Keeps-bind Keeps-this (λ t. Keeps-when _ (
            Keeps-bind (read_link-Keeps junk memory version _ t.instrument)
              (λ bytes. Keeps-bind Keeps-this (λ u. Keeps-when _ (published bytes _))))))))
