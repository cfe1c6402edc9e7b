-- ===== src/Session/Connecting.antt =====
-- The initialization of connections ends and keeps the session good.
use port_agent.Prelude.{if◌then◌else◌, Bytes, ℤ, Bool, true, false, List, arith}
use port_agent.Config.{
  InstrumentConnectionType, type_unknown, type_serial, type_tcp, type_botpt, type_rsn,
}
use port_agent.Network.{wait, Kernel, done, M}
use port_agent.Network.Sending.{Takes}
use port_agent.Network.TcpCommListener.{TcpCommListener}
use port_agent.Network.CommSocket.{CommSocket}
use port_agent.Network.SerialCommSocket.{SerialCommSocket, serial_connected}
use port_agent.Connection.Instrument.{InstrumentBotptConnection}
use port_agent.Connection.Rsn.{InstrumentRsnConnection}
use port_agent.Agent.{PortAgentState, state_connected, state_disconnected, set_state}
use port_agent.Session.{
  InstrumentLink, tcp_instrument, rsn_instrument, botpt_instrument, serial_instrument,
  ObservatoryLink, Session, enter, asks,
}
use port_agent.Session.Instruments.{
  with_instrument, on_tcp, on_rsn, on_botpt, on_serial, clear_device_path_changed,
  clear_serial_settings_changed, reconnect, initialize_tcp_instrument, initialize_rsn_instrument,
  initialize_botpt_instrument, initialize_serial_line, initialize_serial_instrument,
  initialize_by_type, initialize_instrument_connection,
}
use port_agent.Session.Observatories.{with_observatory}
use port_agent.Session.Keeping.{
  Keeps, Ends, Keeps-bind, Keeps-then, Keeps-give, Keeps-when, Keeps-this, Keeps-perform,
  Keeps-modify, Keeps-catch, Keeps-member, Ends-of,
}
use port_agent.Session.Endings.{
  disconnect_socket-Ends, change_host-Ends, change_port-Ends, initialize_data_socket-Ends,
  change_botpt_host-Ends, initialize_botpt-Ends, disconnect_botpt-Ends, initialize_serial-Ends,
  initialize_serial_settings-Ends,
}
use port_agent.Session.Endings.Digi.{initialize_rsn-Ends}
use port_agent.Session.Machine.{AllowsConnecting, Good}

module _ (R : PortAgentState → Type 0) where
  pub Good-instrument : (l : InstrumentLink) (s : Session) → Good R s → Good R (with_instrument l s)
  Good-instrument l s g = record { valid = g.valid; allowed = g.allowed }

  pub Good-observatory :
      (o : ObservatoryLink) (s : Session) → Good R s → Good R (with_observatory o s)
  Good-observatory o s g = record { valid = g.valid; allowed = g.allowed }

  pub Good-listeners :
      (ls : List TcpCommListener) (s : Session)
      → Good R s
      → Good R (record s { data_listeners = ls })
  Good-listeners ls s g = record { valid = g.valid; allowed = g.allowed }

  device_cleared :
      (s : Session) → Good R s → Good R (record s { agent = clear_device_path_changed s.agent })
  unfolding clear_device_path_changed
  device_cleared s g =
      let v = g.valid in
      record {
        valid = record {
          ranges = v.ranges;
          commands_apart = v.commands_apart;
          ports_apart = v.ports_apart;
          level_fits = v.level_fits;
        };
        allowed = g.allowed;
      }

  settings_cleared :
      (s : Session) → Good R s → Good R (record s { agent = clear_serial_settings_changed s.agent })
  unfolding clear_serial_settings_changed
  settings_cleared s g =
      let v = g.valid in
      record {
        valid = record {
          ranges = v.ranges;
          commands_apart = v.commands_apart;
          ports_apart = v.ports_apart;
          level_fits = v.level_fits;
        };
        allowed = g.allowed;
      }

  module _ (connecting : AllowsConnecting R) where
    enter_connected : Keeps (Good R) (enter state_connected)
    unfolding enter set_state
    enter_connected = Keeps-modify (λ s g. record {
      valid = g.valid;
      allowed = connecting.connected_allowed s.agent.state g.allowed;
    })

    enter_disconnected : Keeps (Good R) (enter state_disconnected)
    unfolding enter set_state
    enter_disconnected = Keeps-modify (λ s g. record {
      valid = g.valid;
      allowed = connecting.disconnected_allowed s.agent.state g.allowed;
    })

    enter_either :
        (b : Bool) → Keeps (Good R) (enter (if b then state_connected else state_disconnected))
    enter_either true = enter_connected
    enter_either false = enter_disconnected

    module _ (k : Kernel) (junk : Bool) (memory : Bytes) (takes : (fd : ℤ) → Takes k fd) where
      reconnect-Keeps :
          (up : Session → Bool) (m n : M Session (Unit {0}))
          → Keeps (Good R) m
          → Keeps (Good R) n
          → Keeps (Good R) (reconnect k junk memory up m n)
      unfolding reconnect
      reconnect-Keeps up m n p q = Keeps-bind Keeps-asks (λ b.
          Keeps-then
            (Keeps-when _
              (Keeps-then enter_disconnected (Keeps-then (Keeps-catch p q) (Keeps-perform k wait))))
            (Keeps-bind Keeps-asks (λ c. Keeps-when _ enter_connected)))
        where
          Keeps-asks : {A : Type 0} {f : Session → A} → Keeps (Good R) (asks f)
          Keeps-asks = record { kept = λ s h g. g }

      on_tcp-Keeps : {A : Type 0} {m : M CommSocket A} → Ends m → Keeps (Good R) (on_tcp m)
      on_tcp-Keeps e = Keeps-member _ _ (λ t s g. Good-instrument (tcp_instrument t) s g) e

      on_rsn-Keeps :
          {A : Type 0} {m : M InstrumentRsnConnection A} → Ends m → Keeps (Good R) (on_rsn m)
      on_rsn-Keeps e = Keeps-member _ _ (λ t s g. Good-instrument (rsn_instrument t) s g) e

      on_botpt-Keeps :
          {A : Type 0} {m : M InstrumentBotptConnection A} → Ends m → Keeps (Good R) (on_botpt m)
      on_botpt-Keeps e = Keeps-member _ _ (λ t s g. Good-instrument (botpt_instrument t) s g) e

      on_serial-Keeps :
          {A : Type 0} {m : M SerialCommSocket A} → Ends m → Keeps (Good R) (on_serial junk m)
      on_serial-Keeps e = Keeps-member _ _ (λ t s g. Good-instrument (serial_instrument t) s g) e

      initialize_tcp_instrument-Keeps : Keeps (Good R) (initialize_tcp_instrument k junk memory)
      unfolding initialize_tcp_instrument
      initialize_tcp_instrument-Keeps = Keeps-then (on_tcp-Keeps Keeps-give) (
          Keeps-bind Keeps-this (λ s.
            Keeps-then
              (Keeps-when _ (
                on_tcp-Keeps (
                  Keeps-then (disconnect_socket-Ends k)
                    (Keeps-then (change_host-Ends k _) (change_port-Ends k _)))))
              (reconnect-Keeps _ _ _ (on_tcp-Keeps (initialize_data_socket-Ends k))
                (Keeps-then (on_tcp-Keeps (disconnect_socket-Ends k)) Keeps-give))))

      initialize_rsn_instrument-Keeps : Keeps (Good R) (initialize_rsn_instrument k junk memory)
      unfolding initialize_rsn_instrument
      initialize_rsn_instrument-Keeps = Keeps-then (on_rsn-Keeps Keeps-give) (
          Keeps-bind Keeps-this (λ s.
            Keeps-then
              (Keeps-when _ (
                on_rsn-Keeps (
                  Keeps-then
                    (Keeps-member _ _ (λ t c p. tt)
                      (Keeps-then (disconnect_socket-Ends k)
                        (Keeps-then (change_host-Ends k _) (change_port-Ends k _))))
                    (Keeps-member _ _ (λ t c p. tt)
                      (Keeps-then (change_host-Ends k _) (change_port-Ends k _))))))
              (reconnect-Keeps _ _ _
                (on_rsn-Keeps (initialize_rsn-Ends k memory takes _ (omega arith)))
                (Keeps-then
                  (on_rsn-Keeps (Keeps-member _ _ (λ t c p. tt) (disconnect_socket-Ends k)))
                  Keeps-give))))

      initialize_botpt_instrument-Keeps : Keeps (Good R) (initialize_botpt_instrument k junk memory)
      unfolding initialize_botpt_instrument
      initialize_botpt_instrument-Keeps = Keeps-then (on_botpt-Keeps Keeps-give) (
          Keeps-bind Keeps-this (λ s.
            Keeps-then
              (Keeps-when _ (
                on_botpt-Keeps (
                  Keeps-then (disconnect_botpt-Ends k) (
                    Keeps-then (change_botpt_host-Ends k _) (
                      Keeps-then (Keeps-member _ _ (λ t c p. tt) (change_port-Ends k _))
                        (Keeps-member _ _ (λ t c p. tt) (change_port-Ends k _)))))))
              (reconnect-Keeps _ _ _ (on_botpt-Keeps (initialize_botpt-Ends k))
                (Keeps-then (on_botpt-Keeps (disconnect_botpt-Ends k)) Keeps-give))))

      initialize_serial_line-Keeps : Keeps (Good R) (initialize_serial_line k junk memory)
      unfolding initialize_serial_line
      initialize_serial_line-Keeps = Keeps-bind Keeps-this (λ s.
          on_serial-Keeps
            (Keeps-then (Keeps-modify (λ c p. tt)) (initialize_serial_settings-Ends k)))

      is_up : Keeps (Good R) (on_serial junk (λ c h. done (serial_connected c) c h))
      is_up = on_serial-Keeps (Ends-of (λ c h. tt))

      initialize_serial_instrument-Keeps :
          Keeps (Good R) (initialize_serial_instrument k junk memory)
      unfolding initialize_serial_instrument
      initialize_serial_instrument-Keeps = Keeps-then (on_serial-Keeps Keeps-give) (
          Keeps-bind is_up (λ up. Keeps-bind Keeps-this (λ s.
            Keeps-then
              (Keeps-when _ (
                Keeps-then (on_serial-Keeps (initialize_serial-Ends k)) (
                  Keeps-then (Keeps-modify device_cleared) (
                    Keeps-bind initialize_serial_line-Keeps
                      (λ ok. Keeps-when _ (Keeps-modify settings_cleared))))))
              (Keeps-bind is_up (λ again. Keeps-bind Keeps-this (λ t.
                Keeps-then
                  (Keeps-when _
                    (Keeps-then initialize_serial_line-Keeps (Keeps-modify settings_cleared)))
                  (enter_either again)))))))

      by_type :
          (type : InstrumentConnectionType) → Keeps (Good R) (initialize_by_type k junk memory type)
      unfolding initialize_by_type
      by_type type_tcp = initialize_tcp_instrument-Keeps
      by_type type_rsn = initialize_rsn_instrument-Keeps
      by_type type_botpt = initialize_botpt_instrument-Keeps
      by_type type_serial = initialize_serial_instrument-Keeps
      by_type type_unknown = Keeps-give

      pub initialize_instrument_connection-Keeps :
          Keeps (Good R) (initialize_instrument_connection k junk memory)
      unfolding initialize_instrument_connection
      initialize_instrument_connection-Keeps = Keeps-bind Keeps-this (λ s. by_type _)
