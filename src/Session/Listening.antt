-- ===== src/Session/Listening.antt =====
-- The initialization of the observatory's listeners and of the publishers ends and keeps the
-- session good.
use port_agent.Prelude.{ℕ, refl, Option, none, some, List, [], ◌∷◌}
use port_agent.Config.{
  ObservatoryConnectionType, obs_type_unknown, obs_type_standard, obs_type_multi,
}
use port_agent.Config.Validity.{IsValid}
use port_agent.Publisher.{
  PublisherType, publisher_instrument_command, publisher_instrument_data, CommBase, Publisher,
}
use port_agent.Network.{Kernel, M, modify}
use port_agent.Network.Hoare.{Sound}
use port_agent.Network.TcpCommListener.{TcpCommListener}
use port_agent.Agent.{PortAgentState, Agent}
use port_agent.Session.{
  ObservatoryLink, no_observatory, standard_observatory, multi_observatory, Session, on_agent,
}
use port_agent.Session.Observatories.{
  with_observatory, on_command_socket, on_data_socket, delete_observatory, close_other_port,
  start_command_socket, initialize_observatory_command, start_data_socket, initialize_standard_data,
  initialize_multi_data, initialize_data_of_type, initialize_observatory_data,
}
use port_agent.Session.Sinks.{
  add_to_list, initialize_publisher_file, add_data_publishers,
  initialize_publisher_observatory_data, initialize_publisher_observatory_command, add_on_comm,
  with_sniffer, on_sniffer, delete_sniffer, initialize_publisher_telnet_sniffer,
  initialize_publishers,
}
use port_agent.Session.Keeping.{
  Keeps, Ends, Keeps-bind, Keeps-then, Keeps-if, Keeps-give, Keeps-when, Keeps-this, Keeps-modify,
  Keeps-raise, Keeps-catch, Keeps-member,
}
use port_agent.Session.Endings.{
  get_listen_port-Ends, disconnect-Ends, initialize-Ends, set_listener_port-Ends,
}
use port_agent.Session.Endings.Several.{add_listeners-Ends, initialize_data_sockets-Ends}
use port_agent.Session.Machine.{Good}
use port_agent.Session.Connecting.{Good-observatory, Good-listeners}

module _ (k : Kernel) (sound : Sound k) (R : PortAgentState → Type 0) where
  pub on_command_socket-Keeps :
      {A : Type 0} (m : M TcpCommListener A) → Ends m → Keeps (Good R) (on_command_socket m)
  unfolding on_command_socket
  on_command_socket-Keeps m e =
      Keeps-bind Keeps-this (λ s.
        Keeps-if _ (Keeps-member _ _ (λ t s g. Good-observatory R _ s g) e) (Keeps-raise refl))

  pub on_data_socket-Keeps :
      {A : Type 0} (m : M TcpCommListener A) → Ends m → Keeps (Good R) (on_data_socket m)
  unfolding on_data_socket
  on_data_socket-Keeps m e = Keeps-bind Keeps-this (λ s.
      Keeps-if _
        (Keeps-member _ _ (λ t s g. Good-observatory R _ s g) (Keeps-member _ _ (λ t c p. tt) e))
        (Keeps-raise refl))

  with_observatory-Keeps : (o : ObservatoryLink) → Keeps (Good R) (modify (with_observatory o))
  with_observatory-Keeps o = Keeps-modify (λ s g. Good-observatory R o s g)

  delete_observatory-Keeps : Keeps (Good R) (delete_observatory k)
  unfolding delete_observatory
  delete_observatory-Keeps = Keeps-then (on_command_socket-Keeps _ (disconnect-Ends k)) (
      Keeps-bind Keeps-this (λ s.
        Keeps-then
          (Keeps-when _ (Keeps-then (on_data_socket-Keeps _ (disconnect-Ends k)) Keeps-give))
          (with_observatory-Keeps no_observatory)))

  close_other_port-Ends : (port : ℕ) → Ends (close_other_port k port)
  unfolding close_other_port
  close_other_port-Ends port =
      Keeps-bind (get_listen_port-Ends k)
        (λ b. Keeps-when _ (Keeps-then (disconnect-Ends k) Keeps-give))

  start_command_socket-Ends : (port : ℕ) → Ends (start_command_socket k port)
  unfolding start_command_socket
  start_command_socket-Ends port =
      Keeps-then (Keeps-modify (λ l p. tt)) (
        Keeps-bind Keeps-this (λ l. Keeps-when _ (Keeps-then (initialize-Ends k sound) Keeps-give)))

  start_data_socket-Ends : (port : ℕ) → Ends (start_data_socket k port)
  unfolding start_data_socket
  start_data_socket-Ends port =
      Keeps-then (set_listener_port-Ends k sound port) (
        Keeps-bind Keeps-this (λ l. Keeps-when _ (Keeps-then (initialize-Ends k sound) Keeps-give)))

  pub initialize_observatory_command-Keeps : Keeps (Good R) (initialize_observatory_command k)
  unfolding initialize_observatory_command
  initialize_observatory_command-Keeps = Keeps-bind Keeps-this (λ s.
      Keeps-then
        (Keeps-when _ (
          Keeps-then (on_command_socket-Keeps _ (close_other_port-Ends _))
            (Keeps-when _ delete_observatory-Keeps)))
        (Keeps-bind Keeps-this (λ t. Keeps-when _ (
          Keeps-then (with_observatory-Keeps _) (
            Keeps-bind Keeps-this
              (λ u. Keeps-when _ (on_command_socket-Keeps _ (start_command_socket-Ends _))))))))

  initialize_standard_data-Keeps : Keeps (Good R) (initialize_standard_data k)
  unfolding initialize_standard_data
  initialize_standard_data-Keeps = Keeps-bind Keeps-this (λ s.
      Keeps-then
        (Keeps-if _ (on_data_socket-Keeps _ (close_other_port-Ends _)) (with_observatory-Keeps _))
        (on_data_socket-Keeps _ (start_data_socket-Ends _)))

  initialize_multi_data-Keeps : Keeps (Good R) (initialize_multi_data k)
  unfolding initialize_multi_data
  initialize_multi_data-Keeps = Keeps-bind Keeps-this (λ s.
      Keeps-then (Keeps-when _ (with_observatory-Keeps _)) (
        Keeps-member _ _ (λ t s g. Good-listeners R _ s g)
          (Keeps-then (add_listeners-Ends k sound s.agent.world.data_ports.ports)
            (Keeps-bind Keeps-this (λ c. Keeps-when _ (initialize_data_sockets-Ends k sound))))))

  of_type : (type : ObservatoryConnectionType) → Keeps (Good R) (initialize_data_of_type k type)
  unfolding initialize_data_of_type
  of_type obs_type_standard = initialize_standard_data-Keeps
  of_type obs_type_multi = initialize_multi_data-Keeps
  of_type obs_type_unknown = Keeps-give

  pub initialize_observatory_data-Keeps : Keeps (Good R) (initialize_observatory_data k)
  unfolding initialize_observatory_data
  initialize_observatory_data-Keeps = Keeps-bind Keeps-this (λ s. of_type _)

  -- What changes only the publishers keeps the session good.
  add_to_list-Keeps : (p : Publisher) → Keeps (Good R) (on_agent (add_to_list p))
  unfolding add_to_list
  add_to_list-Keeps p = Keeps-modify (λ s g. record { valid = g.valid; allowed = g.allowed })

  file_added : Keeps (Good R) (on_agent initialize_publisher_file)
  unfolding initialize_publisher_file
  file_added = Keeps-modify (λ s g. record { valid = g.valid; allowed = g.allowed })

  data_added :
      (ls : List TcpCommListener) (a : Agent)
      → IsValid a.world × R a.state
      → let b = add_data_publishers ls a in IsValid b.world × R b.state
  unfolding add_data_publishers add_to_list
  data_added [] a g = g
  data_added (l ∷ ls) a g = data_added ls _ (g.0, g.1)

  observatory_data_added :
      (o : ObservatoryLink) (ls : List TcpCommListener)
      → Keeps (Good R) (on_agent (initialize_publisher_observatory_data o ls))
  unfolding initialize_publisher_observatory_data
  observatory_data_added no_observatory ls =
      Keeps-modify (λ s g. record { valid = g.valid; allowed = g.allowed })
  observatory_data_added (standard_observatory c) ls =
      Keeps-modify (λ s g. record { valid = g.valid; allowed = g.allowed })
  observatory_data_added (multi_observatory l) ls = Keeps-modify (λ s g.
      let (v, r) = data_added ls s.agent (g.valid, g.allowed) in record { valid = v; allowed = r })

  command_added :
      (o : ObservatoryLink) → Keeps (Good R) (on_agent (initialize_publisher_observatory_command o))
  unfolding initialize_publisher_observatory_command
  command_added no_observatory =
      Keeps-modify (λ s g. record { valid = g.valid; allowed = g.allowed })
  command_added (standard_observatory c) =
      Keeps-modify (λ s g. record { valid = g.valid; allowed = g.allowed })
  command_added (multi_observatory l) =
      Keeps-modify (λ s g. record { valid = g.valid; allowed = g.allowed })

  comm_added :
      (type : PublisherType) (o : Option CommBase) → Keeps (Good R) (on_agent (add_on_comm type o))
  unfolding add_on_comm
  comm_added type none = Keeps-modify (λ s g. record { valid = g.valid; allowed = g.allowed })
  comm_added type (some c) = Keeps-modify (λ s g. record { valid = g.valid; allowed = g.allowed })

  Good-sniffer : (o : Option TcpCommListener) (s : Session) → Good R s → Good R (with_sniffer o s)
  Good-sniffer o s g = record { valid = g.valid; allowed = g.allowed }

  pub on_sniffer-Keeps :
      {A : Type 0} {m : M TcpCommListener A} → Ends m → Keeps (Good R) (on_sniffer m)
  on_sniffer-Keeps e = Keeps-member _ _ (λ t s g. Good-sniffer (some t) s g) e

  delete_sniffer-Keeps : Keeps (Good R) (delete_sniffer k)
  unfolding delete_sniffer
  delete_sniffer-Keeps = Keeps-bind Keeps-this (λ s.
      Keeps-then (Keeps-when _ (Keeps-then (on_sniffer-Keeps (disconnect-Ends k)) Keeps-give))
        (Keeps-modify (λ s g. Good-sniffer none s g)))

  sniffer_added : Keeps (Good R) (initialize_publisher_telnet_sniffer k)
  unfolding initialize_publisher_telnet_sniffer
  sniffer_added = Keeps-bind Keeps-this (λ s. Keeps-when _ (
      Keeps-then delete_sniffer-Keeps (
        Keeps-then (Keeps-modify (λ s g. Good-sniffer _ s g)) (
          Keeps-then
            (Keeps-catch (Keeps-then (on_sniffer-Keeps (initialize-Ends k sound)) Keeps-give)
              delete_sniffer-Keeps)
            (Keeps-bind Keeps-this (λ t. Keeps-when _ (add_to_list-Keeps _)))))))

  pub initialize_publishers-Keeps : Keeps (Good R) (initialize_publishers k)
  unfolding initialize_publishers
  initialize_publishers-Keeps = Keeps-bind Keeps-this (λ s. Keeps-then file_added (
      Keeps-then (observatory_data_added s.observatory s.data_listeners) (
        Keeps-then (command_added _) (
          Keeps-then (comm_added publisher_instrument_data _)
            (Keeps-then (comm_added publisher_instrument_command _) sniffer_added)))))
