-- ===== src/Connection/Observatory.antt =====
-- port_agent/connection/observatory_connection.cxx and observatory_multi_connection.cxx: the
-- listeners for the drivers. The data sockets of the second stand in a list of their own.
use port_agent.Prelude.{◌==◌, if◌then◌else◌, ℕ, Bool, true, false, not, List, [], ◌∷◌, ◌++◌}
use port_agent.Network.{
  Kernel, Outcome, done, thrown, unfinished, M, ◌>>=◌, ◌>>◌, give, this, modify, of_member, when,
}
use port_agent.Network.TcpCommListener.{
  TcpCommListener, new_listener, assign_listener, set_port, listening, connected, get_listen_port,
  initialize,
}

pub record ObservatoryConnection : Type 0 where
  pub data_socket : TcpCommListener
  pub command_socket : TcpCommListener

unfoldable pub new_observatory : ObservatoryConnection
unfolding new_listener
new_observatory = record { data_socket = new_listener; command_socket = new_listener }

-- ObservatoryConnection::copy; the operator= of the sockets assigns nothing.
unfoldable pub copy_observatory :
    ObservatoryConnection → ObservatoryConnection → ObservatoryConnection
unfolding assign_listener
copy_observatory c rhs = record {
  data_socket = assign_listener c.data_socket rhs.data_socket;
  command_socket = assign_listener c.command_socket rhs.command_socket;
}

abbrev pub on_data : {A : Type 0} → M TcpCommListener A → M ObservatoryConnection A
on_data = of_member (λ c. c.data_socket) (λ s c. record c { data_socket = s })

abbrev pub on_command : {A : Type 0} → M TcpCommListener A → M ObservatoryConnection A
on_command = of_member (λ c. c.command_socket) (λ s c. record c { command_socket = s })

abbrev pub data_initialized : ObservatoryConnection → Bool
data_initialized c = listening c.data_socket

abbrev pub command_initialized : ObservatoryConnection → Bool
command_initialized c = listening c.command_socket

abbrev pub data_connected : ObservatoryConnection → Bool
data_connected c = connected c.data_socket

abbrev pub command_connected : ObservatoryConnection → Bool
command_connected c = connected c.command_socket

abbrev pub command_configured : ObservatoryConnection → Bool
command_configured c = not (c.command_socket.port == 0)

unfoldable pub set_command_port : ℕ → ObservatoryConnection → ObservatoryConnection
unfolding set_port
set_command_port port c = record c { command_socket = set_port port c.command_socket }

module _ (k : Kernel) where
  -- ObservatoryConnection::setDataPort
  unfoldable pub set_listener_port : ℕ → M TcpCommListener (Unit {0})
  unfolding set_port
  set_listener_port port = do
    modify (set_port port)
    l ← this
    if listening l
        then (do bound ← get_listen_port k; when (not (l.port == bound)) (do initialize k; give tt))
        else give tt

  unfoldable pub set_data_port : ℕ → M ObservatoryConnection (Unit {0})
  unfolding set_listener_port
  set_data_port port = on_data (set_listener_port port)

-- ObservatoryMultiConnection holds the command socket; the data sockets are the list of
-- ObservatoryDataSockets.
pub record ObservatoryMultiConnection : Type 0 where
  pub multi_command_socket : TcpCommListener
  pub data_sockets : List TcpCommListener

unfoldable pub copy_multi :
    ObservatoryMultiConnection → ObservatoryMultiConnection → ObservatoryMultiConnection
unfolding assign_listener
copy_multi c rhs = record c {
  multi_command_socket = assign_listener c.multi_command_socket rhs.multi_command_socket;
}

-- addSocket removes an equal pointer, and a new object's pointer is new.
unfoldable pub add_socket :
    TcpCommListener → ObservatoryMultiConnection → ObservatoryMultiConnection
add_socket l c = record c { data_sockets = c.data_sockets ++ l ∷ [] }

-- The walks over the data sockets with getFirstSocket and getNextSocket.
unfoldable pub all_listeners : (TcpCommListener → Bool) → List TcpCommListener → Bool
all_listeners p [] = true
all_listeners p (l ∷ ls) = let rest = all_listeners p ls in if p l then rest else false

-- isDataInitialized, and dataConnected, which asks the same of the listeners.
unfoldable pub is_data_initialized : ObservatoryMultiConnection → Bool
unfolding all_listeners
is_data_initialized c = all_listeners listening c.data_sockets

unfoldable pub multi_data_connected : ObservatoryMultiConnection → Bool
unfolding all_listeners
multi_data_connected c = all_listeners listening c.data_sockets

-- dataConfigured: TCPCommListener::isConfigured is always true.
unfoldable pub multi_data_configured : ObservatoryMultiConnection → Bool
unfolding all_listeners
multi_data_configured c = all_listeners (λ l. true) c.data_sockets

abbrev pub multi_command_initialized : ObservatoryMultiConnection → Bool
multi_command_initialized c = listening c.multi_command_socket

abbrev pub behind :
    TcpCommListener
    → Outcome (List TcpCommListener) (Unit {0})
    → Outcome (List TcpCommListener) (Unit {0})
behind l (done a ls h) = done a (l ∷ ls) h
behind l (thrown e ls h) = thrown e (l ∷ ls) h
behind l unfinished = unfinished

-- A method on each listener in turn, until one raises.
unfoldable pub for_each : M TcpCommListener (Unit {0}) → M (List TcpCommListener) (Unit {0})
for_each m [] h = done tt [] h
for_each m (l ∷ ls) h = elim (m l h) [
  | done a l' h' ↦ behind l' (for_each m ls h')
  | thrown e l' h' ↦ thrown e (l' ∷ ls) h'
  | unfinished ↦ unfinished
]

module _ (k : Kernel) where
  unfoldable pub initialize_data_sockets : M ObservatoryMultiConnection (Unit {0})
  unfolding for_each
  initialize_data_sockets =
      of_member (λ c. c.data_sockets) (λ ls c. record c { data_sockets = ls })
        (for_each (do initialize k; give tt))

  -- addListener: the listener is listening before it is added.
  unfoldable pub add_listener : ℕ → M ObservatoryMultiConnection (Unit {0})
  unfolding new_listener set_port add_socket
  add_listener port c h = elim (initialize k (set_port port new_listener) h) [
    | done a l h' ↦ done tt (add_socket l c) h'
    | thrown e l h' ↦ thrown e c h'
    | unfinished ↦ unfinished
  ]
