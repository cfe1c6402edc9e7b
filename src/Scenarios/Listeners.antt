-- ===== src/Scenarios/Listeners.antt =====
-- A kernel whose clock ticks when the program sleeps, and the listener's theorems under it.
use port_agent.Prelude.{
  if◌then◌else◌, codes, length, ℤ, pos, negsuc, ℕ, suc, ◌+◌, ◌≤◌, ◌≡◌, refl, inr, Bool, false,
  Option, none, some, [], ◌∷◌, arith,
}
use port_agent.Network.{
  eaddrinuse, other_errno, Call, socket_stream, reuse_address, bind_port, accept_from, get_host,
  socket_port, write_to, elapsed, wait, Reply, failed, gives, History, Kernel,
  socket_connect_failure, Outcome, done, thrown, unfinished, ◌>>=◌, ◌>>◌, of_member, when,
  write_rounds,
}
use port_agent.Network.Hoare.{Post, Returns, owned, seconds, is_wait, Sound}
use port_agent.Network.TcpCommListener.{
  TcpCommListener, new_listener, set_port, listening, connected, disconnect_server, get_listen_port,
  bind_loop, start_listening, initialize, disconnect, take_client, accept_client, read_data,
}
use port_agent.Network.Sending.{Takes, Sends, write_rounds_sent}
use port_agent.Network.CommSocket.{
  CommSocket, new_socket, socket_connected, disconnect_socket, initialize_tcp,
}
use port_agent.Network.CommSocket.Connecting.{initialize_tcp-disconnect}
use port_agent.Network.TcpCommListener.Binding.{Initialized, NotInitialized, initialize_outcome}
use port_agent.Network.TcpCommListener.Clients.{Holds, disconnect_releases}
use port_agent.Network.TcpCommListener.Accepting.{Accepted, accept_client_outcome}
use port_agent.Network.TcpCommListener.Reading.{ReadReturns, ReadRaises, read_data_outcome}
use port_agent.Network.TcpCommListener.Stalling.{read_data_stalls}

-- The seconds that were slept.
abbrev slept : History → ℕ
slept [] = 0
slept ((wait, r) ∷ h) = suc (slept h)
slept ((c, r) ∷ h) = slept h

-- Every call succeeds with a new descriptor; writes take a byte, and reads meet the end.
abbrev pub lively : Kernel
lively h socket_stream = gives (suc (suc (suc (length h)))) []
lively h (accept_from fd) = gives (suc (suc (suc (length h)))) []
lively h (reuse_address (negsuc n)) = failed other_errno
lively h (socket_port fd) = gives 4001 []
lively h (elapsed since) = gives (slept h) []
lively h (get_host name) = failed other_errno
lively h (write_to fd buffer) = gives 1 []
lively h c = gives 0 []

slept_ticks :
    (h : History) (c : Call) (r : Reply)
    → slept h + (if is_wait c then 1 else 0) ≤ slept ((c, r) ∷ h)
slept_ticks h wait r = omega arith
slept_ticks h c r = omega arith

pub lively-Sound : Sound lively
lively-Sound = record {
  ticks = λ h c r since. slept_ticks h c r;
  refuses = λ h n. refl;
  no_stream = λ h fd. ground arith;
}

-- The same where every port is taken.
abbrev crowded : Kernel
crowded h (bind_port fd port) = failed eaddrinuse
crowded h c = lively h c

crowded-Sound : Sound crowded
crowded-Sound = record {
  ticks = λ h c r since. slept_ticks h c r;
  refuses = λ h n. refl;
  no_stream = λ h fd. ground arith;
}

-- It listens on 4001 and has a client.
abbrev busy : TcpCommListener
busy = record { blocking = false; port = 4001; server_fd = pos 5; client_fd = pos 7 }

abbrev busy_history : History
busy_history = (accept_from (pos 5), gives 7 []) ∷ (socket_stream, gives 5 []) ∷ []

busy-Holds : Holds busy busy_history []
busy-Holds = record { open_fds = refl; natural = refl }

abbrev waiting : TcpCommListener
waiting = record busy { client_fd = pos 0 }

abbrev waiting_history : History
waiting_history = (socket_stream, gives 5 []) ∷ []

waiting-Holds : Holds waiting waiting_history []
waiting-Holds = record { open_fds = refl; natural = refl }

abbrev outcome_listener : Outcome TcpCommListener Bool → Option TcpCommListener
outcome_listener (done b l h) = some l
outcome_listener (thrown e l h) = none
outcome_listener unfinished = none

initialize_works :
    outcome_listener (initialize lively (set_port 4001 new_listener) [])
    ≡ some (record { blocking = false; port = 4001; server_fd = pos 3; client_fd = pos 0 })
unfolding initialize set_port new_listener bind_loop start_listening get_listen_port ◌>>=◌ ◌>>◌ when
    of_member
initialize_works = refl

-- A client that is not to stay: the listener stops listening.
accept_once_works :
    outcome_listener (accept_client lively false waiting waiting_history)
    ≡ some (record busy { server_fd = pos 0; client_fd = pos 4 })
unfolding accept_client take_client disconnect_server ◌>>=◌ ◌>>◌ when of_member
accept_once_works = refl

initialize_outcome_example :
    Post
      (initialize lively waiting waiting_history)
      (λ _ l' h'. Initialized waiting waiting_history l' h')
      (λ e l' h'. NotInitialized waiting waiting_history l' h')
initialize_outcome_example = initialize_outcome lively lively-Sound waiting waiting_history

accept_client_outcome_example :
    Post
      (accept_client lively false waiting waiting_history)
      (λ b l' h'. Accepted lively lively-Sound false waiting [] b l' h')
      (λ e l' h'. (l' ≡ waiting) × Holds l' h' [])
accept_client_outcome_example =
    accept_client_outcome lively lively-Sound false waiting waiting_history [] waiting-Holds

disconnect_releases_example : Returns (disconnect lively busy busy_history) (λ _ l' h'.
    (owned h' ≡ []) × (connected l' ≡ false) × (listening l' ≡ false) × (l'.port ≡ 4001))
disconnect_releases_example = disconnect_releases lively busy busy_history [] busy-Holds

read_data_outcome_example :
    Post
      (read_data lively 10 busy busy_history)
      (λ bytes l' h'. ReadReturns (gives 0 []) busy [] bytes l' h')
      (λ e l' h'. ReadRaises (gives 0 []) busy e l')
read_data_outcome_example =
    read_data_outcome lively lively-Sound 10 busy busy_history [] busy-Holds refl

read_data_stalls_example :
    Post
      (read_data crowded 10 busy busy_history)
      (λ _ l' h'. ⊥)
      (λ e l' h'.
        (e ≡ socket_connect_failure)
        × (connected l' ≡ false)
        × (l'.server_fd ≡ pos 5)
        × ((start : ℕ) × (2 ≤ start) × (10 ≤ seconds crowded h' start)))
read_data_stalls_example =
    read_data_stalls crowded crowded-Sound 4001 (λ h fd. refl) 10 busy busy_history [] refl
      busy-Holds refl refl (λ g. (suc (suc (length g)), [], refl)) (λ g m. refl)

-- A byte each time.
pub lively-Takes : (fd : ℤ) → Takes lively fd
lively-Takes fd h [] e = absurd (e refl)
lively-Takes fd h (x ∷ l) e = inr (omega arith, omega arith)

write_rounds_sent_example :
    Sends lively
      (pos 7)
      (λ l. l)
      (lively-Takes (pos 7))
      (write_rounds lively 4 (pos 7) (λ l. l) (1 ∷ 2 ∷ 3 ∷ []) 0 busy busy_history)
      (1 ∷ 2 ∷ 3 ∷ [])
      0
      busy
      busy_history
write_rounds_sent_example =
    write_rounds_sent lively (pos 7) (λ l. l) (lively-Takes (pos 7)) 4 (1 ∷ 2 ∷ 3 ∷ []) 0 busy
      busy_history (omega arith)

abbrev configured_socket : CommSocket
configured_socket = record new_socket { hostname = codes "rsn"; port = 4002 }

initialize_tcp-disconnect_example :
    Post
      (initialize_tcp lively configured_socket [])
      (λ _ s1 h1.
        Returns
          (disconnect_socket lively s1 h1)
          (λ _ s2 h2. (owned h2 ≡ []) × (socket_connected s2 ≡ false)))
      (λ _ s1 h1.
        Returns
          (disconnect_socket lively s1 h1)
          (λ _ s2 h2. (owned h2 ≡ []) × (socket_connected s2 ≡ false)))
unfolding new_socket ◌>>=◌ ◌>>◌ when of_member
initialize_tcp-disconnect_example = initialize_tcp-disconnect lively configured_socket [] refl refl
