-- ===== src/Session/Endings/Several.antt =====
-- The methods of several listeners end.
use port_agent.Prelude.{◌==◌, ℕ, ◌≡◌, Bool, false, List, [], ◌∷◌}
use port_agent.Network.{History, Kernel, Outcome, done, thrown, unfinished, M}
use port_agent.Network.Hoare.{Post, Sound}
use port_agent.Network.TcpCommListener.{TcpCommListener, new_listener, set_port, initialize}
use port_agent.Connection.Observatory.{
  ObservatoryMultiConnection, add_socket, behind, for_each, initialize_data_sockets, add_listener,
}
use port_agent.Session.Keeping.{
  is_unknown_state, Ends, Keeps-then, Keeps-if, Keeps-give, Keeps-member, Ends-of,
}
use port_agent.Session.Endings.{initialize-Ends}
use port_agent.Session.Observatories.{add_listeners}

behind-Post :
    (l : TcpCommListener) (o : Outcome (List TcpCommListener) (Unit {0}))
    → Post o (λ _ s' h'. Unit {0}) (λ e s' h'. Unit {0} × (is_unknown_state e ≡ false))
    → Post (behind l o) (λ _ s' h'. Unit {0}) (λ e s' h'. Unit {0} × (is_unknown_state e ≡ false))
behind-Post l (done a ls h) p = p
behind-Post l (thrown e ls h) p = p
behind-Post l unfinished p = p

module _ (m : M TcpCommListener (Unit {0})) (ends : Ends m) where
  cons_ends :
      (ls : List TcpCommListener)
      (rest : (h' : History)
        → Post
            (for_each m ls h')
            (λ _ s' h'. Unit {0})
            (λ e s' h'. Unit {0} × (is_unknown_state e ≡ false)))
      (o : Outcome TcpCommListener (Unit {0}))
      → Post o (λ _ s' h'. Unit {0}) (λ e s' h'. Unit {0} × (is_unknown_state e ≡ false))
      → Post
          (elim o as (λ _. Outcome (List TcpCommListener) (Unit {0})) [
            | done a l' h' ↦ behind l' (for_each m ls h')
            | thrown e l' h' ↦ thrown e (l' ∷ ls) h'
            | unfinished ↦ unfinished
          ])
          (λ _ s' h'. Unit {0})
          (λ e s' h'. Unit {0} × (is_unknown_state e ≡ false))
  cons_ends ls rest (done a l' h') p = behind-Post l' (for_each m ls h') (rest h')
  cons_ends ls rest (thrown e l' h') p = p
  cons_ends ls rest unfinished p = absurd p

  all_end :
      (ls : List TcpCommListener) (h : History)
      → Post
          (for_each m ls h)
          (λ _ s' h'. Unit {0})
          (λ e s' h'. Unit {0} × (is_unknown_state e ≡ false))
  unfolding for_each
  all_end [] h = tt
  all_end (l ∷ ls) h = cons_ends ls (all_end ls) (m l h) (ends.kept l h tt)

  pub for_each-Ends : Ends (for_each m)
  for_each-Ends = Ends-of all_end

module _ (k : Kernel) (sound : Sound k) where
  added :
      (c : ObservatoryMultiConnection) (o : Outcome TcpCommListener Bool)
      → Post o (λ _ s' h'. Unit {0}) (λ e s' h'. Unit {0} × (is_unknown_state e ≡ false))
      → Post
          (elim o as (λ _. Outcome ObservatoryMultiConnection (Unit {0})) [
            | done a l h' ↦ done tt (add_socket l c) h'
            | thrown e l h' ↦ thrown e c h'
            | unfinished ↦ unfinished
          ])
          (λ _ s' h'. Unit {0})
          (λ e s' h'. Unit {0} × (is_unknown_state e ≡ false))
  added c (done a l h) p = p
  added c (thrown e l h) p = p
  added c unfinished p = p

  add_listener-Ends : (port : ℕ) → Ends (add_listener k port)
  unfolding add_listener
  add_listener-Ends port = Ends-of (λ c h.
      let ends = initialize-Ends k sound in
      added c (initialize k (set_port port new_listener) h)
        (ends.kept (set_port port new_listener) h tt))

  pub add_listeners-Ends : (ports : List ℕ) → Ends (add_listeners k ports)
  unfolding add_listeners
  add_listeners-Ends [] = Ends-of (λ c h. tt)
  add_listeners-Ends (port ∷ ports) =
      Keeps-if (port == 0) Keeps-give
        (Keeps-then (add_listener-Ends port) (add_listeners-Ends ports))

  pub initialize_data_sockets-Ends : Ends (initialize_data_sockets k)
  unfolding initialize_data_sockets
  initialize_data_sockets-Ends =
      Keeps-member _ _ (λ t s p. tt)
        (for_each-Ends _ (Keeps-then (initialize-Ends k sound) Keeps-give))
