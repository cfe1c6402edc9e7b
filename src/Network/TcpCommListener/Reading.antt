-- ===== src/Network/TcpCommListener/Reading.antt =====
-- What reading from a client does to a listener, and the port that stays taken.
use port_agent.Prelude.{
  ◌==◌, if◌then◌else◌, Bytes, length, ℤ, ℕ, suc, ◌≡◌, refl, ap, ◌∙◌, ◌⊎◌, inl, inr, Bool, true,
  false, List, [], ◌∷◌, arith,
}
use port_agent.Network.{
  eagain, einprogress, etimedout, eaddrinuse, other_errno, read_from, Reply, failed, gives, History,
  Kernel, CommError, socket_read_failure, ◌>>=◌, ◌>>◌, give, of_member, catch_connect_failure,
  is_positive, when, is_errno, bytes_of,
}
use port_agent.Network.Hoare.{Post, Post-bind, Post-map, Returns-Post, owned, Sound}
use port_agent.Network.TcpCommListener.{
  TcpCommListener, listening, connected, initialize, drop_client, disconnect_client, read_data,
}
use port_agent.Network.TcpCommListener.Binding.{
  last_port, listens_on, Initialized, NotInitialized, initialize_outcome,
}
use port_agent.Network.TcpCommListener.Clients.{server_part, Holds, drop_client_outcome}

-- The client is gone and the listener listens again, on its port if it has one.
abbrev pub Restarted : TcpCommListener → List ℤ → TcpCommListener → History → Type 0
Restarted l rest l' h' =
    (connected l' ≡ false)
    × (listening l' ≡ true)
    × (l'.port ≡ l.port)
    × (owned h' ≡ l'.server_fd ∷ server_part l rest)
    × ((l.port ≡ 0) ⊎ (last_port h' ≡ l.port))
    × (listens_on l'.server_fd h' ≡ true)

gone :
    (l l1 : TcpCommListener) (h1 : History) (l' : TcpCommListener) (h' : History)
    → connected l1 ≡ false
    → l1.port ≡ l.port
    → NotInitialized l1 h1 l' h'
    → (connected l' ≡ false) × (l'.port ≡ l.port)
gone l l1 h1 l' h' c p (inl e, _) = (ap connected e ∙ c, ap (λ x. x.port) e ∙ p)
gone l l1 h1 l' h' c p (inr e, _) = (ap connected e ∙ c, ap (λ x. x.port) e ∙ p)

restarted :
    (l l1 : TcpCommListener) (h1 : History) (rest : List ℤ) (l' : TcpCommListener) (h' : History)
    → Holds l1 h1 rest
    → connected l1 ≡ false
    → l1.port ≡ l.port
    → l1.server_fd ≡ l.server_fd
    → Initialized l1 h1 l' h'
    → Restarted l rest l' h'
restarted l l1 h1 rest l' h' v c p s q =
    let o : owned h1 ≡ server_part l rest =
      v.open_fds ∙ (rw c refl ∙ ap (λ fd. if is_positive fd then fd ∷ rest else rest) s) in
    (
      ap connected q.0 ∙ c,
      q.1,
      ap (λ x. x.port) q.0 ∙ p,
      q.2 ∙ ap (λ x. l'.server_fd ∷ x) o,
      ground (arith, q.3),
      q.4,
    )

module _ (k : Kernel) (sound : Sound k) where
  -- disconnectClient where the server does not shut down.
  restart_outcome :
      (l : TcpCommListener) (h : History) (rest : List ℤ)
      → Holds l h rest
      → Post
          (disconnect_client k false l h)
          (λ _ l' h'. Restarted l rest l' h')
          (λ e l' h'. (connected l' ≡ false) × (l'.port ≡ l.port))
  unfolding disconnect_client ◌>>=◌ ◌>>◌ when of_member catch_connect_failure
  restart_outcome l h rest v =
      Post-bind (drop_client k) _ l h
        (λ _ l' h'.
          Holds l' h' rest
          × (connected l' ≡ false)
          × (l'.port ≡ l.port)
          × (l'.server_fd ≡ l.server_fd))
        _ _
        (Returns-Post (drop_client k l h) _ _ _ (λ _ l' h' p. p) (drop_client_outcome k l h rest v))
        (λ _ l1 h1 p.
          Post-bind (initialize k >> give tt) _ l1 h1 (λ _ l' h'. Restarted l rest l' h') _ _
            (Post-bind (initialize k) _ l1 h1 _ _ _
              (Post-map (initialize k l1 h1) _ _ _ _ (λ _ l' h' q. q)
                (λ e l' h' q. gone l l1 h1 l' h' p.1 p.2 q) (initialize_outcome k sound l1 h1))
              (λ _ l' h' q. restarted l l1 h1 rest l' h' p.0 p.1 p.2 p.3 q))
            (λ _ l' h' q. q))

-- The client is gone: its end was read, or it timed out.
abbrev pub leaves : Reply → Bool
leaves (gives n bytes) = length bytes == 0
leaves (failed e) = is_errno e etimedout

-- The outcome of a read that was answered by `r`.
abbrev pub ReadReturns :
    Reply → TcpCommListener → List ℤ → Bytes → TcpCommListener → History → Type 0
ReadReturns r l rest bytes l' h' =
    if leaves r
    then (bytes ≡ []) × Restarted l rest l' h'
    else (bytes ≡ bytes_of r) × (l' ≡ l) × Holds l' h' rest

abbrev pub ReadRaises : Reply → TcpCommListener → CommError → TcpCommListener → Type 0
ReadRaises r l e l' =
    if leaves r
    then (connected l' ≡ false) × (l'.port ≡ l.port)
    else (l' ≡ l) × (e ≡ socket_read_failure)

module _ (k : Kernel) (sound : Sound k) where
  left_outcome :
      {A : Type 0} (a : A) (l : TcpCommListener) (g : History) (rest : List ℤ)
      → Holds l g rest
      → Post
          ((disconnect_client k false >> give a) l g)
          (λ b l' h'. (b ≡ a) × Restarted l rest l' h')
          (λ e l' h'. (connected l' ≡ false) × (l'.port ≡ l.port))
  unfolding ◌>>◌ ◌>>=◌
  left_outcome a l g rest v =
      Post-bind (disconnect_client k false) _ l g _ _ _ (restart_outcome k sound l g rest v)
        (λ _ l' h' q. (refl, q))

  answered_outcome :
      (size : ℕ) (l : TcpCommListener) (h : History) (rest : List ℤ) (r : Reply)
      → Holds l h rest
      → connected l ≡ true
      → k h (read_from l.client_fd size) ≡ r
      → Post
          (read_data k size l h)
          (λ bytes l' h'. ReadReturns r l rest bytes l' h')
          (λ e l' h'. ReadRaises r l e l')
  unfolding read_data ◌>>=◌ ◌>>◌ when of_member catch_connect_failure
  answered_outcome size l h rest (failed eagain) v c eq =
      rw (c, eq) (refl, refl, record { open_fds = v.open_fds; natural = v.natural })
  answered_outcome size l h rest (failed einprogress) v c eq =
      rw (c, eq) (refl, refl, record { open_fds = v.open_fds; natural = v.natural })
  answered_outcome size l h rest (failed etimedout) v c eq =
      rw (c, eq) (left_outcome [] l _ rest (record { open_fds = v.open_fds; natural = v.natural }))
  answered_outcome size l h rest (failed eaddrinuse) v c eq = rw (c, eq) (refl, refl)
  answered_outcome size l h rest (failed other_errno) v c eq = rw (c, eq) (refl, refl)
  answered_outcome size l h rest (gives n []) v c eq =
      let h1 : History = (read_from l.client_fd size, gives n []) ∷ h in
      rw (c, eq)
        (Post-bind (disconnect_client k false >> give tt) _ l h1 (λ _ l' h'. Restarted l rest l' h')
          _ _
          (Post-map ((disconnect_client k false >> give tt) l h1) _ _ _ _ (λ _ l' h' q. q.1)
            (λ e l' h' q. q)
            (left_outcome tt l h1 rest (record { open_fds = v.open_fds; natural = v.natural })))
          (λ _ l' h' q. (refl, q)))
  answered_outcome size l h rest (gives n (b ∷ bytes)) v c eq =
      let z : (suc (length bytes) == 0) ≡ false = ground arith in
      rw (c, eq, z) (refl, refl, record { open_fds = v.open_fds; natural = v.natural })

  -- Reading, with a sound kernel, from the client of a listener that holds its descriptors. Data
  -- are handed on and leave the listener as it is. When the client is gone nothing is handed on,
  -- and the listener has a new server descriptor for the next one, on its port if it has one, on
  -- which listen was called and did not fail; a server descriptor that it still had stays open besides. A read that
  -- fails otherwise raises, and a listener that could not be restarted has no client.
  pub read_data_outcome :
      (size : ℕ) (l : TcpCommListener) (h : History) (rest : List ℤ)
      → Holds l h rest
      → connected l ≡ true
      → let r = k h (read_from l.client_fd size) in
        Post
          (read_data k size l h)
          (λ bytes l' h'. ReadReturns r l rest bytes l' h')
          (λ e l' h'. ReadRaises r l e l')
  read_data_outcome size l h rest v c = answered_outcome size l h rest _ v c refl
