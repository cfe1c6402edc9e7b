-- ===== src/Network/TcpCommListener/Stalling.antt =====
-- The port of a listener that still listens is taken when it is initialized again.
use port_agent.Prelude.{
  ◌==◌, Bool-cases, Bytes, length, ℤ, pos, ℕ, zero, suc, ◌+◌, ◌≤◌, ◌<◌, ◌≡◌, refl, sym, ap, subst,
  ◌∙◌, inl, inr, true, false, List, [], ◌∷◌, arith,
}
use port_agent.Network.{
  eagain, einprogress, etimedout, eaddrinuse, other_errno, Call, socket_stream, reuse_address,
  bind_port, read_from, elapsed, wait, Reply, failed, gives, History, Kernel, CommError,
  socket_connect_failure, ◌>>=◌, ◌>>◌, give, of_member, catch_connect_failure, when, is_failure,
}
use port_agent.Network.Hoare.{
  Post, Returns, Post-bind, Post-map, Returns-Post, Returns-and, seconds, Sound,
}
use port_agent.Network.TcpCommListener.{
  TcpCommListener, connected, bind_rounds, bind_loop, initialize, drop_client, disconnect_client,
  read_data,
}
use port_agent.Network.TcpCommListener.Clients.{Holds, drop_client_outcome}
use port_agent.Network.TcpCommListener.Reading.{leaves}

module _ (k : Kernel) (sound : Sound k) (port : ℕ)
    (taken : (h : History) (fd : ℤ) → k h (bind_port fd port) ≡ failed eaddrinuse) where
  bind_loop_stalls :
      (fuel : ℕ) (newsock : ℤ) (start : ℕ) (l : TcpCommListener) (h : History)
      → 0 < fuel
      → 10 < fuel + seconds k h start
      → Post
          (bind_loop k fuel newsock port start l h)
          (λ _ l' h'. ⊥)
          (λ e l' h'. (l' ≡ l) × (e ≡ socket_connect_failure) × (10 ≤ seconds k h' start))
  unfolding bind_loop ◌>>=◌ ◌>>◌ when of_member catch_connect_failure
  bind_loop_stalls zero newsock start l h p f = absurd (omega arith)
  bind_loop_stalls (suc fuel) newsock start l h p f =
      let b = bind_port newsock port in
      let h1 : History = (b, k h b) ∷ h in
      let h2 : History = (elapsed start, k h1 (elapsed start)) ∷ h1 in
      let h3 : History = (wait, k h2 wait) ∷ h2 in
      ground (
        arith,
        taken h newsock,
        sound.ticks h b (k h b) start,
        sound.ticks h1 (elapsed start) (k h1 (elapsed start)) start,
        sound.ticks h2 wait (k h2 wait) start,
        bind_loop_stalls fuel newsock start l h3,
      )

  abbrev TriedInVain : TcpCommListener → ℕ → CommError → TcpCommListener → History → Type 0
  TriedInVain l earliest e l' h' =
      (l' ≡ l)
      × (e ≡ socket_connect_failure)
      × ((start : ℕ) × (earliest ≤ start) × (10 ≤ seconds k h' start))

  initialize_stalls :
      (l : TcpCommListener) (h : History) (n : ℕ) (bytes : Bytes)
      → l.port ≡ port
      → k h socket_stream ≡ gives (suc n) bytes
      → ((g : History) (m : ℕ) → is_failure (k g (reuse_address (pos m))) ≡ false)
      → Post (initialize k l h) (λ _ l' h'. ⊥) (λ e l' h'. TriedInVain l (length h) e l' h')
  unfolding initialize ◌>>=◌ ◌>>◌ when of_member catch_connect_failure
  initialize_stalls l h n bytes p eq opt =
      let fd = pos (suc n) in
      let z : (suc n == 0) ≡ false = ground arith in
      let h1 : History = (socket_stream, gives (suc n) bytes) ∷ h in
      let h2 : History = (reuse_address fd, k h1 (reuse_address fd)) ∷ h1 in
      let loop : Post (bind_loop k bind_rounds fd l.port (length h) l h2) (λ _ l' h'. ⊥)
          (λ e l' h'. (l' ≡ l) × (e ≡ socket_connect_failure) × (10 ≤ seconds k h' (length h))) =
        subst
          (λ q.
            Post (bind_loop k bind_rounds fd q (length h) l h2) (λ _ l' h'. ⊥)
              (λ e l' h'. (l' ≡ l) × (e ≡ socket_connect_failure) × (10 ≤ seconds k h' (length h))))
          (sym p) (bind_loop_stalls bind_rounds fd (length h) l h2 (omega arith) (omega arith)) in
      rw (eq, z, opt h1 (suc n))
        (Post-bind (bind_loop k bind_rounds fd l.port (length h)) _ l h2 (λ _ l' h'. ⊥) _ _
          (Post-map (bind_loop k bind_rounds fd l.port (length h) l h2) _ _ _ _ (λ _ l' h' q. q)
            (λ e l' h' q. (q.0, q.1, (length h, omega arith, q.2))) loop)
          (λ _ l' h' q. absurd q))

  abbrev ClosedInVain : TcpCommListener → ℕ → CommError → TcpCommListener → History → Type 0
  ClosedInVain l earliest e l' h' =
      (e ≡ socket_connect_failure)
      × (connected l' ≡ false)
      × (l'.server_fd ≡ l.server_fd)
      × ((start : ℕ) × (earliest ≤ start) × (10 ≤ seconds k h' start))

  drop_client_grows :
      (l : TcpCommListener) (h : History)
      → Returns (drop_client k l h) (λ _ l' h'. length h ≤ length h')
  unfolding drop_client ◌>>=◌ ◌>>◌ when of_member catch_connect_failure
  drop_client_grows l h = elim (Bool-cases (connected l)) [
    | inl e ↦ rw e (omega arith)
    | inr e ↦ rw e (omega arith)
  ]

  restart_stalls :
      {A : Type 0} (a : A) (l : TcpCommListener) (h : History) (rest : List ℤ)
      → l.port ≡ port
      → Holds l h rest
      → ((g : History) → (n : ℕ) × (bytes : Bytes) × (k g socket_stream ≡ gives (suc n) bytes))
      → ((g : History) (m : ℕ) → is_failure (k g (reuse_address (pos m))) ≡ false)
      → Post
          ((disconnect_client k false >> give a) l h)
          (λ _ l' h'. ⊥)
          (λ e l' h'. ClosedInVain l (length h) e l' h')
  unfolding disconnect_client ◌>>=◌ ◌>>◌ when of_member catch_connect_failure
  restart_stalls a l h rest p v opened opt =
      Post-bind (disconnect_client k false) (λ _. give a) l h (λ _ l' h'. ⊥) _ _
        (Post-bind (drop_client k) _ l h
          (λ _ l1 h1.
            (length h ≤ length h1)
            × ((connected l1 ≡ false) × (l1.port ≡ l.port) × (l1.server_fd ≡ l.server_fd)))
          _ _
          (Returns-Post (drop_client k l h) _ _ _ (λ _ l1 h1 q. (q.0, (q.1.1, q.1.2, q.1.3)))
            (Returns-and (drop_client k l h) _ _ (drop_client_grows l h)
              (drop_client_outcome k l h rest v)))
          (λ _ l1 h1 q.
            let (n, bytes, eq) = opened h1 in
            Post-bind (initialize k >> give tt) _ l1 h1 (λ _ l' h'. ⊥) _ _
              (Post-bind (initialize k) _ l1 h1 (λ _ l' h'. ⊥) _ _
                (Post-map (initialize k l1 h1) _ _ _ _ (λ _ l' h' r. r)
                  (λ e l' h' r. (
                    r.1,
                    ap connected r.0 ∙ q.1.0,
                    ap (λ x. x.server_fd) r.0 ∙ q.1.2,
                    (r.2.0, omega (arith, q.0, r.2.1), r.2.2),
                  ))
                  (initialize_stalls l1 h1 n bytes (q.1.1 ∙ p) eq opt))
                (λ _ l' h' r. absurd r))
              (λ _ l' h' r. absurd r)))
        (λ _ l' h' q. absurd q)

  later_stalls :
      {A : Type 0} (a : A) (l : TcpCommListener) (h : History) (c : Call) (r : Reply)
      (rest : List ℤ)
      → l.port ≡ port
      → Holds l ((c, r) ∷ h) rest
      → ((g : History) → (n : ℕ) × (bytes : Bytes) × (k g socket_stream ≡ gives (suc n) bytes))
      → ((g : History) (m : ℕ) → is_failure (k g (reuse_address (pos m))) ≡ false)
      → Post
          ((disconnect_client k false >> give a) l ((c, r) ∷ h))
          (λ _ l' h'. ⊥)
          (λ e l' h'. ClosedInVain l (length h) e l' h')
  later_stalls a l h c r rest p v opened opt =
      Post-map ((disconnect_client k false >> give a) l ((c, r) ∷ h)) _ _ _ _ (λ _ l' h' q. q)
        (λ e l' h' q. (q.0, q.1, q.2, (q.3.0, omega (arith, q.3.1), q.3.2)))
        (restart_stalls a l ((c, r) ∷ h) rest p v opened opt)

  left_stalls :
      (size : ℕ) (l : TcpCommListener) (h : History) (rest : List ℤ) (r : Reply)
      → l.port ≡ port
      → Holds l h rest
      → connected l ≡ true
      → k h (read_from l.client_fd size) ≡ r
      → leaves r ≡ true
      → ((g : History) → (n : ℕ) × (bytes : Bytes) × (k g socket_stream ≡ gives (suc n) bytes))
      → ((g : History) (m : ℕ) → is_failure (k g (reuse_address (pos m))) ≡ false)
      → Post (read_data k size l h) (λ _ l' h'. ⊥) (λ e l' h'. ClosedInVain l (length h) e l' h')
  unfolding read_data ◌>>=◌ ◌>>◌ when of_member catch_connect_failure
  left_stalls size l h rest (failed etimedout) p v c eq left opened opt =
      rw (c, eq)
        (later_stalls [] l h _ _ rest p (record { open_fds = v.open_fds; natural = v.natural })
          opened opt)
  left_stalls size l h rest (failed eagain) p v c eq left opened opt = cc
  left_stalls size l h rest (failed einprogress) p v c eq left opened opt = cc
  left_stalls size l h rest (failed eaddrinuse) p v c eq left opened opt = cc
  left_stalls size l h rest (failed other_errno) p v c eq left opened opt = cc
  left_stalls size l h rest (gives n []) p v c eq left opened opt =
      let h1 : History = (read_from l.client_fd size, gives n []) ∷ h in
      rw (c, eq)
        (Post-bind (disconnect_client k false >> give tt) _ l h1 (λ _ l' h'. ⊥) _ _
          (later_stalls tt l h _ _ rest p (record { open_fds = v.open_fds; natural = v.natural })
            opened opt)
          (λ _ l' h' q. absurd q))
  left_stalls size l h rest (gives n (b ∷ bytes)) p v c eq left opened opt = absurd (ground arith)

  -- When the client of a listener leaves while its port is taken, as it is for a listener that
  -- was persistent and listens still, the read that notices it never returns: it tries to bind
  -- for ten seconds and raises. The listener keeps its server descriptor and has no client. The
  -- kernel is sound, and grants each socket and the option that is set on it.
  pub read_data_stalls :
      (size : ℕ) (l : TcpCommListener) (h : History) (rest : List ℤ)
      → l.port ≡ port
      → Holds l h rest
      → connected l ≡ true
      → leaves (k h (read_from l.client_fd size)) ≡ true
      → ((g : History) → (n : ℕ) × (bytes : Bytes) × (k g socket_stream ≡ gives (suc n) bytes))
      → ((g : History) (m : ℕ) → is_failure (k g (reuse_address (pos m))) ≡ false)
      → Post
          (read_data k size l h)
          (λ _ l' h'. ⊥)
          (λ e l' h'.
            (e ≡ socket_connect_failure)
            × (connected l' ≡ false)
            × (l'.server_fd ≡ l.server_fd)
            × ((start : ℕ) × (length h ≤ start) × (10 ≤ seconds k h' start)))
  unfolding read_data ◌>>=◌ ◌>>◌ when of_member catch_connect_failure
  read_data_stalls size l h rest p v c left opened opt =
      left_stalls size l h rest _ p v c refl left opened opt
