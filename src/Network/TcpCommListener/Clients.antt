-- ===== src/Network/TcpCommListener/Clients.antt =====
-- The descriptors that a listener holds, and what leaving a client and disconnecting does to them.
use port_agent.Prelude.{
  ◌==◌, if◌then◌else◌, Bool-cases, ℤ, pos, negsuc, is_negative_int, ◌≡◌, refl, ap, ◌∙◌, inl, inr,
  true, false, List, ◌∷◌, arith,
}
use port_agent.Network.{
  close_fd, Reply, History, Kernel, ◌>>=◌, ◌>>◌, of_member, catch_connect_failure, is_positive,
  when,
}
use port_agent.Network.Hoare.{Returns, Returns-bind, without, after_call, owned}
use port_agent.Network.TcpCommListener.{
  TcpCommListener, listening, connected, disconnect_server, drop_client, disconnect_client,
  disconnect,
}

-- The descriptors of the listener before the others.
abbrev pub server_part : TcpCommListener → List ℤ → List ℤ
server_part l rest = if listening l then l.server_fd ∷ rest else rest

abbrev pub held : TcpCommListener → List ℤ → List ℤ
held l rest = if connected l then l.client_fd ∷ server_part l rest else server_part l rest

-- The listener holds these descriptors beside `rest`.
pub record Holds (l : TcpCommListener) (h : History) (rest : List ℤ) : Type 0 where
  pub open_fds : owned h ≡ held l rest
  pub natural : is_negative_int l.client_fd ≡ false

-- Closing the descriptor that stands first.
pub close_first :
    (fd : ℤ) (r : Reply) (o rest : List ℤ)
    → is_negative_int fd ≡ false
    → o ≡ fd ∷ rest
    → after_call (close_fd fd) r o ≡ rest
close_first (pos n) r o rest p e =
    let same : (n == n) ≡ true = ground arith in ap (without (pos n)) e ∙ rw same refl
close_first (negsuc n) r o rest p e = cc

pub positive_natural : (fd : ℤ) → is_positive fd ≡ true → is_negative_int fd ≡ false
positive_natural (pos n) h = refl
positive_natural (negsuc n) h = cc

module _ (k : Kernel) where
  pub drop_client_outcome :
      (l : TcpCommListener) (h : History) (rest : List ℤ)
      → Holds l h rest
      → Returns (drop_client k l h) (λ _ l' h'.
        Holds l' h' rest
        × (connected l' ≡ false)
        × (l'.port ≡ l.port)
        × (l'.server_fd ≡ l.server_fd))
  unfolding drop_client ◌>>=◌ ◌>>◌ when of_member catch_connect_failure
  drop_client_outcome l h rest v = elim (Bool-cases (connected l)) [
    | inr e ↦ rw e (v, e, refl, refl)
    | inl e ↦
        let o : owned h ≡ l.client_fd ∷ server_part l rest = v.open_fds ∙ rw e refl in
        rw e (
          record {
            open_fds =
                close_first l.client_fd (k h (close_fd l.client_fd)) (owned h) (server_part l rest)
                  v.natural o;
            natural = refl;
          },
          refl,
          refl,
          refl,
        )
  ]

  close_server :
      (l : TcpCommListener) (h : History) (rest : List ℤ)
      → Holds l h rest
      → connected l ≡ false
      → Returns (disconnect_server k l h) (λ _ l' h'.
        (owned h' ≡ rest) × (connected l' ≡ false) × (listening l' ≡ false) × (l'.port ≡ l.port))
  unfolding disconnect_server ◌>>=◌ ◌>>◌ when of_member catch_connect_failure
  close_server l h rest v c = elim (Bool-cases (listening l)) [
    | inr e ↦ rw e (v.open_fds ∙ rw (c, e) refl, c, e, refl)
    | inl e ↦
        let o : owned h ≡ l.server_fd ∷ rest = v.open_fds ∙ rw (c, e) refl in
        rw e (
          close_first l.server_fd (k h (close_fd l.server_fd)) (owned h) rest
              (positive_natural l.server_fd e) o,
          c,
          refl,
          refl,
        )
  ]

  -- For a listener that holds its open descriptors before others, disconnect returns, and closes
  -- every descriptor that the listener holds and no other one.
  pub disconnect_releases :
      (l : TcpCommListener) (h : History) (rest : List ℤ)
      → Holds l h rest
      → Returns (disconnect k l h) (λ _ l' h'.
        (owned h' ≡ rest) × (connected l' ≡ false) × (listening l' ≡ false) × (l'.port ≡ l.port))
  unfolding disconnect disconnect_client ◌>>=◌ ◌>>◌ when of_member catch_connect_failure
  disconnect_releases l h rest v =
      Returns-bind (disconnect_client k true) _ l h
        (λ _ l' h'. Holds l' h' rest × (connected l' ≡ false) × (l'.port ≡ l.port)) _
        (Returns-bind (drop_client k) _ l h _ _ (drop_client_outcome l h rest v)
          (λ _ l1 h1 p. (p.0, p.1, p.2)))
        (λ _ l1 h1 p.
          Returns-bind (disconnect_server k) _ l1 h1 _ _ (close_server l1 h1 rest p.0 p.1)
            (λ _ l2 h2 q. (q.0, q.1, q.2, q.3 ∙ p.2)))
