-- ===== src/Network/CommSocket/Connecting.antt =====
-- What the attempt to connect leaves of a TCP socket, and that disconnecting undoes it.
use port_agent.Prelude.{ltb, ◌==◌, ℤ, pos, ◌≡◌, refl, ap, ◌∙◌, ◌⊎◌, inl, inr, true, false, arith}
use port_agent.Network.{
  socket_stream, Reply, failed, gives, History, Kernel, CommError, socket_missing_config, ◌>>=◌,
  ◌>>◌, of_member, catch_connect_failure, descriptor, when, is_zero,
}
use port_agent.Network.Hoare.{Post, Returns, Post-map, without, after_call, owned}
use port_agent.Network.CommSocket.{
  CommSocket, socket_connected, socket_configured, disconnect_socket, initialize_tcp,
}

abbrev pub with_fd : ℤ → CommSocket → CommSocket
with_fd fd s = record s { socket_fd = fd }

-- The object behind an exception of initialize.
abbrev pub NotConnected : Kernel → CommSocket → History → CommError → CommSocket → History → Type 0
NotConnected k s h e s' h' =
    ((e ≡ socket_missing_config) × (socket_configured s ≡ false) × (s' ≡ s) × (h' ≡ h))
    ⊎ ((s' ≡ with_fd (descriptor (k h socket_stream)) s)
        × (owned h' ≡ after_call socket_stream (k h socket_stream) (owned h)))

-- initialize without the configuration raises and does nothing. With it, however it ends, the
-- object holds the new descriptor, the only one that is open besides those before: also where the
-- host is unknown or refuses, so that connected() is true of it. m_bConnected is true only where
-- it returns.
pub initialize_tcp_outcome :
    (k : Kernel) (s : CommSocket) (h : History)
    → let fd = descriptor (k h socket_stream) in
      Post
        (initialize_tcp k s h)
        (λ b s' h'.
          (socket_configured s ≡ true)
          × (s' ≡ record s { socket_fd = fd; is_connected = true })
          × (owned h' ≡ after_call socket_stream (k h socket_stream) (owned h)))
        (λ e s' h'. NotConnected k s h e s' h')
unfolding initialize_tcp ◌>>=◌ ◌>>◌ when of_member catch_connect_failure
initialize_tcp_outcome k s h = ground arith

-- disconnect of an object whose only descriptor is the newest.
closed :
    (k : Kernel) (s s1 : CommSocket) (h h1 : History) (r : Reply)
    → s1.socket_fd ≡ descriptor r
    → is_zero (descriptor r) ≡ false
    → owned h1 ≡ after_call socket_stream r (owned h)
    → Returns
        (disconnect_socket k s1 h1)
        (λ _ s2 h2. (owned h2 ≡ owned h) × (socket_connected s2 ≡ false))
unfolding disconnect_socket ◌>>=◌ ◌>>◌ when of_member catch_connect_failure
closed k s s1 h h1 (failed e) p z o = rw p (o, refl)
closed k s s1 h h1 (gives n bytes) p z o =
    let nz : ltb 0 n ≡ true = ground arith in
    let same : (n == n) ≡ true = ground arith in
    rw (p, nz) (ap (without (pos n)) o ∙ rw same refl, refl)

-- disconnect behind an attempt that raised.
raised :
    (k : Kernel) (s s1 : CommSocket) (h h1 : History) (e : CommError)
    → s.socket_fd ≡ pos 0
    → is_zero (descriptor (k h socket_stream)) ≡ false
    → NotConnected k s h e s1 h1
    → Returns
        (disconnect_socket k s1 h1)
        (λ _ s2 h2. (owned h2 ≡ owned h) × (socket_connected s2 ≡ false))
unfolding disconnect_socket ◌>>=◌ ◌>>◌ when of_member catch_connect_failure
raised k s s1 h h1 e p z (inl q) =
    let fd : s1.socket_fd ≡ pos 0 = ap (λ x. x.socket_fd) q.2 ∙ p in rw fd (ap owned q.3, refl)
raised k s s1 h h1 e p z (inr q) =
    closed k s s1 h h1 (k h socket_stream) (ap (λ x. x.socket_fd) q.0) z q.1

-- However an attempt to connect with no descriptor in the object ends, where socket() does not
-- give 0, a disconnect after it returns and leaves exactly the descriptors open that were open
-- before it.
pub initialize_tcp-disconnect :
    (k : Kernel) (s : CommSocket) (h : History)
    → s.socket_fd ≡ pos 0
    → is_zero (descriptor (k h socket_stream)) ≡ false
    → Post
        (initialize_tcp k s h)
        (λ _ s1 h1.
          Returns
            (disconnect_socket k s1 h1)
            (λ _ s2 h2. (owned h2 ≡ owned h) × (socket_connected s2 ≡ false)))
        (λ _ s1 h1.
          Returns
            (disconnect_socket k s1 h1)
            (λ _ s2 h2. (owned h2 ≡ owned h) × (socket_connected s2 ≡ false)))
unfolding disconnect_socket ◌>>=◌ ◌>>◌ when of_member catch_connect_failure
initialize_tcp-disconnect k s h p z =
    Post-map (initialize_tcp k s h) _ _ _ _
      (λ _ s1 h1 q. closed k s s1 h h1 (k h socket_stream) (ap (λ x. x.socket_fd) q.1) z q.2)
      (λ e s1 h1 q. raised k s s1 h h1 e p z q) (initialize_tcp_outcome k s h)
