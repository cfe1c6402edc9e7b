-- ===== src/Network/TcpCommListener/Binding.antt =====
-- The bind loop of initialize ends, and what initialize leaves.
use port_agent.Prelude.{
  ◌==◌, Bool-cases, length, ℤ, pos, u16, ℕ, zero, suc, ◌+◌, ◌<◌, ◌≡◌, refl, ◌∙◌, ◌⊎◌, inl, inr,
  Bool, true, false, not, ◌&&◌, ◌||◌, [], ◌∷◌, arith,
}
use port_agent.Network.{
  einprogress, fails_with, listen_on, socket_stream, reuse_address, bind_port, socket_port, elapsed,
  wait, Reply, failed, gives, History, Kernel, ◌>>=◌, ◌>>◌, of_member, is_connect_failure,
  catch_connect_failure, is_positive, when, number, is_failure,
}
use port_agent.Network.Hoare.{
  Post, Post-bind, Post-map, owned, seconds, Sound, same_fd, same_fd_refl,
}
use port_agent.Network.TcpCommListener.{
  TcpCommListener, listening, bind_rounds, get_listen_port, bind_loop, start_listening, initialize,
}

module _ (k : Kernel) (sound : Sound k) where
  -- With a round for each second that is left, the loop ends; it opens and closes nothing, and
  -- the exception, if any, is SocketConnectFailure.
  pub bind_loop_ends :
      (fuel : ℕ) (newsock : ℤ) (port start : ℕ) (l : TcpCommListener) (h : History)
      → 0 < fuel
      → 10 < fuel + seconds k h start
      → Post
          (bind_loop k fuel newsock port start l h)
          (λ _ l' h'. (l' ≡ l) × (owned h' ≡ owned h))
          (λ e l' h'. (l' ≡ l) × (owned h' ≡ owned h) × (is_connect_failure e ≡ true))
  unfolding bind_loop ◌>>=◌ ◌>>◌ when of_member catch_connect_failure
  bind_loop_ends zero newsock port start l h p f = absurd (omega arith)
  bind_loop_ends (suc fuel) newsock port start l h p f =
      let b = bind_port newsock port in
      let h1 : History = (b, k h b) ∷ h in
      let h2 : History = (elapsed start, k h1 (elapsed start)) ∷ h1 in
      let h3 : History = (wait, k h2 wait) ∷ h2 in
      ground (
        arith,
        sound.ticks h b (k h b) start,
        sound.ticks h1 (elapsed start) (k h1 (elapsed start)) start,
        sound.ticks h2 wait (k h2 wait) start,
        bind_loop_ends fuel newsock port start l h3,
      )

-- The port that getsockname gave, where that was the last call.
abbrev pub last_port : History → ℕ
last_port ((socket_port fd, r) ∷ h) = u16 (number r)
last_port _ = 0

-- The last call of listen was for this descriptor, and succeeded or is in progress.
abbrev pub is_accepted : Reply → Bool
is_accepted r = not (is_failure r) || fails_with einprogress r

abbrev pub listens_on : ℤ → History → Bool
listens_on fd [] = false
listens_on fd ((listen_on x, r) ∷ h) = same_fd x fd && is_accepted r
listens_on fd (e ∷ h) = listens_on fd h

abbrev pub with_server : ℤ → TcpCommListener → TcpCommListener
with_server fd l = record l { server_fd = fd }

start_listening_outcome :
    (k : Kernel) (newsock : ℤ) (l : TcpCommListener) (h : History)
    → is_positive newsock ≡ true
    → Post
        (start_listening k newsock l h)
        (λ _ l' h'.
          (l' ≡ with_server newsock l)
          × (owned h' ≡ owned h)
          × ((l.port ≡ 0) ⊎ (last_port h' ≡ l.port))
          × (listens_on newsock h' ≡ true))
        (λ e l' h'.
          ((l' ≡ l) ⊎ (l' ≡ with_server newsock l))
          × (owned h' ≡ owned h)
          × (is_connect_failure e ≡ true))
unfolding start_listening get_listen_port ◌>>=◌ ◌>>◌ when of_member catch_connect_failure
start_listening_outcome k newsock l h p = ground (arith, same_fd_refl newsock)

-- The listener after initialize, which leaves the client and the settings alone.
abbrev pub Initialized : TcpCommListener → History → TcpCommListener → History → Type 0
Initialized l h l' h' =
    (l' ≡ with_server l'.server_fd l)
    × (listening l' ≡ true)
    × (owned h' ≡ l'.server_fd ∷ owned h)
    × ((l.port ≡ 0) ⊎ (last_port h' ≡ l.port))
    × (listens_on l'.server_fd h' ≡ true)

abbrev pub NotInitialized : TcpCommListener → History → TcpCommListener → History → Type 0
NotInitialized l h l' h' =
    ((l' ≡ l) ⊎ (l' ≡ with_server l'.server_fd l))
    × ((owned h' ≡ owned h) ⊎ ((fd : ℤ) × (owned h' ≡ fd ∷ owned h)))

module _ (k : Kernel) (sound : Sound k) where
  bind_outcome :
      (newsock : ℤ) (start : ℕ) (l : TcpCommListener) (h : History)
      → is_positive newsock ≡ true
      → Post
          ((bind_loop k bind_rounds newsock l.port start >> start_listening k newsock) l h)
          (λ _ l' h'.
            (l' ≡ with_server newsock l)
            × (owned h' ≡ owned h)
            × ((l.port ≡ 0) ⊎ (last_port h' ≡ l.port))
            × (listens_on newsock h' ≡ true))
          (λ e l' h'. ((l' ≡ l) ⊎ (l' ≡ with_server newsock l)) × (owned h' ≡ owned h))
  unfolding ◌>>◌ ◌>>=◌
  bind_outcome newsock start l h p =
      Post-bind (bind_loop k bind_rounds newsock l.port start) (λ _. start_listening k newsock) l h
        (λ _ l' h'. (l' ≡ l) × (owned h' ≡ owned h)) _ _
        (Post-map (bind_loop k bind_rounds newsock l.port start l h) _ _ _ _ (λ _ l' h' q. q)
          (λ e l' h' q. (inl q.0, q.1))
          (bind_loop_ends k sound bind_rounds newsock l.port start l h (omega arith) (omega arith)))
        (λ _ l' h' q.
          Post-map (start_listening k newsock l' h') _ _ _ _ (λ _ l'' h'' r. ground arith)
            (λ e l'' h'' r. ground arith) (start_listening_outcome k newsock l' h' p))

  bound_outcome :
      (newsock : ℤ) (start : ℕ) (l : TcpCommListener) (h g : History)
      → is_positive newsock ≡ true
      → owned g ≡ newsock ∷ owned h
      → Post
          ((bind_loop k bind_rounds newsock l.port start >> start_listening k newsock) l g)
          (λ _ l' h'. Initialized l h l' h')
          (λ e l' h'. NotInitialized l h l' h')
  bound_outcome newsock start l h g p o =
      Post-map ((bind_loop k bind_rounds newsock l.port start >> start_listening k newsock) l g) _ _
        _ _ (λ _ l' h' q. ground arith) (λ e l' h' q. (ground arith, inr (newsock, q.1 ∙ o)))
        (bind_outcome newsock start l g p)

  -- What initialize does with the new socket.
  opened_outcome :
      (l : TcpCommListener) (h : History) (s : Reply)
      → k h socket_stream ≡ s
      → Post
          (initialize k l h)
          (λ _ l' h'. Initialized l h l' h')
          (λ e l' h'. NotInitialized l h l' h')
  unfolding initialize ◌>>=◌ ◌>>◌ when of_member catch_connect_failure
  opened_outcome l h (failed e) eq =
      let h1 : History = (socket_stream, failed e) ∷ h in
      rw (eq, sound.refuses h1 0) (inl refl, inl refl)
  opened_outcome l h (gives n bytes) eq =
      let h1 : History = (socket_stream, gives n bytes) ∷ h in
      let c = reuse_address (pos n) in
      let h2 : History = (c, k h1 c) ∷ h1 in
      elim (Bool-cases (n == 0)) [
        | inl z ↦ rw (eq, z) (inl refl, inr (pos n, refl))
        | inr z ↦ elim (Bool-cases (is_failure (k h1 c))) [
          | inl f ↦ rw (eq, z, f) (inl refl, inr (pos n, refl))
          | inr f ↦ rw (eq, z, f) (bound_outcome (pos n) (length h) l h h2 (ground arith) refl)
        ]
      ]

  -- With a sound kernel initialize ends. Where it returns, the listener has a new server
  -- descriptor, on which listen was called and did not fail, on its port if it has one, beside what
  -- was open before. Where it raises, at most
  -- one descriptor more is open than before. The client and the settings stay as they are.
  pub initialize_outcome :
      (l : TcpCommListener) (h : History)
      → Post
          (initialize k l h)
          (λ _ l' h'. Initialized l h l' h')
          (λ e l' h'. NotInitialized l h l' h')
  initialize_outcome l h = opened_outcome l h (k h socket_stream) refl
