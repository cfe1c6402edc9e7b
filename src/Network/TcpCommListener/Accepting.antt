-- ===== src/Network/TcpCommListener/Accepting.antt =====
-- What a client's request does to a listener and its descriptors.
use port_agent.Prelude.{
  ltb, ◌==◌, Bool-cases, ℤ, pos, negsuc, is_negative_int, ℕ, zero, suc, ◌≡◌, refl, sym, ap, subst,
  ◌∙◌, inl, inr, Bool, true, false, not, List, ◌∷◌, arith,
}
use port_agent.Network.{
  eagain, other_errno, accept_from, close_fd, Reply, failed, gives, History, Kernel, ◌>>=◌, ◌>>◌,
  give, of_member, catch_connect_failure, descriptor, when, is_errno, is_zero,
}
use port_agent.Network.Hoare.{
  Post, Returns, Returns-bind, Post-map, Returns-Post, without, after_call, owned, Sound,
}
use port_agent.Network.TcpCommListener.{
  TcpCommListener, listening, connected, disconnect_server, refuse_client, take_client,
  accept_client,
}
use port_agent.Network.TcpCommListener.Clients.{Holds, close_first, positive_natural}

-- Closing the second descriptor.
close_second :
    (fd sv : ℤ) (r : Reply) (o rest : List ℤ)
    → is_negative_int sv ≡ false
    → o ≡ fd ∷ sv ∷ rest
    → after_call (close_fd sv) r o ≡ fd ∷ rest
close_second (negsuc m) (pos n) r o rest p e =
    let same : (n == n) ≡ true = ground arith in ap (without (pos n)) e ∙ rw same refl
close_second (pos m) (pos n) r o rest p e = elim (Bool-cases (m == n)) [
  | inl s ↦
      let same : m ≡ n = ground arith in
      ap (without (pos n)) e ∙ (rw s (ap (λ x. pos x ∷ rest) (sym same)))
  | inr s ↦ let same : (n == n) ≡ true = ground arith in ap (without (pos n)) e ∙ rw (s, same) refl
]
close_second fd (negsuc n) r o rest p e = cc

module _ (k : Kernel) (sound : Sound k) where
  abbrev pub Accepted : Bool → TcpCommListener → List ℤ → Bool → TcpCommListener → History → Type 0
  Accepted persistent l rest true l' h' =
      Holds l' h' rest × (l'.port ≡ l.port) × (connected l' ≡ true) × (listening l' ≡ persistent)
  Accepted persistent l rest false l' h' = Holds l' h' rest × (l' ≡ l)

  server_closed :
      (l : TcpCommListener) (h : History) (rest : List ℤ)
      → listening l ≡ true
      → connected l ≡ true
      → is_negative_int l.client_fd ≡ false
      → owned h ≡ l.client_fd ∷ l.server_fd ∷ rest
      → Returns (disconnect_server k l h) (λ _ l' h'. Accepted false l rest true l' h')
  unfolding disconnect_server ◌>>=◌ ◌>>◌ when of_member catch_connect_failure
  server_closed l h rest p c n o = rw p (
    record {
      open_fds =
          close_second l.client_fd l.server_fd (k h (close_fd l.server_fd)) (owned h) rest
            (positive_natural l.server_fd p) o
          ∙ rw c refl;
      natural = n;
    },
    refl,
    c,
    refl,
  )

  server_left :
      (l l0 : TcpCommListener) (h : History) (rest : List ℤ)
      → listening l ≡ true
      → connected l ≡ true
      → is_negative_int l.client_fd ≡ false
      → l.port ≡ l0.port
      → owned h ≡ l.client_fd ∷ l.server_fd ∷ rest
      → Returns
          ((do when (not false) (do disconnect_server k; give tt); give true) l h)
          (λ b l' h'. (b ≡ true) × Accepted false l0 rest true l' h')
  unfolding ◌>>◌ ◌>>=◌ when
  server_left l l0 h rest p c n q o =
      Returns-bind (disconnect_server k >> give tt) _ l h
        (λ _ l' h'. Accepted false l0 rest true l' h') _
        (Returns-bind (disconnect_server k) _ l h (λ _ l' h'. Accepted false l rest true l' h') _
          (server_closed l h rest p c n o) (λ _ l' h' r. (r.0, r.1 ∙ q, r.2, r.3)))
        (λ _ l' h' r. (refl, r))

  take_client_outcome :
      (persistent : Bool) (l : TcpCommListener) (n : ℕ) (h : History) (rest : List ℤ)
      → listening l ≡ true
      → owned h ≡ pos (suc n) ∷ l.server_fd ∷ rest
      → Returns
          (take_client k persistent (pos (suc n)) l h)
          (λ b l' h'. (b ≡ true) × Accepted persistent l rest true l' h')
  unfolding take_client ◌>>=◌ ◌>>◌ when of_member catch_connect_failure
  take_client_outcome true l n h rest p o =
      let z : ltb 0 (suc n) ≡ true = ground arith in
      elim (Bool-cases l.blocking) [
        | inl b ↦
            rw b (refl, (record { open_fds = o ∙ rw (z, p) refl; natural = refl }, refl, z, p))
        | inr b ↦
            rw b (refl, (record { open_fds = o ∙ rw (z, p) refl; natural = refl }, refl, z, p))
      ]
  take_client_outcome false l n h rest p o =
      let z : ltb 0 (suc n) ≡ true = ground arith in
      elim (Bool-cases l.blocking) [
        | inl b ↦ rw b (server_left _ l h rest p z refl refl o)
        | inr b ↦ rw b (server_left _ l _ rest p z refl refl o)
      ]

  refuse_outcome :
      (l : TcpCommListener) (h : History) (rest : List ℤ) (r : Reply)
      → Holds l h rest
      → k h (accept_from l.server_fd) ≡ r
      → Post (refuse_client k l h) (λ _ l' h'. ⊥) (λ e l' h'. (l' ≡ l) × Holds l' h' rest)
  unfolding refuse_client ◌>>=◌ ◌>>◌ when of_member catch_connect_failure
  refuse_outcome l h rest (failed e) v eq =
      rw eq (refl, record { open_fds = v.open_fds; natural = v.natural })
  refuse_outcome l h rest (gives n bytes) v eq = elim (Bool-cases (ltb 0 n)) [
    | inr z ↦
        let z' : is_zero (descriptor (gives n bytes)) ≡ false =
          subst (λ r. is_zero (descriptor r) ≡ false) eq (sound.no_stream h l.server_fd) in
        absurd (ground arith)
    | inl z ↦
        rw (eq, z)
          (
            refl,
            record {
              open_fds =
                  close_first (pos n) (failed other_errno) (pos n ∷ owned h) _ refl refl
                  ∙ v.open_fds;
              natural = v.natural;
            },
          )
  ]

  answer_outcome :
      (persistent : Bool) (l : TcpCommListener) (h : History) (rest : List ℤ) (r : Reply)
      → Holds l h rest
      → listening l ≡ true
      → connected l ≡ false
      → k h (accept_from l.server_fd) ≡ r
      → Post
          (accept_client k persistent l h)
          (λ b l' h'. Accepted persistent l rest b l' h')
          (λ e l' h'. (l' ≡ l) × Holds l' h' rest)
  unfolding accept_client ◌>>=◌ ◌>>◌ when of_member catch_connect_failure
  answer_outcome persistent l h rest (failed e) v p c eq =
      let v' : Holds l ((accept_from l.server_fd, failed e) ∷ h) rest = record {
        open_fds = v.open_fds;
        natural = v.natural;
      } in
      elim (Bool-cases (is_errno e eagain)) [
        | inl b ↦ rw (p, c, eq, b) (v', refl)
        | inr b ↦ rw (p, c, eq, b) (refl, v')
      ]
  answer_outcome persistent l h rest (gives zero bytes) v p c eq =
      let z : is_zero (descriptor (gives zero bytes)) ≡ false =
        subst (λ r. is_zero (descriptor r) ≡ false) eq (sound.no_stream h l.server_fd) in
      cc
  answer_outcome persistent l h rest (gives (suc n) bytes) v p c eq =
      let h1 : History = (accept_from l.server_fd, gives (suc n) bytes) ∷ h in
      let o : owned h1 ≡ pos (suc n) ∷ l.server_fd ∷ rest =
        ap (λ x. pos (suc n) ∷ x) (v.open_fds ∙ rw (c, p) refl) in
      rw (p, c, eq)
        (Returns-Post (take_client k persistent (pos (suc n)) l h1) _ _ _
          (λ b l' h' q. subst (λ b. Accepted persistent l rest b l' h') (sym q.0) q.1)
          (take_client_outcome persistent l n h1 rest p o))

  -- With a sound kernel, for a listener that holds the descriptors that are open: whatever a
  -- client's request comes to, it holds them again. A client that is taken is connected, and the
  -- listener goes on listening exactly if it is persistent; in every other case, an exception among
  -- them, the listener is as it was.
  pub accept_client_outcome :
      (persistent : Bool) (l : TcpCommListener) (h : History) (rest : List ℤ)
      → Holds l h rest
      → Post
          (accept_client k persistent l h)
          (λ b l' h'. Accepted persistent l rest b l' h')
          (λ e l' h'. (l' ≡ l) × Holds l' h' rest)
  unfolding accept_client ◌>>=◌ ◌>>◌ when of_member catch_connect_failure
  accept_client_outcome persistent l h rest v = elim (Bool-cases (listening l)) [
    | inr p ↦ rw p (refl, v)
    | inl p ↦ elim (Bool-cases (connected l)) [
      | inr c ↦ answer_outcome persistent l h rest _ v p c refl
      | inl c ↦
          rw (p, c)
            (Post-map (refuse_client k l h) _ _ _ _ (λ _ l' h' q. absurd q) (λ e l' h' q. q)
              (refuse_outcome l h rest _ v refl))
    ]
  ]
