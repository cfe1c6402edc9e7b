-- ===== src/Network/Sending.antt =====
-- What writeData sends.
use port_agent.Prelude.{
  ◌==◌, if◌then◌else◌, Bytes, length, take, drop, length-drop_add, take-append_drop, ℤ, ℕ, zero,
  suc, ◌+◌, ◌≤◌, ◌<◌, ◌≡◌, refl, sym, ap, ◌∙◌, ◌≢◌, ◌⊎◌, inl, inr, true, false, [], ◌∷◌, ◌++◌,
  append_assoc, append-nil, arith,
}
use port_agent.Network.{
  Call, write_to, Reply, gives, History, Kernel, socket_write_failure, Outcome, ◌>>=◌, ◌>>◌,
  of_member, catch_connect_failure, when, number, is_failure, write_rounds, Reply-cases,
}
use port_agent.Network.Hoare.{Post, Post-map, same_fd, same_fd_refl}

-- The bytes that the descriptor took, in their order.
abbrev pub taken_by : ℤ → Call → Reply → Bytes
taken_by fd (write_to fd' buffer) (gives n bytes) = if same_fd fd' fd then take n buffer else []
taken_by fd c r = []

abbrev pub sent : ℤ → History → Bytes
sent fd [] = []
sent fd ((c, r) ∷ h) = sent fd h ++ taken_by fd c r

-- Each write takes some of the bytes, and not more than it is offered, or fails.
abbrev pub Takes : Kernel → ℤ → Type 0
Takes k fd =
    (h : History) (buffer : Bytes)
    → buffer ≢ []
    → (is_failure (k h (write_to fd buffer)) ≡ true)
      ⊎ ((0 < number (k h (write_to fd buffer)))
          × (number (k h (write_to fd buffer)) ≤ length buffer))

take-drop_append : (n : ℕ) (l : Bytes) → take n l ++ drop n l ≡ l
take-drop_append zero l = refl
take-drop_append (suc n) [] = refl
take-drop_append (suc n) (x ∷ l) = ap (λ m. x ∷ m) (take-drop_append n l)

nonempty : (x : ℕ) (l : Bytes) → (x ∷ l) ≢ []
nonempty x l h = absurd (omega (arith, ap length h))

module _ {S : Type 0} (k : Kernel) (fd : ℤ) (lost : S → S) (takes : Takes k fd) where
  -- The outcome of writing the buffer, of which `written` bytes more were written before.
  abbrev pub Sends : Outcome S ℕ → Bytes → (written : ℕ) → S → History → Type 0
  Sends o buffer written s h =
      Post o
        (λ n s' h'. (n ≡ written + length buffer) × (s' ≡ s) × (sent fd h' ≡ sent fd h ++ buffer))
        (λ e s' h'.
          (e ≡ socket_write_failure)
          × (s' ≡ lost s)
          × ((m : ℕ) × (m < length buffer) × (sent fd h' ≡ sent fd h ++ take m buffer)))

  -- A round that takes `n` bytes, and the rounds behind it.
  more_rounds :
      (o : Outcome S ℕ) (n : ℕ) (buffer : Bytes) (written : ℕ) (s : S) (h h1 : History)
      → n ≤ length buffer
      → sent fd h1 ≡ sent fd h ++ take n buffer
      → Sends o (drop n buffer) (written + n) s h1
      → Sends o buffer written s h
  more_rounds o n buffer written s h h1 le e p =
      Post-map o _ _ _ _
        (λ c s' h' q. (
          omega (arith, length-drop_add n buffer le, q.0),
          q.1,
          q.2
              ∙ (ap (λ t. t ++ drop n buffer) e
                  ∙ (append_assoc (sent fd h) (take n buffer) (drop n buffer)
                      ∙ ap (λ t. sent fd h ++ t) (take-drop_append n buffer))),
        ))
        (λ c s' h' q. (
          q.0,
          q.1,
          (
            n + q.2.0,
            omega (arith, length-drop_add n buffer le, q.2.1),
            q.2.2
                ∙ (ap (λ t. t ++ take q.2.0 (drop n buffer)) e
                    ∙ (append_assoc (sent fd h) (take n buffer) (take q.2.0 (drop n buffer))
                        ∙ ap (λ t. sent fd h ++ t)
                            (take-append_drop n q.2.0 (n + q.2.0) buffer refl))),
          ),
        ))
        p

  -- Where each write takes some of the bytes or fails, a round for each byte and one more are
  -- enough: the loop ends, and the descriptor took the whole buffer in order, whose length is
  -- returned, or a part of it from the front, not all, where a write failed and it raises
  -- SocketWriteFailure.
  pub write_rounds_sent :
      (fuel : ℕ) (buffer : Bytes) (written : ℕ) (s : S) (h : History)
      → length buffer < fuel
      → Sends (write_rounds k fuel fd lost buffer written s h) buffer written s h
  unfolding write_rounds ◌>>=◌ ◌>>◌ when of_member catch_connect_failure
  write_rounds_sent zero buffer written s h f = absurd (omega arith)
  write_rounds_sent (suc fuel) [] written s h f = (omega arith, refl, sym (append-nil (sent fd h)))
  write_rounds_sent (suc fuel) (x ∷ l) written s h f =
      let c = write_to fd (x ∷ l) in
      let z : (suc (length l) == 0) ≡ false = ground arith in
      elim (Reply-cases (k h c)) [
        | inl (e, eq) ↦ rw (z, eq) (refl, refl, (0, omega arith, refl))
        | inr (n, b, eq) ↦
            let t : (0 < n) × (n ≤ length (x ∷ l)) =
              ground (arith, takes h (x ∷ l) (nonempty x l)) in
            let h1 : History = (c, gives n b) ∷ h in
            rw (z, eq)
              (more_rounds _ n (x ∷ l) written s h h1 t.1 (rw (same_fd_refl fd) refl) (
                write_rounds_sent fuel (drop n (x ∷ l)) (written + n) s h1
                  (omega (arith, length-drop_add n (x ∷ l) t.1))))
      ]
