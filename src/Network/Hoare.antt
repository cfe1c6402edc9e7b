-- ===== src/Network/Hoare.antt =====
-- What a method promises of its outcome, and the descriptors that a history leaves open.
use port_agent.Prelude.{
  ◌==◌, if◌then◌else◌, ℤ, pos, negsuc, ℕ, ◌+◌, ◌≤◌, ◌≡◌, Bool, true, false, List, [], ◌∷◌, arith,
}
use port_agent.Network.{
  Call, socket_stream, socket_datagram, reuse_address, accept_from, close_fd, open_device, elapsed,
  wait, Reply, failed, gives, History, Kernel, CommError, Outcome, done, thrown, unfinished, M,
  ◌>>=◌, descriptor, number, is_failure, is_zero,
}

-- The method ends, and what holds where it returns and where it raises.
abbrev pub Post :
    {S A : Type 0}
    → Outcome S A
    → (A → S → History → Type 0)
    → (CommError → S → History → Type 0)
    → Type 0
Post (done a s h) P Q = P a s h
Post (thrown e s h) P Q = Q e s h
Post unfinished P Q = ⊥

-- It ends and returns.
abbrev pub Returns : {S A : Type 0} → Outcome S A → (A → S → History → Type 0) → Type 0
Returns (done a s h) P = P a s h
Returns (thrown e s h) P = ⊥
Returns unfinished P = ⊥

pub Post-bind :
    {S A B : Type 0} (m : M S A) (f : A → M S B) (s : S) (h : History)
    (P : A → S → History → Type 0) (Q : CommError → S → History → Type 0)
    (P' : B → S → History → Type 0)
    → Post (m s h) P Q
    → ((a : A) (s' : S) (h' : History) → P a s' h' → Post (f a s' h') P' Q)
    → Post ((m >>= f) s h) P' Q
unfolding ◌>>=◌
Post-bind m f s h P Q P' first rest = join (m s h) first
  where
    join :
        (o : Outcome _ _)
        → Post o P Q
        → Post
            (elim o [
              | done a s' h' ↦ f a s' h'
              | thrown e s' h' ↦ thrown e s' h'
              | unfinished ↦ unfinished
            ])
            P'
            Q
    join (done a s' h') p = rest a s' h' p
    join (thrown e s' h') q = q
    join unfinished p = p

pub Returns-bind :
    {S A B : Type 0} (m : M S A) (f : A → M S B) (s : S) (h : History)
    (P : A → S → History → Type 0) (P' : B → S → History → Type 0)
    → Returns (m s h) P
    → ((a : A) (s' : S) (h' : History) → P a s' h' → Returns (f a s' h') P')
    → Returns ((m >>= f) s h) P'
unfolding ◌>>=◌
Returns-bind m f s h P P' first rest = join (m s h) first
  where
    join :
        (o : Outcome _ _)
        → Returns o P
        → Returns
            (elim o [
              | done a s' h' ↦ f a s' h'
              | thrown e s' h' ↦ thrown e s' h'
              | unfinished ↦ unfinished
            ])
            P'
    join (done a s' h') p = rest a s' h' p
    join (thrown e s' h') q = absurd q
    join unfinished p = absurd p

pub Post-map :
    {S A : Type 0} (o : Outcome S A) (P P' : A → S → History → Type 0)
    (Q Q' : CommError → S → History → Type 0)
    → ((a : A) (s : S) (h : History) → P a s h → P' a s h)
    → ((e : CommError) (s : S) (h : History) → Q e s h → Q' e s h)
    → Post o P Q
    → Post o P' Q'
Post-map (done a s h) P P' Q Q' f g p = f a s h p
Post-map (thrown e s h) P P' Q Q' f g p = g e s h p
Post-map unfinished P P' Q Q' f g p = p

pub Returns-Post :
    {S A : Type 0} (o : Outcome S A) (P P' : A → S → History → Type 0)
    (Q : CommError → S → History → Type 0)
    → ((a : A) (s : S) (h : History) → P a s h → P' a s h)
    → Returns o P
    → Post o P' Q
Returns-Post (done a s h) P P' Q f p = f a s h p
Returns-Post (thrown e s h) P P' Q f p = absurd p
Returns-Post unfinished P P' Q f p = p

pub Returns-and :
    {S A : Type 0} (o : Outcome S A) (P Q : A → S → History → Type 0)
    → Returns o P
    → Returns o Q
    → Returns o (λ a s h. P a s h × Q a s h)
Returns-and (done a s h) P Q p q = (p, q)
Returns-and (thrown e s h) P Q p q = p
Returns-and unfinished P Q p q = p

abbrev pub same_fd : ℤ → ℤ → Bool
same_fd (pos m) (pos n) = m == n
same_fd (negsuc m) (negsuc n) = m == n
same_fd _ _ = false

pub same_fd_refl : (fd : ℤ) → same_fd fd fd ≡ true
same_fd_refl (pos n) = ground arith
same_fd_refl (negsuc n) = ground arith

-- A closed descriptor is taken off, once.
abbrev pub without : ℤ → List ℤ → List ℤ
without fd [] = []
without fd (x ∷ l) = let rest = without fd l in if same_fd x fd then l else x ∷ rest

abbrev pub with_new : Reply → List ℤ → List ℤ
with_new (failed e) l = l
with_new (gives n bytes) l = pos n ∷ l

-- The descriptors after one more call.
abbrev pub after_call : Call → Reply → List ℤ → List ℤ
after_call socket_stream r l = with_new r l
after_call socket_datagram r l = with_new r l
after_call (accept_from fd) r l = with_new r l
after_call (open_device path) r l = with_new r l
after_call (close_fd (pos n)) r l = without (pos n) l
after_call _ r l = l

-- The descriptors that the kernel gave and that were not closed, the newest first.
abbrev pub owned : History → List ℤ
owned [] = []
owned ((c, r) ∷ h) = after_call c r (owned h)

abbrev pub seconds : Kernel → History → (since : ℕ) → ℕ
seconds k h since = number (k h (elapsed since))

abbrev pub is_wait : Call → Bool
is_wait wait = true
is_wait _ = false

-- What the code relies on: the clock does not go back, a sleep takes a second, a negative
-- descriptor is refused, and the standard streams stay open, so that no client gets descriptor 0.
pub record Sound (k : Kernel) : Type 0 where
  pub ticks :
      (h : History) (c : Call) (r : Reply) (since : ℕ)
      → seconds k h since + (if is_wait c then 1 else 0) ≤ seconds k ((c, r) ∷ h) since
  pub refuses : (h : History) (n : ℕ) → is_failure (k h (reuse_address (negsuc n))) ≡ true
  pub no_stream : (h : History) (fd : ℤ) → is_zero (descriptor (k h (accept_from fd))) ≡ false
