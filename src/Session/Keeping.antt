-- ===== src/Session/Keeping.antt =====
-- Methods that end and keep a property of their object.
use port_agent.Prelude.{if◌then◌else◌, Bool-cases, ◌≡◌, inl, inr, Bool, true, false}
use port_agent.Network.{
  Call, History, Kernel, CommError, unknown_state, Outcome, done, thrown, unfinished, M, ◌>>=◌,
  ◌>>◌, give, raise, this, modify, call, perform, of_member, is_connect_failure,
  catch_connect_failure, when,
}
use port_agent.Network.Hoare.{Post, Post-bind}

abbrev pub is_unknown_state : CommError → Bool
is_unknown_state unknown_state = true
is_unknown_state _ = false

-- From an object with the property the method ends, by returning or by an exception that is not
-- UnknownState, and the object has the property again.
pub record Keeps {S A : Type 0} (P : S → Type 0) (m : M S A) : Type 0 where
  pub kept :
      (s : S) (h : History)
      → P s
      → Post (m s h) (λ _ s' h'. P s') (λ e s' h'. P s' × (is_unknown_state e ≡ false))

-- It ends, and no exception of it is UnknownState.
abbrev pub Ends : {S A : Type 0} → M S A → Type 0
Ends m = Keeps (λ s. Unit {0}) m

module _ {S : Type 0} {P : S → Type 0} where
  pub Keeps-bind :
      {A B : Type 0} {m : M S A} {f : A → M S B}
      → Keeps P m
      → ((a : A) → Keeps P (f a))
      → Keeps P (m >>= f)
  Keeps-bind {m = m} {f = f} first rest = record {
    kept = λ s h p.
        Post-bind m f s h _ _ _ (first.kept s h p)
          (λ a s' h' p'. let r = rest a in r.kept s' h' p');
  }

  pub Keeps-then : {A B : Type 0} {m : M S A} {n : M S B} → Keeps P m → Keeps P n → Keeps P (m >> n)
  unfolding ◌>>◌
  Keeps-then first rest = Keeps-bind first (λ _. rest)

  pub Keeps-if :
      {A : Type 0} (b : Bool) {m n : M S A} → Keeps P m → Keeps P n → Keeps P (if b then m else n)
  Keeps-if true p q = p
  Keeps-if false p q = q

  pub Keeps-give : {A : Type 0} {a : A} → Keeps P (give {S = S} a)
  Keeps-give = record { kept = λ s h p. p }

  pub Keeps-when : (b : Bool) {m : M S (Unit {0})} → Keeps P m → Keeps P (when b m)
  unfolding when
  Keeps-when true p = p
  Keeps-when false p = Keeps-give

  pub Keeps-this : Keeps P (this {S = S})
  Keeps-this = record { kept = λ s h p. p }

  pub Keeps-call : (k : Kernel) (c : Call) → Keeps P (call {S = S} k c)
  Keeps-call k c = record { kept = λ s h p. p }

  pub Keeps-perform : (k : Kernel) (c : Call) → Keeps P (perform {S = S} k c)
  Keeps-perform k c = record { kept = λ s h p. p }

  pub Keeps-modify : {f : S → S} → ((s : S) → P s → P (f s)) → Keeps P (modify f)
  Keeps-modify p = record { kept = λ s h q. p s q }

  pub Keeps-raise :
      {A : Type 0} {e : CommError} → is_unknown_state e ≡ false → Keeps P (raise {S = S} {A = A} e)
  Keeps-raise p = record { kept = λ s h q. (q, p) }

  pub Keeps-catch :
      {m n : M S (Unit {0})} → Keeps P m → Keeps P n → Keeps P (catch_connect_failure m n)
  unfolding catch_connect_failure
  Keeps-catch {m} {n} p q = record { kept = λ s h r. join (m s h) (p.kept s h r) }
    where
      join :
          (o : Outcome S (Unit {0}))
          → Post o (λ _ s' h'. P s') (λ e s' h'. P s' × (is_unknown_state e ≡ false))
          → Post
              (elim o [
                | done a s' h' ↦ done a s' h'
                | thrown e s' h' ↦ if is_connect_failure e then n s' h' else thrown e s' h'
                | unfinished ↦ unfinished
              ])
              (λ _ s' h'. P s')
              (λ e s' h'. P s' × (is_unknown_state e ≡ false))
      join (done a s' h') x = x
      join (thrown e s' h') x = elim (Bool-cases (is_connect_failure e)) [
        | inl b ↦ rw b (q.kept s' h' x.0)
        | inr b ↦ rw b x
      ]
      join unfinished x = x

-- A method of a member that ends, where the member may be anything.
pub Keeps-member :
    {S T A : Type 0} {P : S → Type 0} (get : S → T) (put : T → S → S) {m : M T A}
    → ((t : T) (s : S) → P s → P (put t s))
    → Ends m
    → Keeps P (of_member get put m)
unfolding of_member
Keeps-member {S} {T} {A} {P} get put {m} p ends = record {
  kept = λ s h q. join s q (m (get s) h) (ends.kept (get s) h tt);
}
  where
    join :
        (s : S)
        → P s
        → (o : Outcome T A)
        → Post o (λ _ t h'. Unit {0}) (λ e t h'. Unit {0} × (is_unknown_state e ≡ false))
        → Post
            (elim o [
              | done a t h' ↦ done a (put t s) h'
              | thrown e t h' ↦ thrown e (put t s) h'
              | unfinished ↦ unfinished
            ])
            (λ _ s' h'. P s')
            (λ e s' h'. P s' × (is_unknown_state e ≡ false))
    join s q (done a t h') x = p t s q
    join s q (thrown e t h') x = (p t s q, x.1)
    join s q unfinished x = x

-- What is known of the outcomes is more than that they end.
pub Ends-of :
    {S A : Type 0} {m : M S A}
    → ((s : S) (h : History)
        → Post (m s h) (λ _ s' h'. Unit {0}) (λ e s' h'. Unit {0} × (is_unknown_state e ≡ false)))
    → Ends m
Ends-of f = record { kept = λ s h p. f s h }

-- A method is taken apart along its code.
pub ruleset keeping = (
  Keeps-bind, Keeps-then, Keeps-if, Keeps-give, Keeps-when, Keeps-this, Keeps-call, Keeps-perform,
  Keeps-modify, Keeps-raise, Keeps-catch, Keeps-member,
)
