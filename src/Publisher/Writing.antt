-- ===== src/Publisher/Writing.antt =====
-- What FilePointerPublisher::write sends.
use port_agent.Prelude.{
  ℕ, zero, suc, ◌+◌, ◌-◌, ◌≤◌, ◌≡◌, ◌≢◌, ◌↔◌, inl, inr, refl, ap, ◌∙◌, arith, true, false, ltb,
  ◌==◌, Bool-cases, Option-cases, Bytes, [], ◌++◌, Option, some, take, drop, take-append_drop,
}
use port_agent.Publisher.{Publisher, Answer, returned, write_loop, write, finish, has_no_output}

-- A peer never takes more than it is offered.
abbrev pub Bounded : (ℕ → ℕ → Option ℕ) → Type 0
Bounded accept = (i n k : ℕ) → accept i n ≡ some k → k ≤ n

-- The first `k` bytes of the buffer are out, and the call is a success if these are all.
abbrev pub Sends : Bytes → ℕ → Bytes × Answer → Type 0
Sends buffer size (out, answer) =
    (k : ℕ) × (k ≤ size)
    × (out ≡ take k buffer)
    × ((answer ≡ returned true) ↔ (k ≡ size))
    × (answer ≢ returned false)

module _ (accept : ℕ → ℕ → Option ℕ) (bounded : Bounded accept) (buffer : Bytes) (size : ℕ) where
  finish-Sends :
      (total : ℕ) (out : Bytes)
      → total ≤ size
      → out ≡ take total buffer
      → Sends buffer size (finish size total out)
  finish-Sends total out le e =
      (total, le, e, (λ h. ground arith, λ h. ground arith), λ h. ground arith)

  write_loop-Sends :
      (rounds i total : ℕ) (out : Bytes)
      → total ≤ size
      → out ≡ take total buffer
      → Sends buffer size (write_loop rounds i accept buffer size total out)
  unfolding write_loop
  write_loop-Sends zero i total out le e = finish-Sends total out le e
  write_loop-Sends (suc rounds) i total out le e = elim (Bool-cases (ltb total size)) [
    | inr f ↦ rw f (finish-Sends total out le e)
    | inl f ↦ elim (Option-cases (accept i (size - total))) [
      | inl none_taken ↦
          rw (f, none_taken) (total, le, e, (λ h. cc, λ h. absurd (ground arith)), λ h. cc)
      | inr (n, taken) ↦
          rw (f, taken)
            (write_loop-Sends rounds (i + 1) (total + n) (out ++ take n (drop total buffer))
              (omega (arith, bounded i (size - total) n taken))
              (ap (λ l. l ++ take n (drop total buffer)) e
                ∙ take-append_drop total n (total + n) buffer refl))
    ]
  ]

-- Of a packet with an output, write sends the first bytes, in order and each once, whatever the
-- peer takes at each of three attempts. It returns true exactly when all are sent, and raises an
-- exception otherwise.
pub write-Sends :
    (accept : ℕ → ℕ → Option ℕ) (p : Publisher) (buffer : Bytes) (size : ℕ)
    → Bounded accept
    → has_no_output p ≡ false
    → size ≢ 0
    → Sends buffer size (write accept p buffer size)
unfolding write
write-Sends accept p buffer size bounded output some_bytes =
    let z : (size == 0) ≡ false = ground arith in
    rw (z, output) (write_loop-Sends accept bounded buffer size 3 0 0 [] (omega arith) refl)

-- A peer that never fails, and takes all that is offered at the third attempt.
abbrev pub Patient : (ℕ → ℕ → Option ℕ) → Type 0
Patient accept = ((i n : ℕ) → (k : ℕ) × (accept i n ≡ some k)) × ((n : ℕ) → accept 2 n ≡ some n)

module _ (accept : ℕ → ℕ → Option ℕ) (bounded : Bounded accept) (buffer : Bytes) (size : ℕ) where
  abbrev Succeeds : (rounds i : ℕ) → Type 0
  Succeeds rounds i =
      (total : ℕ) (out : Bytes)
      → total ≤ size
      → (write_loop rounds i accept buffer size total out).1 ≡ returned true

  one_round :
      (rounds i j : ℕ)
      → i + 1 ≡ j
      → ((n : ℕ) → (k : ℕ) × (accept i n ≡ some k))
      → Succeeds rounds j
      → Succeeds (suc rounds) i
  unfolding write_loop
  one_round rounds i j e takes next total out le = elim (Bool-cases (ltb total size)) [
    | inr f ↦ rw f (ground arith)
    | inl f ↦
        let (n, taken) = takes (size - total) in
        rw (f, taken, e)
          (next (total + n) (out ++ take n (drop total buffer))
            (omega (arith, bounded i (size - total) n taken)))
  ]

  last_round : ((n : ℕ) → accept 2 n ≡ some n) → Succeeds 1 2
  unfolding write_loop
  last_round takes total out le = elim (Bool-cases (ltb total size)) [
    | inr f ↦ rw f (ground arith)
    | inl f ↦
        let all : (total + (size - total) == size) ≡ true = ground arith in
        rw (f, takes (size - total), all) refl
  ]

-- To a peer that never fails, takes no more than it is offered, and takes all of it at the
-- third attempt, write sends everything and returns true.
pub write_all :
    (accept : ℕ → ℕ → Option ℕ) (p : Publisher) (buffer : Bytes) (size : ℕ)
    → Bounded accept
    → Patient accept
    → has_no_output p ≡ false
    → size ≢ 0
    → write accept p buffer size ≡ (take size buffer, returned true)
unfolding write
write_all accept p buffer size bounded (takes, rest) output some_bytes =
    let z : (size == 0) ≡ false = ground arith in
    let success =
      one_round accept bounded buffer size 2 0 1 refl (takes 0)
        (one_round accept bounded buffer size 1 1 2 refl (takes 1)
          (last_round accept bounded buffer size rest))
        0 [] (omega arith) in
    let (k, le, sent, full, no_false) =
      write_loop-Sends accept bounded buffer size 3 0 0 [] (omega arith) refl in
    rw (z, output)
      (pair_eq _ (take size buffer) (sent ∙ ap (λ j. take j buffer) (full.0 success)) success)
  where
    pair_eq :
        (r : Bytes × Answer) (out : Bytes)
        → r.0 ≡ out
        → r.1 ≡ returned true
        → r ≡ (out, returned true)
    pair_eq r out e f = cc
