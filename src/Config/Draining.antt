-- ===== src/Config/Draining.antt =====
-- What getCommand gives, against the commands that were added.
use port_agent.Prelude.{
  ℕ, zero, suc, ◌+◌, ◌≤◌, ◌≡◌, ◌⊎◌, inl, inr, refl, sym, ap, subst, ◌∙◌, arith, true, false,
  if◌then◌else◌, ◌==◌, ==_iff, Bool-cases, List, [], ◌∷◌, ◌++◌, length, length-append, append_assoc,
  append-nil, All,
}
use port_agent.Config.{
  PortAgentCommand, CommandQueue, command_code, cmd_unknown, cmd_help, cmd_comm_config_update,
  cmd_publisher_config_update, cmd_path_config_update, cmd_save_config, cmd_get_config,
  cmd_get_state, cmd_ping, cmd_break, cmd_shutdown, cmd_rotation_interval, find_command, enqueue,
  dequeue,
}
use port_agent.Config.Queue.{same, same_comm, Distinct, Known, find_command_none, enqueue-Distinct}

-- The list without a command.
pub without : PortAgentCommand → CommandQueue → CommandQueue
without c [] = []
without c (x ∷ l) = let rest = without c l in if same x c then rest else x ∷ rest

-- The commands of a list, each where it comes first.
unfoldable pub firsts : CommandQueue → CommandQueue
unfolding without
firsts [] = []
firsts (c ∷ l) = c ∷ without c (firsts l)

-- The commands of a list added in turn, and what getCommand then gives until it gives none.
unfoldable pub enqueue_all : List PortAgentCommand → CommandQueue → CommandQueue
unfolding enqueue
enqueue_all [] q = q
enqueue_all (c ∷ l) q = enqueue_all l (enqueue c q)

unfoldable pub drain : (fuel : ℕ) → CommandQueue → List PortAgentCommand
unfolding dequeue
drain zero q = []
drain (suc n) q =
    let (c, rest) = dequeue q in
    let more = drain n rest in if same c cmd_unknown then [] else c ∷ more

drain-Known : (n : ℕ) (q : CommandQueue) → Known q → length q ≤ n → drain (suc n) q ≡ q
unfolding drain dequeue command_code
drain-Known n [] k h = refl
drain-Known zero (c ∷ q) k h = absurd (omega arith)
drain-Known (suc n) (c ∷ q) k h = rw k.0 (ap (λ l. c ∷ l) (drain-Known n q k.1 (omega arith)))

enqueue_all-Known :
    (l q : CommandQueue)
    → Known l
    → Distinct q × Known q
    → Distinct (enqueue_all l q) × Known (enqueue_all l q)
unfolding enqueue_all
enqueue_all-Known [] q k d = d
enqueue_all-Known (c ∷ l) q k d = enqueue_all-Known l (enqueue c q) k.1 (enqueue-Distinct c q d k.0)

length-enqueue_all : (l q : CommandQueue) → length (enqueue_all l q) ≤ length l + length q
unfolding enqueue_all enqueue
length-enqueue_all [] q = omega arith
length-enqueue_all (c ∷ l) q = elim (Bool-cases (find_command c q false)) [
  | inl e ↦ rw e (omega (arith, length-enqueue_all l q))
  | inr e ↦ rw e (omega (arith, length-enqueue_all l (q ++ c ∷ []), length-append q (c ∷ [])))
]

without_twice : (c : PortAgentCommand) (l : CommandQueue) → without c (without c l) ≡ without c l
unfolding without
without_twice c [] = refl
without_twice c (x ∷ l) = elim (Bool-cases (same x c)) [
  | inl e ↦ rw e (without_twice c l)
  | inr e ↦ rw (e, e) (ap (λ r. x ∷ r) (without_twice c l))
]

without_comm :
    (c d : PortAgentCommand) (l : CommandQueue) → without c (without d l) ≡ without d (without c l)
unfolding without
without_comm c d [] = refl
without_comm c d (x ∷ l) = elim (Bool-cases (same x c)) [
  | inl e ↦ elim (Bool-cases (same x d)) [
    | inl f ↦ rw (e, f) (without_comm c d l)
    | inr f ↦ rw (e, f, e) (without_comm c d l)
  ]
  | inr e ↦ elim (Bool-cases (same x d)) [
    | inl f ↦ rw (e, f) (without_comm c d l)
    | inr f ↦ rw (e, f, e) (ap (λ r. x ∷ r) (without_comm c d l))
  ]
]

of_code : ℕ → PortAgentCommand
of_code n =
    if n == 1
    then cmd_help
    else if n == 2
    then cmd_comm_config_update
    else if n == 3
    then cmd_publisher_config_update
    else if n == 4
    then cmd_path_config_update
    else if n == 5
    then cmd_save_config
    else if n == 6
    then cmd_get_config
    else if n == 7
    then cmd_get_state
    else if n == 8
    then cmd_ping
    else if n == 9
    then cmd_break
    else if n == 0x10
    then cmd_shutdown
    else if n == 0x11
    then cmd_rotation_interval
    else cmd_unknown

of_code_lem : (c : PortAgentCommand) → of_code (command_code c) ≡ c
unfolding of_code command_code
of_code_lem cmd_unknown = refl
of_code_lem cmd_help = refl
of_code_lem cmd_comm_config_update = refl
of_code_lem cmd_publisher_config_update = refl
of_code_lem cmd_path_config_update = refl
of_code_lem cmd_save_config = refl
of_code_lem cmd_get_config = refl
of_code_lem cmd_get_state = refl
of_code_lem cmd_ping = refl
of_code_lem cmd_break = refl
of_code_lem cmd_shutdown = refl
of_code_lem cmd_rotation_interval = refl

pub same_sound : (a b : PortAgentCommand) → same a b ≡ true → a ≡ b
same_sound a b h =
    sym (of_code_lem a)
    ∙ (ap of_code ((==_iff (command_code a) (command_code b)).0 h) ∙ of_code_lem b)

same_refl : (a : PortAgentCommand) → same a a ≡ true
same_refl a = (==_iff (command_code a) (command_code a)).1 refl

-- The list without the commands of a queue.
less : CommandQueue → CommandQueue → CommandQueue
unfolding without
less [] l = l
less (x ∷ q) l = less q (without x l)

less_nil : (q : CommandQueue) → less q [] ≡ []
unfolding less without
less_nil [] = refl
less_nil (x ∷ q) = less_nil q

less_snoc :
    (q l : CommandQueue) (c : PortAgentCommand) → less (q ++ c ∷ []) l ≡ less q (without c l)
unfolding less
less_snoc [] l c = refl
less_snoc (x ∷ q) l c = less_snoc q (without x l) c ∙ ap (less q) (without_comm c x l)

less_cons :
    (q l : CommandQueue) (c : PortAgentCommand)
    → All (λ x. same x c ≡ false) q
    → less q (c ∷ l) ≡ c ∷ less q l
unfolding less without
less_cons [] l c h = refl
less_cons (x ∷ q) l c h = rw (same_comm x c h.0) (less_cons q (without x l) c h.1)

find_command_some :
    (c x : PortAgentCommand) (q : CommandQueue)
    → find_command c (x ∷ q) false ≡ true
    → (c ≡ x) ⊎ ((same x c ≡ false) × (find_command c q false ≡ true))
unfolding find_command
find_command_some c x q h = elim (Bool-cases (same x c)) [
  | inl e ↦ inl (sym (same_sound x c e))
  | inr e ↦ inr (e, (rw e at h))
]

less_found :
    (q l : CommandQueue) (c : PortAgentCommand)
    → find_command c q false ≡ true
    → less q (c ∷ without c l) ≡ less q l
unfolding less without
less_found [] l c h = absurd (clash (unfold find_command in h))
  where
    clash : false ≡ true → ⊥
    clash e = cc
less_found (x ∷ q) l c h = elim (find_command_some c x q h) [
  | inl e ↦
      subst (λ y. less q (without y (c ∷ without c l)) ≡ less q (without y l)) e
        (rw (same_refl c) (ap (less q) (without_twice c l)))
  | inr (e, f) ↦
      rw (same_comm x c e)
        (ap (λ r. less q (c ∷ r)) (without_comm x c l) ∙ less_found q (without x l) c f)
]

enqueue_all_lem : (l q : CommandQueue) → enqueue_all l q ≡ q ++ less q (firsts l)
unfolding enqueue_all enqueue firsts
enqueue_all_lem [] q = sym (ap (λ r. q ++ r) (less_nil q) ∙ append-nil q)
enqueue_all_lem (c ∷ l) q = elim (Bool-cases (find_command c q false)) [
  | inl e ↦ rw e (enqueue_all_lem l q ∙ ap (λ r. q ++ r) (sym (less_found q (firsts l) c e)))
  | inr e ↦ rw e (
      enqueue_all_lem l (q ++ c ∷ [])
      ∙ (append_assoc q (c ∷ []) _
          ∙ ap (λ r. q ++ r)
              (ap (λ r. c ∷ r) (less_snoc q (firsts l) c)
                ∙ sym (less_cons q (without c (firsts l)) c (find_command_none c q e)))))
]

-- Of commands other than CMD_UNKNOWN that are added to an empty queue, getCommand gives each
-- once, in the order in which they came first, and then none.
pub drain-enqueue_all :
    (added : List PortAgentCommand)
    → Known added
    → drain (suc (length added)) (enqueue_all added []) ≡ firsts added
drain-enqueue_all added k =
    drain-Known (length added) (enqueue_all added []) (enqueue_all-Known added [] k (tt, tt)).1
      (omega (arith, length-enqueue_all added []))
    ∙ (enqueue_all_lem added [] ∙ unfold less in refl)
