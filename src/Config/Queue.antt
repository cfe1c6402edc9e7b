-- ===== src/Config/Queue.antt =====
-- The command queue: what is taken from it, against what was added.
use port_agent.Prelude.{
  ◌≡◌, inl, inr, refl, sym, ◌∙◌, arith, Bool, true, false, ◌==◌, Bool-cases, [], ◌∷◌, ◌++◌, All,
  All-snoc,
}
use port_agent.Config.{
  PortAgentCommand, CommandQueue, command_code, cmd_unknown, find_command, enqueue,
}

abbrev pub same : PortAgentCommand → PortAgentCommand → Bool
same a b = command_code a == command_code b

-- No command twice.
abbrev pub Distinct : CommandQueue → Type 0
Distinct [] = Unit
Distinct (c ∷ l) = All (λ x. same x c ≡ false) l × Distinct l

abbrev pub Known : CommandQueue → Type 0
Known = All (λ c. same c cmd_unknown ≡ false)

pub find_command-true : (c : PortAgentCommand) (q : CommandQueue) → find_command c q true ≡ true
unfolding find_command
find_command-true c [] = refl
find_command-true c (x ∷ q) = elim (Bool-cases (same x c)) [
  | inl e ↦ rw e (find_command-true c q)
  | inr e ↦ rw e (find_command-true c q)
]

pub find_command_none :
    (c : PortAgentCommand) (q : CommandQueue)
    → find_command c q false ≡ false
    → All (λ x. same x c ≡ false) q
unfolding find_command
find_command_none c [] h = tt
find_command_none c (x ∷ q) h = elim (Bool-cases (same x c)) [
  | inl e ↦ absurd (clash (sym (find_command-true c q) ∙ (rw e at h)))
  | inr e ↦ (e, find_command_none c q (rw e at h))
]
  where
    clash : true ≡ false → ⊥
    clash e = cc

pub same_comm : (a b : PortAgentCommand) → same a b ≡ false → same b a ≡ false
same_comm a b h = ground arith

Distinct-snoc :
    (q : CommandQueue) (c : PortAgentCommand)
    → Distinct q
    → All (λ x. same x c ≡ false) q
    → Distinct (q ++ c ∷ [])
Distinct-snoc [] c d h = (tt, tt)
Distinct-snoc (x ∷ q) c d h = (All-snoc _ q c d.0 (same_comm x c h.0), Distinct-snoc q c d.1 h.1)

-- addCommand adds no command twice.
pub enqueue-Distinct :
    (c : PortAgentCommand) (q : CommandQueue)
    → Distinct q × Known q
    → same c cmd_unknown ≡ false
    → Distinct (enqueue c q) × Known (enqueue c q)
unfolding enqueue
enqueue-Distinct c q (d, k) known = elim (Bool-cases (find_command c q false)) [
  | inl e ↦ rw e (d, k)
  | inr e ↦ rw e (Distinct-snoc q c d (find_command_none c q e), All-snoc _ q c k known)
]
