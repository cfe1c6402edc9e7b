-- ===== src/Config/Ports.antt =====
-- The container of the observatory's data ports.
use port_agent.Prelude.{
  ℕ, zero, suc, ◌+◌, ◌<◌, ◌≡◌, ◌≢◌, inl, inr, refl, sym, ap, subst, arith, false, if◌then◌else◌,
  ◌==◌, Bool-cases, List, [], ◌∷◌, ◌++◌, length, All, All-snoc, All-map, get_elem?, none, some,
}
use port_agent.Config.{
  ObservatoryDataPorts, remove, add_port, port_at, get_first_port, get_next_port,
}

-- No port twice.
abbrev pub DistinctPorts : List ℕ → Type 0
DistinctPorts [] = Unit
DistinctPorts (p ∷ l) = All (λ x. x ≢ p) l × DistinctPorts l

-- Ports that setters accept.
abbrev pub ArePorts : List ℕ → Type 0
ArePorts = All (λ p. (0 < p) × (p < 65536))

remove-All : (P : ℕ → Type 0) (q : ℕ) (l : List ℕ) → All P l → All (λ x. P x × (x ≢ q)) (remove q l)
unfolding remove
remove-All P q [] h = tt
remove-All P q (x ∷ l) h = elim (Bool-cases (x == q)) [
  | inl e ↦ rw e (remove-All P q l h.1)
  | inr e ↦ rw e ((h.0, λ eq. absurd (ground arith)), remove-All P q l h.1)
]

Distinct-snoc :
    (l : List ℕ) (q : ℕ) → DistinctPorts l → All (λ x. x ≢ q) l → DistinctPorts (l ++ q ∷ [])
Distinct-snoc [] q d h = (tt, tt)
Distinct-snoc (x ∷ l) q d h = (All-snoc _ l q d.0 (λ e. h.0 (sym e)), Distinct-snoc l q d.1 h.1)

remove-Distinct : (q : ℕ) (l : List ℕ) → DistinctPorts l → DistinctPorts (remove q l)
unfolding remove
remove-Distinct q [] d = tt
remove-Distinct q (x ∷ l) d = elim (Bool-cases (x == q)) [
  | inl e ↦ rw e (remove-Distinct q l d.1)
  | inr e ↦ rw e (
    All-map _ _ (remove q l) (λ y h. h.0) (remove-All (λ y. y ≢ x) q l d.0),
    remove-Distinct q l d.1,
  )
]

-- addPort keeps the ports apart and puts the new one at the end.
pub add_port-Distinct :
    (port : ℕ) (d : ObservatoryDataPorts)
    → 0 < port
    → port < 65536
    → DistinctPorts d.ports × ArePorts d.ports
    → DistinctPorts (add_port port d).ports × ArePorts (add_port port d).ports
unfolding add_port
add_port-Distinct port d pos fits (distinct, ports) = (
  Distinct-snoc (remove port d.ports) port (remove-Distinct port d.ports distinct)
      (All-map _ _ (remove port d.ports) (λ y h. h.1) (remove-All _ port d.ports ports)),
  All-snoc _ (remove port d.ports) port
      (All-map _ _ (remove port d.ports) (λ y h. h.0) (remove-All _ port d.ports ports))
      (pos, fits),
)

-- The walk of the clients: getFirstPort, then getNextPort until it gives 0.
unfoldable pub walk : (fuel : ℕ) → ℕ × ObservatoryDataPorts → List ℕ
unfolding get_next_port
walk zero (port, d) = []
walk (suc fuel) (port, d) =
    let rest = walk fuel (get_next_port d) in if port == 0 then [] else port ∷ rest

walk_from :
    (fuel : ℕ) (l : List ℕ) (d : ObservatoryDataPorts)
    → ArePorts l
    → length l < fuel
    → ((i : ℕ) → get_elem? d.ports (d.position + i) ≡ get_elem? l i)
    → walk fuel (port_at (get_elem? d.ports d.position), d) ≡ l
unfolding walk get_next_port
walk_from zero l d p h view = absurd (omega arith)
walk_from (suc fuel) [] d p h view =
    let e : get_elem? d.ports d.position ≡ none =
      subst (λ n. get_elem? d.ports n ≡ none) (omega arith) (view 0) in
    rw e refl
walk_from (suc fuel) (x ∷ l) d p h view =
    let e : get_elem? d.ports d.position ≡ some x =
      subst (λ n. get_elem? d.ports n ≡ some x) (omega arith) (view 0) in
    let nz : (x == 0) ≡ false = ground arith in
    rw (e, nz)
      (ap (λ r. x ∷ r)
        (walk_from fuel l (record d { position = d.position + 1 }) p.1 (omega arith)
          (λ i. subst (λ n. get_elem? d.ports n ≡ get_elem? l i) (omega arith) (view (suc i)))))

-- The walk from the first port on reaches every port of a container, in its order, where all
-- are between 1 and 65535.
pub walk_lem :
    (d : ObservatoryDataPorts)
    → ArePorts d.ports
    → walk (suc (length d.ports)) (get_first_port d) ≡ d.ports
unfolding get_first_port
walk_lem d p =
    walk_from (suc (length d.ports)) d.ports (record d { position = 0 }) p (omega arith)
      (λ i. ap (get_elem? d.ports) (omega arith))
