-- ===== src/Packet/Buffered/Matching.antt =====
-- matchSentinle: how far the sentinle is matched, and one more character.
use port_agent.Prelude.{
  ◌==◌, ==_iff, Bool-cases, Bytes, length, get_elem?, take, length-append, length-take_of_le,
  take_snoc, get_elem?_of_lt, ℕ, suc, ◌≤◌, ◌<◌, ◌≡◌, refl, sym, ap, subst, ◌∙◌, ◌≢◌, ◌⊎◌, inl, inr,
  some, [], ◌∷◌, ◌++◌, append_assoc, append-nil, arith,
}
use port_agent.Packet.PortAgentPacket.{ok}
use port_agent.Packet.Buffered.{Pointer, null, live, dangling, match_sentinle}

-- The last bytes of `seen` are the first `index` bytes of the sentinle.
abbrev Ends : (index : ℕ) (sentinle seen : Bytes) → Type 0
Ends index sentinle seen = (before : Bytes) × (seen ≡ before ++ take index sentinle)

-- How far a sentinle is matched.
abbrev pub Matched : Pointer → (size index : ℕ) → Bytes → Type 0
Matched null size index seen = size ≡ 0
Matched (live s) size index seen =
    (length s ≡ size) × (0 < size) × (size < 65536) × (index ≤ size) × Ends index s seen
Matched dangling size index seen = ⊥

longer :
    {seen : Bytes} (before s : Bytes) (index input : ℕ)
    → seen ≡ before ++ take index s
    → (c : ℕ) → get_elem? s index ≡ some c
    → c ≡ input
    → seen ++ input ∷ [] ≡ before ++ take (suc index) s
longer before s index input e c found same =
    ap (λ l. l ++ input ∷ []) e
    ∙ (append_assoc before (take index s) (input ∷ [])
        ∙ ap (λ l. before ++ l)
            (ap (λ v. take index s ++ v ∷ []) (sym same) ∙ sym (take_snoc index s c found)))

-- One more byte of the sentinle, or none of it.
pub match_sentinle_lem :
    (p : Pointer) (size index input : ℕ) (seen : Bytes)
    → Matched p size index seen
    → (size ≡ 0) ⊎ (index < size)
    → (i : ℕ) × (match_sentinle input index p ≡ ok i) × Matched p size i (seen ++ input ∷ [])
unfolding match_sentinle
match_sentinle_lem null size index input seen m h = (index, refl, m)
match_sentinle_lem dangling size index input seen m h = absurd m
match_sentinle_lem (live s) size index input seen (full, some_bytes, word, le, ends) (inl z) =
    absurd (omega arith)
match_sentinle_lem (live s) size index input seen (full, some_bytes, word, le, (before, e))
      (inr lt) =
    let (c, found) = get_elem?_of_lt index s (omega arith) in
    elim (Bool-cases (c == input)) [
      | inl same ↦ (
        suc index,
        ground arith,
        (
          full,
          some_bytes,
          word,
          lt,
          (before, longer before s index input e c found ((==_iff c input).0 same)),
        ),
      )
      | inr other ↦ (
        0,
        ground arith,
        (full, some_bytes, word, omega arith, (seen ++ input ∷ [], sym (append-nil _))),
      )
    ]

-- Nothing of the sentinle stands at the end of no bytes.
Ends-nil : (index : ℕ) (s : Bytes) → index ≤ length s → Ends index s [] → index ≡ 0
Ends-nil index s le (before, e) =
    omega (arith, ap length e, length-append before (take index s), length-take_of_le index s le)

pub Matched-less :
    (q : Pointer) (size index : ℕ) (seen : Bytes)
    → Matched q size index seen
    → (seen ≡ []) ⊎ ((size ≡ 0) ⊎ (index ≢ size))
    → (size ≡ 0) ⊎ (index < size)
Matched-less null size index seen m h = inl m
Matched-less dangling size index seen m h = absurd m
Matched-less (live s) size index seen (full, some_bytes, word, le, ends) (inl e) =
    inr (omega (arith, Ends-nil index s (omega arith) (subst (Ends index s) e ends)))
Matched-less (live s) size index seen (full, some_bytes, word, le, ends) (inr (inl z)) = inl z
Matched-less (live s) size index seen (full, some_bytes, word, le, ends) (inr (inr ne)) =
    inr (omega arith)
