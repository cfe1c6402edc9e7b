-- ===== src/Config/Sentinle.antt =====
-- The sentinle as getConfig prints it, and as processCommand and setSentinleSequence read it.
use port_agent.Prelude.{
  ℕ, zero, suc, ◌≤◌, ◌≡◌, ◌≢◌, inl, inr, refl, sym, ap, ◌∙◌, arith, true, false, if◌then◌else◌,
  ◌==◌, Bool-cases, ==_iff, Bytes, codes, [], ◌∷◌, ◌++◌, All, length, some, none, ◌⊎◌,
}
use port_agent.Config.{PortAgentConfig, World, add_command, cmd_publisher_config_update}
use port_agent.Config.Keywords.{split_command, whole_line, first_token}
use port_agent.Config.Commands.{execute, process_command}
use port_agent.Config.Text.{
  next_token, read_token, skip_spaces, get_until, read_until, is_space, chomp,
}
use port_agent.Config.Setters.{set_sentinle_sequence, unescape}

-- getConfig: the loop over the sentinle.
unfoldable pub print_sentinle : Bytes → Bytes
print_sentinle [] = []
print_sentinle (c ∷ s) =
    let rest = print_sentinle s in
    if c == 10 then 92 ∷ 110 ∷ rest else if c == 13 then 92 ∷ 114 ∷ rest else c ∷ rest

-- getConfig: the line of the sentinle.
unfoldable pub sentinle_line : Bytes → Bytes
sentinle_line s = codes "sentinle '" ++ (print_sentinle s ++ 39 ∷ [])

-- Neither NUL nor a quote nor a backslash.
abbrev pub IsPlain : ℕ → Type 0
IsPlain c = (c ≢ 0) × (c ≢ 39) × (c ≢ 92)

read_until-append :
    (room : ℕ) (l : Bytes)
    → All (λ c. c ≢ 39) l
    → length l ≤ room
    → read_until 39 room (l ++ 39 ∷ []) ≡ (l, some [])
unfolding read_until
read_until-append zero [] h le = refl
read_until-append (suc room) [] h le = refl
read_until-append zero (x ∷ l) h le = absurd (omega arith)
read_until-append (suc room) (x ∷ l) h le =
    let e : (x == 39) ≡ false = ground arith in
    rw (e, read_until-append room l h.1 (omega arith)) refl

unescape_plain : (c : ℕ) (t : Bytes) → IsPlain c → unescape (c ∷ t) ≡ c ∷ unescape t
unfolding unescape
unescape_plain c [] h = let z : (c == 0) ≡ false = ground arith in rw z refl
unescape_plain c (d ∷ t) h =
    let z : (c == 0) ≡ false = ground arith in
    let b : (c == 92) ≡ false = ground arith in rw (z, b) refl

unescape_escaped :
    (t : Bytes)
    → (unescape (92 ∷ 110 ∷ t) ≡ 10 ∷ unescape t) × (unescape (92 ∷ 114 ∷ t) ≡ 13 ∷ unescape t)
unfolding unescape
unescape_escaped t = (refl, refl)

unescape-print_sentinle : (s : Bytes) → All IsPlain s → unescape (print_sentinle s) ≡ s
unfolding print_sentinle
unescape-print_sentinle [] h = unfold unescape in refl
unescape-print_sentinle (c ∷ s) h =
    let same = unescape-print_sentinle s h.1 in
    elim (Bool-cases (c == 10)) [
      | inl e ↦
          let c_is : c ≡ 10 = (==_iff c 10).0 e in
          rw e (
            (unescape_escaped (print_sentinle s)).0
            ∙ (ap (λ r. 10 ∷ r) same ∙ ap (λ x. x ∷ s) (sym c_is)))
      | inr e ↦ elim (Bool-cases (c == 13)) [
        | inl f ↦
            let c_is : c ≡ 13 = (==_iff c 13).0 f in
            rw (e, f)
              ((unescape_escaped (print_sentinle s)).1
                ∙ (ap (λ r. 13 ∷ r) same ∙ ap (λ x. x ∷ s) (sym c_is)))
        | inr f ↦ rw (e, f) (unescape_plain c (print_sentinle s) h.0 ∙ ap (λ r. c ∷ r) same)
      ]
    ]

print_sentinle_unquoted : (s : Bytes) → All IsPlain s → All (λ c. c ≢ 39) (print_sentinle s)
unfolding print_sentinle
print_sentinle_unquoted [] h = tt
print_sentinle_unquoted (c ∷ s) h = elim (Bool-cases (c == 10)) [
  | inl e ↦ rw e (λ q. omega (arith, q), (λ q. omega (arith, q), print_sentinle_unquoted s h.1))
  | inr e ↦ elim (Bool-cases (c == 13)) [
    | inl f ↦
        rw (e, f) (λ q. omega (arith, q), (λ q. omega (arith, q), print_sentinle_unquoted s h.1))
    | inr f ↦ rw (e, f) (h.0.1, print_sentinle_unquoted s h.1)
  ]
]

set_sentinle_sequence-sentinle_line :
    (s : Bytes) (c : PortAgentConfig)
    → All IsPlain s
    → length (print_sentinle s) ≤ 127
    → set_sentinle_sequence (sentinle_line s) c ≡ (true, record c { sentinle_sequence = s })
unfolding set_sentinle_sequence sentinle_line next_token read_token skip_spaces get_until
set_sentinle_sequence-sentinle_line s c plain short =
    rw
      (
        read_until-append 127 (print_sentinle s) (print_sentinle_unquoted s plain) short,
        unescape-print_sentinle s plain,
      )
      refl

-- No space but those that getConfig escapes.
abbrev pub IsUnspaced : ℕ → Type 0
IsUnspaced c = (is_space c ≡ false) ⊎ ((c ≡ 10) ⊎ (c ≡ 13))

print_sentinle_unspaced :
    (s : Bytes) → All IsUnspaced s → All (λ c. is_space c ≡ false) (print_sentinle s)
unfolding print_sentinle
print_sentinle_unspaced [] h = tt
print_sentinle_unspaced (c ∷ s) h =
    let rest = print_sentinle_unspaced s h.1 in
    elim (Bool-cases (c == 10)) [
      | inl e ↦ rw e (refl, (refl, rest))
      | inr e ↦ elim (Bool-cases (c == 13)) [
        | inl f ↦ rw (e, f) (refl, (refl, rest))
        | inr f ↦ rw (e, f) (ground (arith, h.0), rest)
      ]
    ]

read_token_unspaced :
    (l : Bytes) → All (λ c. is_space c ≡ false) l → read_token (l ++ 39 ∷ []) ≡ (l ++ 39 ∷ [], none)
unfolding read_token
read_token_unspaced [] h = refl
read_token_unspaced (c ∷ l) h = rw (h.0, read_token_unspaced l h.1) refl

-- The line has two words.
split_command-sentinle_line :
    (s : Bytes) → All IsUnspaced s → (split_command (sentinle_line s)).0 ≡ codes "sentinle"
unfolding split_command sentinle_line next_token skip_spaces read_token chomp
split_command-sentinle_line s h =
    rw (read_token_unspaced (print_sentinle s) (print_sentinle_unspaced s h)) refl

whole_line-sentinle_line : (s : Bytes) → whole_line (sentinle_line s) ≡ none
unfolding whole_line sentinle_line
whole_line-sentinle_line s = refl

-- The line of the sentinle that getConfig prints is taken by processCommand and sets the same
-- sentinle, if that has neither NUL nor a quote nor a backslash, no space but carriage returns
-- and line feeds, and takes at most 127 characters in the line. The publishers are told.
pub process_command-sentinle_line :
    (s : Bytes) (w : World)
    → All IsPlain s
    → All IsUnspaced s
    → length (print_sentinle s) ≤ 127
    → process_command (sentinle_line s) w ≡ (
        let c = w.config in
        (
          true,
          record w {
            config = record (add_command cmd_publisher_config_update c) { sentinle_sequence = s };
          },
        ))
unfolding process_command execute first_token
process_command-sentinle_line s w plain unspaced short =
    rw
      (
        split_command-sentinle_line s unspaced,
        whole_line-sentinle_line s,
        set_sentinle_sequence-sentinle_line s (add_command cmd_publisher_config_update w.config)
            plain short,
      )
      refl
