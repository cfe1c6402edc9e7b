-- ===== src/Agent/Heartbeat.antt =====
-- When heartbeats are published.
use port_agent.Prelude.{
  ℕ, ◌+◌, ◌-◌, ◌<◌, ◌≡◌, ◌≢◌, ◌⊎◌, inl, inr, refl, arith, true, false, ◌&&◌, not, if◌then◌else◌,
  ltb, ◌==◌, Bool-cases, [], ◌∷◌, ◌++◌, List, length, length-append,
}
use port_agent.Packet.{port_agent_heartbeat}
use port_agent.Agent.{Agent, publish_packet, emit, publish_heartbeat}

-- The heartbeats of polls at the given times, one after the other: when they were published.
unfoldable pub beats : List ℕ → Agent → List ℕ
beats [] a = []
beats (now ∷ times) a =
    let b = publish_heartbeat now a in
    let rest = beats times b in if length a.effects == length b.effects then rest else now ∷ rest

-- Each is later than the last one by more than the interval.
abbrev pub Spaced : (interval last : ℕ) → List ℕ → Type 0
Spaced interval last [] = Unit
Spaced interval last (now ∷ times) = (last + interval < now) × Spaced interval now times

one_beat :
    (now : ℕ) (a : Agent)
    → (publish_heartbeat now a ≡ a)
      ⊎ ((publish_heartbeat now a ≡ record a {
        effects = a.effects ++ publish_packet port_agent_heartbeat [] ∷ [];
        last_heartbeat = now;
      })
          × (a.world.config.heartbeat_interval ≢ 0)
          × (a.last_heartbeat + a.world.config.heartbeat_interval < now))
unfolding publish_heartbeat emit
one_beat now a =
    let interval = a.world.config.heartbeat_interval in
    elim (Bool-cases (not (interval == 0) && ltb interval (now - a.last_heartbeat))) [
      | inr e ↦ inl (rw e refl)
      | inl e ↦
          let due : (interval ≢ 0) × (a.last_heartbeat + interval < now) = ground arith in
          inr (rw e refl, due.0, due.1)
    ]

-- However often the agent polls, and whatever its clock gives, more than the interval lies
-- between two heartbeats, and an interval of 0 gives none.
pub beats-Spaced :
    (times : List ℕ) (a : Agent)
    → Spaced a.world.config.heartbeat_interval a.last_heartbeat (beats times a)
      × (a.world.config.heartbeat_interval ≡ 0 → beats times a ≡ [])
unfolding beats
beats-Spaced [] a = (tt, λ z. refl)
beats-Spaced (now ∷ times) a = elim (one_beat now a) [
  | inl same ↦
      let e : (length a.effects == length a.effects) ≡ true = ground arith in
      rw (same, e) (beats-Spaced times a)
  | inr (beat, some_interval, late) ↦
      let longer : (length a.effects
            == length (a.effects ++ publish_packet port_agent_heartbeat [] ∷ []))
          ≡ false =
        ground (arith, length-append a.effects (publish_packet port_agent_heartbeat [] ∷ [])) in
      rw (beat, longer)
        (
          (
            late,
            (beats-Spaced times (record a {
              effects = a.effects ++ publish_packet port_agent_heartbeat [] ∷ [];
              last_heartbeat = now;
            })).0,
          ),
          λ z. absurd (some_interval z),
        )
]
