-- ===== src/Session/Lines.antt =====
-- What becomes of the serial settings of a configuration.
use port_agent.Prelude.{◌==◌, if◌then◌else◌, Bool-cases, u16, ◌≡◌, ◌↔◌, arith, ℕ, refl, inl, inr}
use port_agent.Config.{PortAgentConfig}
use port_agent.Network.{parity_none, keeps, clears, sets}
use port_agent.Network.SerialCommSocket.{
  SerialCommSocket, known_baud, crtscts_of, ixon_of, line_settings,
}
use port_agent.Session.Instruments.{apply_serial_config}

crtscts_of_iff : (f : ℕ) → (crtscts_of f ≡ sets) ↔ (f ≡ 1)
unfolding crtscts_of
crtscts_of_iff f = ((λ h. ground arith), λ h. ground arith)

ixon_of_iff : (f : ℕ) → (ixon_of f ≡ sets) ↔ (f ≡ 2)
unfolding ixon_of
ixon_of_iff f = ((λ h. ground arith), λ h. ground arith)

-- A serial object whose data bits and parity are those of the constructor keeps them whatever is
-- configured: the line has eight data bits and no parity, its rate is the configured one if there
-- is a constant for it, and it has two stop bits exactly when the configured parity is 2. Flow
-- control is never turned on: whatever is configured, CRTSCTS stays as it was in c_cflag and IXON
-- is cleared in c_iflag; hardware flow control sets CRTSCTS in c_lflag, and software flow control
-- IXON there.
pub line_settings-apply_serial_config :
    (c : PortAgentConfig) (s : SerialCommSocket)
    → s.data_bits ≡ 8
    → s.parity ≡ 0
    → let t = apply_serial_config c s in
      let l = line_settings t in
      (t.data_bits ≡ 8)
      × (t.parity ≡ 0)
      × (l.bits ≡ 8)
      × (l.parity_bits ≡ parity_none)
      × (l.rate ≡ (if known_baud c.baud then c.baud else s.baud))
      × (l.control_crtscts ≡ keeps)
      × (l.input_ixon ≡ clears)
      × ((l.local_crtscts ≡ sets) ↔ (u16 c.flow ≡ 1))
      × ((l.local_ixon ≡ sets) ↔ (u16 c.flow ≡ 2))
      × (l.two_stop_bits ≡ (u16 c.parity == 2))
unfolding apply_serial_config line_settings crtscts_of ixon_of
line_settings-apply_serial_config c s d p = elim (Bool-cases (known_baud c.baud)) [
  | inl e ↦ rw e (
    d,
    p,
    rw d refl,
    rw p refl,
    refl,
    refl,
    refl,
    crtscts_of_iff (u16 c.flow),
    ixon_of_iff (u16 c.flow),
    refl,
  )
  | inr e ↦ rw e (
    d,
    p,
    rw d refl,
    rw p refl,
    refl,
    refl,
    refl,
    crtscts_of_iff (u16 c.flow),
    ixon_of_iff (u16 c.flow),
    refl,
  )
]
