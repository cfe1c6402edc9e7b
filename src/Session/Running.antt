-- ===== src/Session/Running.antt =====
-- What a round of poll does to the agent's state, and that it ends.
use port_agent.Prelude.{
  ◌==◌, Bool-cases, Bytes, ℤ, ◌≡◌, refl, sym, ap, subst, ◌⊎◌, inl, inr, Bool, true, false, List,
  arith,
}
use port_agent.Packet.{port_agent_command}
use port_agent.Network.{History, Kernel, M, ◌>>=◌, when}
use port_agent.Network.Hoare.{Post, Sound}
use port_agent.Network.Sending.{Takes}
use port_agent.Agent.{
  PortAgentState, state_unknown, state_startup, state_unconfigured, state_configured,
  state_connected, state_disconnected,
}
use port_agent.Session.{Session}
use port_agent.Session.Handlers.{handle_command_read}
use port_agent.Session.Poll.{
  state_number, in_state, handle_state_configured, handle_state_connected,
}
use port_agent.Session.Keeping.{is_unknown_state, Keeps, Keeps-bind, Keeps-then, Keeps-when}
use port_agent.Session.Machine.{
  Running, unconfigured_runs, configured_runs, connected_runs, disconnected_runs, Round, stays,
  starts, is_reset, gets_configured, connects, disconnects, Allows, AllowsConnecting, Good,
}
use port_agent.Session.Connecting.{initialize_instrument_connection-Keeps}
use port_agent.Session.Listening.{
  on_command_socket-Keeps, initialize_observatory_command-Keeps, initialize_observatory_data-Keeps,
  initialize_publishers-Keeps,
}
use port_agent.Session.Serving.{
  read_ready-Ends, handle_command_accept-Keeps, handle_data_accept-Keeps, published,
  handle_data_read-Keeps, handle_instrument_read-Keeps,
}
use port_agent.Session.Serving.Commands.{handle_commands-Keeps}

-- The states that poll finds: all but the unknown one.
pub data Live : PortAgentState → Type 0 where
  is_running : {s : PortAgentState} → Running s → Live s
  is_starting : Live state_startup

module _ (s0 : PortAgentState) where
  -- The running states that a round from a running state leads to.
  abbrev pub Served : PortAgentState → Type 0
  Served s = Running s0 × Running s × Round s0 s

  pub Served-Allows : Allows Served
  Served-Allows = record { reset_allowed = λ s r. (r.0, unconfigured_runs, is_reset r.0) }

  pub Served-AllowsConnecting : AllowsConnecting Served
  Served-AllowsConnecting = record {
    connected_allowed = λ s r. (r.0, connected_runs, connects r.0);
    disconnected_allowed = λ s r. (r.0, disconnected_runs, disconnects r.0);
  }

  abbrev pub Reached : PortAgentState → Type 0
  Reached s = Live s × Round s0 s

  -- What the handler of the unconfigured state may lead to, in a round that begins there.
  abbrev pub Fresh : PortAgentState → Type 0
  Fresh s = (s0 ≡ state_unconfigured) × ((s ≡ state_unconfigured) ⊎ (s ≡ state_configured))

  pub Fresh-Reached : (s : PortAgentState) → Fresh s → Reached s
  Fresh-Reached s (b, inl e) = (
    subst Live (sym e) (is_running unconfigured_runs),
    subst (λ u. Round u s) (sym b) (subst (Round state_unconfigured) (sym e) stays),
  )
  Fresh-Reached s (b, inr e) = (
    subst Live (sym e) (is_running configured_runs),
    subst (λ u. Round u s) (sym b) (subst (Round state_unconfigured) (sym e) gets_configured),
  )

  pub Fresh-Allows : Allows Fresh
  Fresh-Allows = record { reset_allowed = λ s f. (f.0, inl refl) }

  pub Fresh-configured : (s : PortAgentState) → Fresh s → Fresh state_configured
  Fresh-configured s f = (f.0, inr refl)

  -- And that of the start.
  abbrev pub Starting : PortAgentState → Type 0
  Starting s = (s0 ≡ state_startup) × ((s ≡ state_startup) ⊎ (s ≡ state_unconfigured))

  pub Starting-unconfigured : (s : PortAgentState) → Starting s → Starting state_unconfigured
  Starting-unconfigured s f = (f.0, inr refl)

  pub Starting-Reached : (s : PortAgentState) → Starting s → Reached s
  Starting-Reached s (b, inl e) = (
    subst Live (sym e) is_starting,
    subst (λ u. Round u s) (sym b) (subst (Round state_startup) (sym e) stays),
  )
  Starting-Reached s (b, inr e) = (
    subst Live (sym e) (is_running unconfigured_runs),
    subst (λ u. Round u s) (sym b) (subst (Round state_startup) (sym e) starts),
  )

-- A running state other than the unconfigured one is found only in a round that began running.
pub Round-Running :
    {s0 u : PortAgentState} → Round s0 u → Running u → (state_number u ≡ 2 → ⊥) → Running s0
Round-Running stays r n = r
Round-Running starts r n = absurd (n refl)
Round-Running gets_configured r n = unconfigured_runs
Round-Running (is_reset q) r n = q
Round-Running (connects q) r n = q
Round-Running (disconnects q) r n = q

-- The start is found only in a round that began there.
pub Round-startup : {s0 u : PortAgentState} → Round s0 u → u ≡ state_startup → s0 ≡ state_startup
Round-startup stays e = e
Round-startup starts e = refl
Round-startup gets_configured e = absurd (omega (arith, ap state_number e))
Round-startup (is_reset q) e = absurd (omega (arith, ap state_number e))
Round-startup (connects q) e = absurd (omega (arith, ap state_number e))
Round-startup (disconnects q) e = absurd (omega (arith, ap state_number e))

Running-state_number :
    (s : PortAgentState)
    → Running s
    → (state_number s ≡ 2) ⊎ ((state_number s ≡ 3) ⊎ ((state_number s ≡ 4) ⊎ (state_number s ≡ 5)))
Running-state_number state_unconfigured r = inl refl
Running-state_number state_configured r = inr (inl refl)
Running-state_number state_connected r = inr (inr (inl refl))
Running-state_number state_disconnected r = inr (inr (inr refl))
Running-state_number state_unknown r = elim r [ ]
Running-state_number state_startup r = elim r [ ]

-- A live state that is not the first one runs.
pub Live-Running : (s : PortAgentState) → Live s → (state_number s ≡ 1 → ⊥) → Running s
Live-Running s (is_running r) n = r
Live-Running s is_starting n = absurd (n refl)

pub Live-state_number : (s : PortAgentState) → Live s → state_number s ≡ 0 → ⊥
Live-state_number s (is_running r) e = ground (arith, Running-state_number s r)
Live-state_number s is_starting e = absurd (omega arith)

same_state : (a b : PortAgentState) → (state_number a == state_number b) ≡ true → a ≡ b
same_state state_unknown state_unknown e = refl
same_state state_startup state_startup e = refl
same_state state_unconfigured state_unconfigured e = refl
same_state state_configured state_configured e = refl
same_state state_connected state_connected e = refl
same_state state_disconnected state_disconnected e = refl
same_state state_unknown state_startup e = cc
same_state a b e = ground arith

module _ {R : PortAgentState → Type 0} where
  -- A handler of a state may assume the state.
  pub in_state_lem :
      (state : PortAgentState) (m : M Session (Unit {0})) (s : Session) (h : History)
      → Good R s
      → ((let a = s.agent in a.state) ≡ state
          → Post
              (m s h)
              (λ _ s' h'. Good R s')
              (λ e s' h'. Good R s' × (is_unknown_state e ≡ false)))
      → Post
          (in_state state m s h)
          (λ _ s' h'. Good R s')
          (λ e s' h'. Good R s' × (is_unknown_state e ≡ false))
  unfolding ◌>>=◌ when
  in_state_lem state m s h g p =
      let a = s.agent in
      elim (Bool-cases (state_number a.state == state_number state)) [
        | inl e ↦ rw e (p (same_state a.state state e))
        | inr e ↦ rw e g
      ]

  pub in_state-Keeps :
      (state : PortAgentState) (m : M Session (Unit {0}))
      → ((s : Session) (h : History)
          → Good R s
          → (let a = s.agent in a.state) ≡ state
          → Post
              (m s h)
              (λ _ s' h'. Good R s')
              (λ e s' h'. Good R s' × (is_unknown_state e ≡ false)))
      → Keeps (Good R) (in_state state m)
  in_state-Keeps state m p = record { kept = λ s h g. in_state_lem state m s h g (p s h g) }

module _ (k : Kernel) (sound : Sound k) (takes : (fd : ℤ) → Takes k fd) (junk : Bool)
    (memory version : Bytes) where
  pub handle_command_read-Keeps :
      (R : PortAgentState → Type 0) (ready : List ℤ)
      → Allows R
      → Keeps (Good R) (handle_command_read k junk memory version ready)
  unfolding handle_command_read
  handle_command_read-Keeps R ready allows =
      Keeps-bind
        (on_command_socket-Keeps k sound R _ (read_ready-Ends k sound R junk memory version ready))
        (λ bytes. Keeps-when _ (
          Keeps-then (handle_commands-Keeps k junk memory version takes R allows bytes)
            (published k sound R bytes port_agent_command)))

  pub serves :
      (R : PortAgentState → Type 0) (ready : List ℤ)
      → Allows R
      → AllowsConnecting R
      → Keeps (Good R) (handle_state_connected k junk memory version ready)
  unfolding handle_state_connected
  serves R ready allows connecting =
      Keeps-then (handle_command_accept-Keeps k sound R junk memory version ready) (
        Keeps-then (handle_data_accept-Keeps k sound R junk memory version ready) (
          Keeps-then (handle_command_read-Keeps R ready allows) (
            Keeps-then (handle_data_read-Keeps k sound R junk memory version ready)
              (handle_instrument_read-Keeps k sound R junk memory version ready takes connecting))))

  pub configures :
      (R : PortAgentState → Type 0)
      → AllowsConnecting R
      → Keeps (Good R) (handle_state_configured k junk memory version)
  unfolding handle_state_configured
  configures R connecting = Keeps-then (initialize_observatory_command-Keeps k sound R) (
      Keeps-then (initialize_observatory_data-Keeps k sound R) (
        Keeps-then (initialize_instrument_connection-Keeps R connecting k junk memory takes)
          (initialize_publishers-Keeps k sound R)))
