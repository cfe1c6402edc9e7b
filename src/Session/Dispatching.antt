-- ===== src/Session/Dispatching.antt =====
-- The try block of poll leads the agent to a state that a round allows.
use port_agent.Prelude.{
  ltb, ◌==◌, Bool-cases, Bytes, ℤ, ℕ, ◌-◌, ◌≡◌, sym, ◌∙◌, ◌<◌, ap, inl, inr, Bool, false, not, ◌&&◌,
  List, arith,
}
use port_agent.Config.Configured.{is_configured}
use port_agent.Network.{History, Kernel, unknown_state, raise, M, ◌>>=◌, ◌>>◌, when}
use port_agent.Network.Hoare.{Post, Post-bind, Post-map, Sound}
use port_agent.Network.Sending.{Takes}
use port_agent.Agent.{
  PortAgentState, state_unknown, state_startup, state_unconfigured, state_configured,
  state_connected, state_disconnected, set_state, emit, leave_unconfigured, publish_heartbeat,
}
use port_agent.Session.{Session, on_agent, config_of, enter}
use port_agent.Session.Handlers.{handle_common}
use port_agent.Session.Poll.{
  state_number, handle_state_unconfigured, handle_state_configured, handle_state_connected,
  in_state, open_log, handle_state_startup, dispatch,
}
use port_agent.Session.Keeping.{is_unknown_state, Keeps, Keeps-then, Keeps-modify}
use port_agent.Session.Machine.{Good}
use port_agent.Session.Listening.{initialize_observatory_command-Keeps}
use port_agent.Session.Serving.{
  handle_command_accept-Keeps, handle_data_read-Keeps, handle_common-Keeps,
}
use port_agent.Session.Running.{
  Served, Served-Allows, Served-AllowsConnecting, is_running, Reached, Fresh, Fresh-Reached,
  Round-Running, Round-startup, in_state_lem, Fresh-Allows, Fresh-configured, Starting,
  Starting-unconfigured, Starting-Reached, Live-Running, Live-state_number, in_state-Keeps,
  handle_command_read-Keeps, serves, configures,
}

-- A method that keeps a smaller set of states.
keeps_fewer :
    (R T : PortAgentState → Type 0) (m : M Session (Unit {0}))
    → Keeps (Good T) m
    → ((u : PortAgentState) → T u → R u)
    → (s : Session) (h : History) → Good R s
    → T (let a = s.agent in a.state)
    → Post (m s h) (λ _ s' h'. Good R s') (λ e s' h'. Good R s' × (is_unknown_state e ≡ false))
keeps_fewer R T m p f s h g t =
    Post-map (m s h) _ _ _ _
      (λ a s' h' q. let b = s'.agent in record { valid = q.valid; allowed = f b.state q.allowed })
      (λ e s' h' q.
        let (w, n) = q in
        let b = s'.agent in (record { valid = w.valid; allowed = f b.state w.allowed }, n))
      (p.kept s h (record { valid = g.valid; allowed = t }))

module _ (k : Kernel) (sound : Sound k) (takes : (fd : ℤ) → Takes k fd) (junk : Bool)
    (memory version : Bytes) (s0 : PortAgentState) where
  leaves : Keeps (Good (Fresh s0)) (on_agent leave_unconfigured)
  unfolding leave_unconfigured set_state
  leaves = Keeps-modify (λ s g.
      let a = s.agent in
      elim (Bool-cases (is_configured (config_of s))) [
        | inl e ↦ rw e (record { valid = g.valid; allowed = Fresh-configured s0 a.state g.allowed })
        | inr e ↦ rw e (record { valid = g.valid; allowed = g.allowed })
      ])

  unconfigured_serves :
      (ready : List ℤ)
      → Keeps (Good (Fresh s0)) (handle_state_unconfigured k junk memory version ready)
  unfolding handle_state_unconfigured
  unconfigured_serves ready =
      Keeps-then (handle_command_accept-Keeps k sound (Fresh s0) junk memory version ready) (
        Keeps-then
          (handle_command_read-Keeps k sound takes junk memory version (Fresh s0) ready
            (Fresh-Allows s0))
          (Keeps-then (handle_data_read-Keeps k sound (Fresh s0) junk memory version ready) leaves))

  started : Keeps (Good (Starting s0)) (handle_state_startup k junk memory version)
  unfolding handle_state_startup open_log enter set_state
  started =
      Keeps-then
        (Keeps-modify (λ s g.
          let v = g.valid in
          record {
            valid = record {
              ranges = v.ranges;
              commands_apart = v.commands_apart;
              ports_apart = v.ports_apart;
              level_fits = v.level_fits;
            };
            allowed = g.allowed;
          }))
        (Keeps-then (initialize_observatory_command-Keeps k sound (Starting s0)) (
          Keeps-modify (λ s g.
            let a = s.agent in
            record { valid = g.valid; allowed = Starting-unconfigured s0 a.state g.allowed })))

  beats : (time : ℕ) → Keeps (Good (Reached s0)) (on_agent (publish_heartbeat time))
  unfolding publish_heartbeat emit
  beats time = Keeps-modify (λ s g.
      let a = s.agent in
      let interval = (config_of s).heartbeat_interval in
      elim (Bool-cases (not (interval == 0) && ltb interval (time - a.last_heartbeat))) [
        | inl e ↦ rw e (record { valid = g.valid; allowed = g.allowed })
        | inr e ↦ rw e (record { valid = g.valid; allowed = g.allowed })
      ])

  -- In a state that runs and is not the unconfigured one.
  running :
      (s : Session)
      → Good (Reached s0) s
      → 2 < (let a = s.agent in state_number a.state)
      → Served s0 (let a = s.agent in a.state)
  running s g n =
      let a = s.agent in
      let r = Live-Running a.state (g.allowed.0) (λ x. omega (arith, n, x)) in
      (Round-Running g.allowed.1 r (λ x. omega (arith, n, x)), r, g.allowed.1)

  Served-Reached : (u : PortAgentState) → Served s0 u → Reached s0 u
  Served-Reached u r = (is_running r.1, r.2)

  -- What follows the unconfigured state's handler in a round.
  rest-Keeps :
      (ready : List ℤ) (time : ℕ)
      → Keeps (Good (Reached s0)) (do
        in_state state_configured (handle_state_configured k junk memory version)
        in_state state_connected (handle_state_connected k junk memory version ready)
        in_state state_disconnected (handle_state_connected k junk memory version ready)
        in_state state_startup (handle_state_startup k junk memory version)
        in_state state_unknown (raise unknown_state)
        handle_common k junk memory version ready
        on_agent (publish_heartbeat time))
  rest-Keeps ready time =
      let serving =
        serves k sound takes junk memory version (Served s0) ready (Served-Allows s0)
          (Served-AllowsConnecting s0) in
      Keeps-then
        (in_state-Keeps state_configured _ (λ s h g e.
          keeps_fewer _ (Served s0) _
            (configures k sound takes junk memory version (Served s0) (Served-AllowsConnecting s0))
            Served-Reached s h g (running s g (omega (arith, ap state_number e)))))
        (Keeps-then
          (in_state-Keeps state_connected _ (λ s h g e.
            keeps_fewer _ (Served s0) _ serving Served-Reached s h g
              (running s g (omega (arith, ap state_number e)))))
          (Keeps-then
            (in_state-Keeps state_disconnected _ (λ s h g e.
              keeps_fewer _ (Served s0) _ serving Served-Reached s h g
                (running s g (omega (arith, ap state_number e)))))
            (Keeps-then
              (in_state-Keeps state_startup _ (λ s h g e.
                keeps_fewer _ (Starting s0) _ started (Starting-Reached s0) s h g
                  (Round-startup g.allowed.1 e, inl e)))
              (Keeps-then
                (in_state-Keeps state_unknown _ (λ s h g e.
                  let a = s.agent in
                  absurd (Live-state_number a.state (g.allowed.0) (ap state_number e))))
                (Keeps-then (handle_common-Keeps k sound (Reached s0) junk memory version ready)
                  (beats time))))))

  -- The first handler of a round finds the state in which the round begins.
  first_handler :
      (ready : List ℤ) (s : Session) (h : History)
      → Good (Reached s0) s
      → (let a = s.agent in a.state) ≡ s0
      → Post
          (in_state state_unconfigured (handle_state_unconfigured k junk memory version ready) s h)
          (λ _ s' h'. Good (Reached s0) s')
          (λ e s' h'. Good (Reached s0) s' × (is_unknown_state e ≡ false))
  first_handler ready s h g b = in_state_lem state_unconfigured _ s h g (λ e.
      keeps_fewer _ (Fresh s0) _ (unconfigured_serves ready) (Fresh-Reached s0) s h g
        (sym b ∙ e, inl e))

  pub dispatched :
      (ready : List ℤ) (time : ℕ) (s : Session) (h : History)
      → Good (Reached s0) s
      → (let a = s.agent in a.state) ≡ s0
      → Post
          (dispatch k junk memory version ready time s h)
          (λ _ s' h'. Good (Reached s0) s')
          (λ e s' h'. Good (Reached s0) s' × (is_unknown_state e ≡ false))
  unfolding dispatch ◌>>=◌ ◌>>◌ when
  dispatched ready time s h g b =
      let rest = rest-Keeps ready time in
      Post-bind
        (in_state state_unconfigured (handle_state_unconfigured k junk memory version ready)) _ s h
        (λ _ s' h'. Good (Reached s0) s') _ _ (first_handler ready s h g b)
        (λ _ s' h' q. rest.kept s' h' q)
