-- ===== src/Session/Serving/Obeying.antt =====
-- Each command of processPortAgentCommands, a serial break included, keeps the session good.
use port_agent.Prelude.{
  Bool-cases, Bytes, ℤ, ℕ, ◌≡◌, refl, sym, ap, subst, ◌∙◌, inl, inr, Bool, false,
}
use port_agent.Config.{
  PortAgentCommand, cmd_unknown, cmd_help, cmd_comm_config_update, cmd_publisher_config_update,
  cmd_path_config_update, cmd_save_config, cmd_get_config, cmd_get_state, cmd_ping, cmd_break,
  cmd_shutdown, cmd_rotation_interval, CommandQueue,
}
use port_agent.Config.Validity.{IsValid}
use port_agent.Network.{History, ◌>>=◌, Kernel}
use port_agent.Network.Hoare.{Post}
use port_agent.Network.Sending.{Takes}
use port_agent.Agent.{PortAgentState, Agent, set_state, emit, set_rotation_interval, obey}
use port_agent.Session.{
  InstrumentLink, no_instrument, tcp_instrument, rsn_instrument, botpt_instrument,
  serial_instrument, Session, config_of,
}
use port_agent.Session.Instruments.{with_instrument, send_break_on}
use port_agent.Session.Handlers.{is_break, on_obeyed, obey_command_of}
use port_agent.Session.Keeping.{is_unknown_state, Keeps, Keeps-then, Keeps-give, Keeps-member}
use port_agent.Session.Endings.{send_serial_break-Ends}
use port_agent.Session.Endings.Digi.{send_rsn_break-Ends}
use port_agent.Session.Machine.{Allows, Good}

abbrev Closed : (Session → Type 0) → Type 0
Closed P = (l : InstrumentLink) (s : Session) → P s → P (with_instrument l s)

-- A good session with a queue of commands.
pub record Queued (R : PortAgentState → Type 0) (q : CommandQueue) (s : Session) : Type 0 where
  pub good : Good R s
  pub queue : (config_of s).commands ≡ q

Queued-Closed : (R : PortAgentState → Type 0) (q : CommandQueue) → Closed (Queued R q)
Queued-Closed R q l s g =
    let h = g.good in
    record { good = record { valid = h.valid; allowed = h.allowed }; queue = g.queue }

module _ (k : Kernel) (junk : Bool) (memory version : Bytes) (takes : (fd : ℤ) → Takes k fd) where
  send_break_on-Keeps :
      (P : Session → Type 0) (l : InstrumentLink) (duration : ℕ)
      → Closed P
      → Keeps P (send_break_on k junk memory l duration)
  unfolding send_break_on
  send_break_on-Keeps P no_instrument duration c = Keeps-give
  send_break_on-Keeps P (tcp_instrument t) duration c = Keeps-give
  send_break_on-Keeps P (botpt_instrument t) duration c = Keeps-give
  send_break_on-Keeps P (rsn_instrument t) duration c =
      Keeps-then (Keeps-member _ _ (λ t s p. c _ s p) (send_rsn_break-Ends k memory takes duration))
        Keeps-give
  send_break_on-Keeps P (serial_instrument t) duration c =
      Keeps-then (Keeps-member _ _ (λ t s p. c _ s p) (send_serial_break-Ends k duration))
        Keeps-give

  module _ (R : PortAgentState → Type 0) (allows : Allows R) where
    -- What leaves the agent's world and state as they are.
    unchanged :
        (q : CommandQueue) (s : Session) (b : Agent)
        → Queued R q s
        → (let a = s.agent in (b.world ≡ a.world) × (b.state ≡ a.state))
        → Queued R q (record s { agent = b })
    unchanged q s b g (w, t) =
        let h = g.good in
        record {
          good = record {
            valid = subst IsValid (sym w) h.valid;
            allowed = subst R (sym t) h.allowed;
          };
          queue = ap (λ w. let c = w.config in c.commands) w ∙ g.queue;
        }

    -- A command of the agent alone.
    obeyed-Queued :
        (cmd : PortAgentCommand) (q : CommandQueue) (s : Session) (h : History)
        → is_break cmd ≡ false
        → Queued R q s
        → Post
            (on_obeyed (obey version cmd s.agent) s h)
            (λ _ s' h'. Queued R q s')
            (λ e s' h'. Queued R q s' × (is_unknown_state e ≡ false))
    unfolding obey set_state emit set_rotation_interval
    obeyed-Queued cmd_comm_config_update q s h e g =
        let v = g.good in
        let a = s.agent in
        record {
          good = record { valid = v.valid; allowed = allows.reset_allowed a.state v.allowed };
          queue = g.queue;
        }
    obeyed-Queued cmd_break q s h e g = cc
    obeyed-Queued cmd_shutdown q s h e g = (unchanged q s _ g (refl, refl), refl)
    obeyed-Queued cmd_unknown q s h e g = unchanged q s _ g (refl, refl)
    obeyed-Queued cmd_help q s h e g = unchanged q s _ g (refl, refl)
    obeyed-Queued cmd_publisher_config_update q s h e g = unchanged q s _ g (refl, refl)
    obeyed-Queued cmd_path_config_update q s h e g = unchanged q s _ g (refl, refl)
    obeyed-Queued cmd_save_config q s h e g = unchanged q s _ g (refl, refl)
    obeyed-Queued cmd_get_config q s h e g = unchanged q s _ g (refl, refl)
    obeyed-Queued cmd_get_state q s h e g = unchanged q s _ g (refl, refl)
    obeyed-Queued cmd_ping q s h e g = unchanged q s _ g (refl, refl)
    obeyed-Queued cmd_rotation_interval q s h e g = unchanged q s _ g (refl, refl)

    pub obey_command_of-Keeps :
        (cmd : PortAgentCommand) (q : CommandQueue)
        → Keeps (Queued R q) (obey_command_of k junk memory version cmd)
    unfolding obey_command_of ◌>>=◌
    obey_command_of-Keeps cmd q = record {
      kept = λ s h g. elim (Bool-cases (is_break cmd)) [
        | inl b ↦
            let sends =
              send_break_on-Keeps (Queued R q) s.instrument (config_of s).break_duration
                (Queued-Closed R q) in
            rw b (sends.kept s h g)
        | inr b ↦ rw b (obeyed-Queued cmd q s h b g)
      ];
    }
