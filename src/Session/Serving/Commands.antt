-- ===== src/Session/Serving/Commands.antt =====
-- handlePortAgentCommand ends and keeps the session good.
use port_agent.Prelude.{
  Bytes, length, ℤ, ℕ, zero, suc, ◌<◌, ◌≡◌, refl, sym, subst, Bool, false, Option, none, some, [],
  ◌∷◌, arith,
}
use port_agent.Config.{PortAgentCommand, command_code, CommandQueue, dequeue, get_command}
use port_agent.Config.Text.{c_str}
use port_agent.Config.Queue.{Distinct, Known}
use port_agent.Config.Parsing.{parse-IsValid}
use port_agent.Network.{History, Kernel, Outcome, done, unfinished, ◌>>=◌, ◌>>◌, this}
use port_agent.Network.Hoare.{Post, Post-bind, Post-map}
use port_agent.Network.Sending.{Takes}
use port_agent.Agent.{PortAgentState, Agent, take_command, clear_commands, parse_commands}
use port_agent.Agent.Obedience.{world_with, with_queue, clear_lem, cleared-IsValid}
use port_agent.Session.{Session, config_of}
use port_agent.Session.Handlers.{
  on_agent_option, obey_command_of, process_commands, handle_commands,
}
use port_agent.Session.Keeping.{is_unknown_state, Keeps, Keeps-then}
use port_agent.Session.Serving.Obeying.{Queued, obey_command_of-Keeps}
use port_agent.Session.Machine.{Allows, Good}

module _ (k : Kernel) (junk : Bool) (memory version : Bytes) (takes : (fd : ℤ) → Takes k fd) where
  module _ (R : PortAgentState → Type 0) (allows : Allows R) where
    -- The session without the first command of its queue.
    shorter : CommandQueue → Session → Session
    shorter q s = let a = s.agent in record s { agent = record a { world = world_with q a.world } }

    shorter-Queued :
        (c : PortAgentCommand) (q : CommandQueue) (s : Session)
        → Queued R (c ∷ q) s
        → Queued R q (shorter q s)
    unfolding shorter
    shorter-Queued c q s g =
        let h = g.good in
        let v = h.valid in
        let apart = subst (λ l. Distinct l × Known l) g.queue v.commands_apart in
        record {
          good = record {
            valid = record {
              ranges = v.ranges;
              commands_apart = (apart.0.1, apart.1.1);
              ports_apart = v.ports_apart;
              level_fits = v.level_fits;
            };
            allowed = h.allowed;
          };
          queue = refl;
        }

    empty-Good : (s : Session) → Good R s → Good R (shorter [] s)
    unfolding shorter
    empty-Good s h =
        let v = h.valid in
        record {
          valid = record {
            ranges = v.ranges;
            commands_apart = (tt, tt);
            ports_apart = v.ports_apart;
            level_fits = v.level_fits;
          };
          allowed = h.allowed;
        }

    -- A round of processPortAgentCommands for every command and one more are enough.
    processed :
        (fuel : ℕ) (q : CommandQueue) (s : Session) (h : History)
        → length q < fuel
        → Queued R q s
        → Post
            (process_commands k junk memory version fuel s h)
            (λ _ s' h'. Good R s')
            (λ e s' h'. Good R s' × (is_unknown_state e ≡ false))
    unfolding process_commands take_command get_command dequeue command_code ◌>>=◌ ◌>>◌ shorter
    processed zero q s h f g = absurd (omega arith)
    processed (suc fuel) [] s h f g = rw g.queue (empty-Good s g.good)
    processed (suc fuel) (c ∷ q) s h f g =
        let v = (g.good).valid in
        let known = subst (λ l. Known l) g.queue (v.commands_apart.1) in
        rw (g.queue, known.0)
          (Post-bind (obey_command_of k junk memory version c) _ (shorter q s) h
            (λ _ s' h'. Queued R q s') _ _
            (Post-map (obey_command_of k junk memory version c (shorter q s) h) _ _ _ _
              (λ a s' h' p. p) (λ e s' h' p. (p.0.good, p.1))
              ((obey_command_of-Keeps k junk memory version takes R allows c q).kept (shorter q s) h
                (shorter-Queued c q s g)))
            (λ a s' h' p. processed fuel q s' h' (omega arith) p))

    option-Keeps :
        (f : Agent → Option Agent)
        → ((s : Session)
            → Good R s
            → (b : Agent) × (f s.agent ≡ some b) × Good R (record s { agent = b }))
        → Keeps (Good R) (on_agent_option f)
    option-Keeps f p = record {
      kept = λ s h g.
          let (b, e, q) = p s g in
          subst
            (λ o.
              Post
                (elim o as (λ _. Outcome Session (Unit {0})) [
                  | none ↦ unfinished
                  | some a ↦ done tt (record s { agent = a }) h
                ])
                (λ _ s' h'. Good R s') (λ e s' h'. Good R s' × (is_unknown_state e ≡ false)))
            (sym e) q;
    }

    clears :
        Keeps
          (Good R)
          (on_agent_option (λ a. clear_commands (suc (length a.world.config.commands)) a))
    clears = option-Keeps _ (λ s g.
        let a = s.agent in
        let v = g.valid in
        let q = (config_of s).commands in
        (
          with_queue [] a,
          clear_lem (length q) q a (omega arith) v.commands_apart.1,
          record { valid = cleared-IsValid a.world v; allowed = g.allowed },
        ))

    parses : (text : Bytes) → Keeps (Good R) (on_agent_option (parse_commands text))
    unfolding parse_commands
    parses text = option-Keeps _ (λ s g.
        let a = s.agent in
        let (ok, w, parsed, valid) = parse-IsValid (c_str text) a.world g.valid in
        (record a { world = w }, rw parsed refl, record { valid = valid; allowed = g.allowed }))

    processes : Keeps (Good R) (do
      s ← this
      let c = config_of s
      process_commands k junk memory version (suc (length c.commands)))
    unfolding ◌>>=◌
    processes = record {
      kept = λ s h g.
          let q = (config_of s).commands in
          processed (suc (length q)) q s h (omega arith) (record { good = g; queue = refl });
    }

    pub handle_commands-Keeps :
        (text : Bytes) → Keeps (Good R) (handle_commands k junk memory version text)
    unfolding handle_commands
    handle_commands-Keeps text = Keeps-then clears (Keeps-then (parses text) processes)
