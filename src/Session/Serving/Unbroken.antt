-- ===== src/Session/Serving/Unbroken.antt =====
-- handlePortAgentCommand of the session against the commands of the agent, where none of them
-- breaks the serial line.
use port_agent.Prelude.{
  ℕ, zero, suc, ◌≤◌, ◌≡◌, inl, inr, refl, sym, ap, subst, ◌∙◌, arith, Bool, true, false, ◌||◌,
  Bool-cases, Bytes, [], ◌∷◌, Option, none, some, length,
}
use port_agent.Config.{World, PortAgentCommand, CommandQueue, command_code, get_command, dequeue}
use port_agent.Config.Text.{c_str}
use port_agent.Config.Commands.{parse}
use port_agent.Config.Queue.{Known}
use port_agent.Config.Validity.{IsValid}
use port_agent.Config.Parsing.{parse-IsValid}
use port_agent.Network.{History, Kernel, Outcome, done, thrown, process_exit, ◌>>=◌, ◌>>◌, when, M}
use port_agent.Agent.{Agent, agent_of, take_command, clear_commands, parse_commands}
use port_agent.Agent.Obedience.{
  world_with, with_queue, obey_all, obeyed, is_shutdown, until_shutdown, obey_queue, obey_all-cons,
  obey_all-shutdown, clear_lem, cleared-IsValid,
}
use port_agent.Session.{Session}
use port_agent.Session.Handlers.{
  on_agent_option, is_break, obey_command_of, process_commands, handle_commands,
}

-- Whether one of the commands is a break.
unfoldable pub has_break : CommandQueue → Bool
has_break [] = false
has_break (c ∷ q) = is_break c || has_break q

-- The session when these commands were obeyed.
unfoldable pub ended :
    (version : Bytes)
    → CommandQueue × Option CommandQueue
    → Agent
    → Session
    → History
    → Outcome Session (Unit {0})
unfolding obey_all
ended version (l, none) a s h =
    done tt (record s { agent = agent_of (obey_all version l (with_queue [] a)) }) h
ended version (l, some q) a s h =
    thrown process_exit (record s { agent = agent_of (obey_all version l (with_queue q a)) }) h

ended-obey :
    (version : Bytes) (c : PortAgentCommand) (l : CommandQueue) (o : Option CommandQueue)
    (a : Agent) (s : Session) (h : History)
    → is_shutdown c ≡ false
    → ended version (l, o) (obeyed version c a) s h ≡ ended version (c ∷ l, o) a s h
unfolding ended
ended-obey version c l none a s h e =
    ap (λ o. done tt (record s { agent = agent_of o }) h) (sym (obey_all-cons version c l [] a e))
ended-obey version c l (some q) a s h e =
    ap (λ o. thrown process_exit (record s { agent = agent_of o }) h)
      (sym (obey_all-cons version c l q a e))

ended-shutdown :
    (version : Bytes) (c : PortAgentCommand) (q : CommandQueue) (a : Agent) (s : Session)
    (h : History)
    → is_shutdown c ≡ true
    → thrown process_exit (record s { agent = with_queue q (obeyed version c a) }) h
      ≡ ended version (c ∷ [], some q) a s h
unfolding ended
ended-shutdown version c q a s h e =
    ap (λ o. thrown process_exit (record s { agent = agent_of o }) h)
      (sym (obey_all-shutdown version c q a e))

then_done :
    (m n : M Session (Unit {0})) {s s' : Session} {h h' : History}
    → m s h ≡ done tt s' h'
    → (do m; n) s h ≡ n s' h'
unfolding ◌>>◌ ◌>>=◌
then_done m n e = rw (e, ◌>>◌, ◌>>=◌) refl

on_agent_option_lem :
    (f : Agent → Option Agent) (s : Session) (h : History) (b : Agent)
    → f s.agent ≡ some b
    → on_agent_option f s h ≡ done tt (record s { agent = b }) h
on_agent_option_lem f s h b e = rw (e, on_agent_option) refl

parse_commands_lem :
    (text : Bytes) (a : Agent) (ok : Bool) (w : World)
    → parse (c_str text) (world_with [] a.world) ≡ some (ok, w)
    → parse_commands text (with_queue [] a) ≡ some (record a { world = w })
unfolding parse_commands
parse_commands_lem text a ok w e = rw e refl

module _ (k : Kernel) (junk : Bool) (memory version : Bytes) where
  process_commands-ended :
      (n : ℕ) (q : CommandQueue) (a : Agent) (s : Session) (h : History)
      → length q ≤ n
      → Known q
      → has_break q ≡ false
      → process_commands k junk memory version (suc n) (record s { agent = with_queue q a }) h
        ≡ ended version (until_shutdown q) a s h
  unfolding process_commands obey_command_of take_command get_command dequeue command_code ◌>>=◌
      ◌>>◌ when has_break until_shutdown ended
  process_commands-ended n [] a s h le known e = refl
  process_commands-ended zero (c ∷ q) a s h le known e = absurd (omega arith)
  process_commands-ended (suc n) (c ∷ q) a s h le known e = elim (Bool-cases (is_break c)) [
    | inl b ↦ absurd (ground (arith, b, e))
    | inr b ↦
        let rest : has_break q ≡ false = ground (arith, b, e) in
        elim (Bool-cases (is_shutdown c)) [
          | inl d ↦
              rw (known.0, b, obey_queue version c q a, d) (ended-shutdown version c q a s h d)
          | inr d ↦
              rw (known.0, b, obey_queue version c q a, d)
                (process_commands-ended n q (obeyed version c a) s h (omega arith) known.1 rest
                  ∙ ended-obey version c (until_shutdown q).0 (until_shutdown q).1 a s h d)
        ]
  ]

  -- With a valid configuration, and a text that is parsed and queues no break: the session obeys
  -- the commands of the text in their order, each once, and makes no system call. Where one is a
  -- shutdown the process ends there, the commands behind it still queued; else the queue is empty
  -- at the end.
  pub handle_commands-ended :
      (text : Bytes) (s : Session) (h : History) (ok : Bool) (w : World)
      → IsValid s.agent.world
      → parse (c_str text) (world_with [] s.agent.world) ≡ some (ok, w)
      → has_break w.config.commands ≡ false
      → handle_commands k junk memory version text s h
        ≡ ended version (until_shutdown w.config.commands) (record s.agent { world = w }) s h
  unfolding handle_commands ◌>>=◌
  handle_commands-ended text s h ok w v parsed e =
      let a = s.agent in
      let q = a.world.config.commands in
      let (ok', w', parsed', valid) =
        parse-IsValid (c_str text) (world_with [] a.world) (cleared-IsValid a.world v) in
      let same : w' ≡ w = ap (world_of w) (sym parsed' ∙ parsed) in
      then_done _ _ (
        on_agent_option_lem (λ c. clear_commands (suc (length c.world.config.commands)) c) s h _
          (clear_lem (length q) q a (omega arith) v.commands_apart.1))
      ∙ (then_done _ _ (
            on_agent_option_lem (parse_commands text) (record s { agent = with_queue [] a }) h _
              (parse_commands_lem text a ok w parsed))
          ∙ process_commands-ended (length w.config.commands) w.config.commands
              (record a { world = w }) s h (omega arith)
              (subst (λ u. Known u.config.commands) same valid.commands_apart.1) e)
    where
      world_of : World → Option (Bool × World) → World
      world_of u none = u
      world_of u (some r) = r.1
