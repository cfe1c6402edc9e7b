-- ===== src/Agent/Obedience.antt =====
-- What the agent does with the commands of a text.
use port_agent.Prelude.{
  ℕ, zero, suc, ◌≤◌, ◌≡◌, inl, inr, refl, arith, Bool, true, false, if◌then◌else◌, Bool-cases,
  Bytes, [], ◌∷◌, List, Option, none, some, length,
}
use port_agent.Config.{
  World, PortAgentCommand, CommandQueue, cmd_unknown, cmd_help, cmd_comm_config_update,
  cmd_publisher_config_update, cmd_path_config_update, cmd_save_config, cmd_get_config,
  cmd_get_state, cmd_ping, cmd_break, cmd_shutdown, cmd_rotation_interval, command_code,
  get_command, dequeue,
}
use port_agent.Config.Queue.{Known}
use port_agent.Config.Validity.{IsValid}
use port_agent.Agent.{
  Obeyed, goes_on, exits, agent_of, Agent, set_state, emit, set_rotation_interval, obey,
  take_command, clear_commands,
}

abbrev pub world_with : CommandQueue → World → World
world_with q w = let c = w.config in record w { config = record c { commands = q } }

abbrev pub with_queue : CommandQueue → Agent → Agent
with_queue q a = record a { world = world_with q a.world }

abbrev pub go_on : Obeyed → (Agent → Obeyed) → Obeyed
go_on (goes_on a) rest = rest a
go_on (exits a) rest = exits a

-- Commands obeyed one after another, until one ends the process.
unfoldable pub obey_all : (version : Bytes) → List PortAgentCommand → Agent → Obeyed
unfolding obey
obey_all version [] a = goes_on a
obey_all version (c ∷ l) a = go_on (obey version c a) (obey_all version l)

abbrev pub is_shutdown : PortAgentCommand → Bool
is_shutdown cmd_shutdown = true
is_shutdown _ = false

-- The commands up to the first shutdown, and those behind it where there is one.
unfoldable pub until_shutdown : CommandQueue → CommandQueue × Option CommandQueue
until_shutdown [] = ([], none)
until_shutdown (c ∷ q) =
    let rest = until_shutdown q in if is_shutdown c then (c ∷ [], some q) else (c ∷ rest.0, rest.1)

abbrev pub left_over : Option CommandQueue → CommandQueue
left_over none = []
left_over (some q) = q

-- What one command makes of the agent.
abbrev pub obeyed : (version : Bytes) → PortAgentCommand → Agent → Agent
obeyed version c a = agent_of (obey version c a)

abbrev pub ends_or_not : Bool → Agent → Obeyed
ends_or_not b a = if b then exits a else goes_on a

-- A command works alike whatever is queued, and only a shutdown ends the process.
pub obey_queue :
    (version : Bytes) (c : PortAgentCommand) (q : CommandQueue) (a : Agent)
    → obey version c (with_queue q a)
      ≡ ends_or_not (is_shutdown c) (with_queue q (obeyed version c a))
unfolding obey set_state emit set_rotation_interval
obey_queue version cmd_unknown q a = refl
obey_queue version cmd_help q a = refl
obey_queue version cmd_comm_config_update q a = refl
obey_queue version cmd_publisher_config_update q a = refl
obey_queue version cmd_path_config_update q a = refl
obey_queue version cmd_save_config q a = refl
obey_queue version cmd_get_config q a = refl
obey_queue version cmd_get_state q a = refl
obey_queue version cmd_ping q a = refl
obey_queue version cmd_break q a = elim (Bool-cases a.has_instrument) [
  | inl e ↦ rw e refl
  | inr e ↦ rw e refl
]
obey_queue version cmd_shutdown q a = refl
obey_queue version cmd_rotation_interval q a = refl

pub obey_outcome :
    (version : Bytes) (c : PortAgentCommand) (a : Agent)
    → obey version c a ≡ ends_or_not (is_shutdown c) (obeyed version c a)
unfolding obey
obey_outcome version cmd_unknown a = refl
obey_outcome version cmd_help a = refl
obey_outcome version cmd_comm_config_update a = refl
obey_outcome version cmd_publisher_config_update a = refl
obey_outcome version cmd_path_config_update a = refl
obey_outcome version cmd_save_config a = refl
obey_outcome version cmd_get_config a = refl
obey_outcome version cmd_get_state a = refl
obey_outcome version cmd_ping a = refl
obey_outcome version cmd_break a = refl
obey_outcome version cmd_shutdown a = refl
obey_outcome version cmd_rotation_interval a = refl

pub obey_all-shutdown :
    (version : Bytes) (c : PortAgentCommand) (q : CommandQueue) (a : Agent)
    → is_shutdown c ≡ true
    → obey_all version (c ∷ []) (with_queue q a) ≡ exits (with_queue q (obeyed version c a))
unfolding obey_all
obey_all-shutdown version c q a e = rw (obey_queue version c q a, e) refl

-- The first of the commands, where it does not end the process.
pub obey_all-cons :
    (version : Bytes) (c : PortAgentCommand) (l q : CommandQueue) (a : Agent)
    → is_shutdown c ≡ false
    → obey_all version (c ∷ l) (with_queue q a)
      ≡ obey_all version l (with_queue q (obeyed version c a))
unfolding obey_all
obey_all-cons version c l q a e = rw (obey_queue version c q a, e) refl

pub clear_lem :
    (n : ℕ) (q : CommandQueue) (a : Agent)
    → length q ≤ n
    → Known q
    → clear_commands (suc n) (with_queue q a) ≡ some (with_queue [] a)
unfolding clear_commands take_command get_command dequeue command_code
clear_lem n [] a h k = refl
clear_lem zero (c ∷ q) a h k = absurd (omega arith)
clear_lem (suc n) (c ∷ q) a h k = rw k.0 (clear_lem n q a (omega arith) k.1)

pub cleared-IsValid : (w : World) → IsValid w → IsValid (world_with [] w)
cleared-IsValid w v = record {
  ranges = v.ranges;
  commands_apart = (tt, tt);
  ports_apart = v.ports_apart;
  level_fits = v.level_fits;
}
