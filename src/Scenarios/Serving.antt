-- ===== src/Scenarios/Serving.antt =====
-- A session that is given commands.
use port_agent.Prelude.{◌≡◌, refl, true, false, codes, [], ◌∷◌, some, Bytes}
use port_agent.Config.{World, cmd_ping, cmd_shutdown, cmd_get_state, command_code, defaults}
use port_agent.Config.Text.{c_str}
use port_agent.Config.Commands.{parse}
use port_agent.Agent.Obedience.{world_with, until_shutdown}
use port_agent.Session.Handlers.{handle_commands}
use port_agent.Session.Serving.Unbroken.{has_break, ended, handle_commands-ended}
use port_agent.Scenarios.Configs.{start, start-IsValid}
use port_agent.Scenarios.Listeners.{lively}
use port_agent.Scenarios.Rounds.{new_agent, new_session}

abbrev shutdown_text : Bytes
shutdown_text = codes "ping\nshutdown\nget_state\n"

abbrev told : World
told = world_with (cmd_ping ∷ cmd_shutdown ∷ cmd_get_state ∷ []) start

told_lem : parse (c_str shutdown_text) (world_with [] start) ≡ some (true, told)
unfolding parse c_str defaults command_code
told_lem = refl

-- The last command stays in the queue.
told_until :
    until_shutdown told.config.commands ≡ (cmd_ping ∷ cmd_shutdown ∷ [], some (cmd_get_state ∷ []))
unfolding until_shutdown
told_until = refl

told_break : has_break told.config.commands ≡ false
unfolding has_break
told_break = refl

handle_commands-ended_example :
    handle_commands lively false [] (codes "1.0") shutdown_text new_session []
    ≡ ended
        (codes "1.0")
        (until_shutdown told.config.commands)
        (record new_agent { world = told })
        new_session
        []
handle_commands-ended_example =
    handle_commands-ended lively false [] (codes "1.0") shutdown_text new_session [] true told
      start-IsValid told_lem told_break
