-- ===== src/Config/CommandLine.antt =====
-- The constructor of PortAgentConfig: readConfig, setParameter and verifyCommandLineParameters.
-- What getopt_long finds is a list of options and arguments.
use port_agent.Prelude.{
  ℕ, zero, suc, ◌+◌, Bool, true, ◌&&◌, ◌||◌, if◌then◌else◌, ◌==◌, Bytes, [], ◌∷◌, List, Option,
  none, some, length, u16, to_u32,
}
use port_agent.Config.{World, cmd_help, cmd_shutdown, add_command}
use port_agent.Config.Text.{Stream, c_str, atoi, read_line}
use port_agent.Config.Values.{increase_log_level}
use port_agent.Config.Commands.{parse, queue}

pub data ConfigError : Type 0 where
  parameter_required file_io_exception : ConfigError

-- A call that returns, or throws.
pub data Outcome : Type 0 where
  finished : World → Outcome
  thrown : ConfigError → Outcome

-- `while(infile.getline(buffer, 128))`
unfoldable pub get_file_line : Stream → Option (Bytes × Stream)
unfolding read_line
get_file_line none = none
get_file_line (some []) = none
get_file_line (some (c ∷ s)) = read_line 127 (c ∷ s)

-- The loop of readConfig, on fuel: whether a line is parsed does not end it.
abbrev pub parse_line :
    Option (Bool × World) → Stream → (Stream → World → Option World) → Option World
parse_line none rest next = none
parse_line (some (done, w)) rest next = next rest w

abbrev pub with_file_line :
    Option (Bytes × Stream) → World → (Stream → World → Option World) → Option World
with_file_line none w next = some w
with_file_line (some (buffer, rest)) w next = parse_line (parse (c_str buffer) w) rest next

unfoldable pub read_lines : (fuel : ℕ) → Stream → World → Option World
unfolding get_file_line
read_lines zero s w = none
read_lines (suc fuel) s w = with_file_line (get_file_line s) w (read_lines fuel)

-- readConfig; nobody asks for its result. `content` is the file's, where it opens.
abbrev pub finish_reading : Option World → Option Outcome
finish_reading none = none
finish_reading (some w) = some (finished w)

unfoldable pub read_config : (content : Option Bytes) → World → Option Outcome
unfolding read_lines
read_config none w = some (thrown file_io_exception)
read_config (some text) w = finish_reading (read_lines (suc (length text)) (some text) w)

abbrev pub set_conffile : Bytes → Outcome → Outcome
set_conffile name (thrown e) = thrown e
set_conffile name (finished w) =
    let c = w.config in finished (record w { config = record c { conffile = name } })

abbrev pub map_outcome : (Outcome → Outcome) → Option Outcome → Option Outcome
map_outcome f none = none
map_outcome f (some o) = some (f o)

-- The options that setParameter has a case for, with their arguments, which getopt_long gives to
-- each option that requires one.
pub data Parameter : Type 0 where
  conffile_option command_port_option ppid_option : (value : Bytes) → Parameter
  single_option help_option version_option kill_option verbose_option : Parameter
  question_mark : Parameter
  other_option : Parameter

unfoldable pub set_parameter : (files : Bytes → Option Bytes) → Parameter → World → Option Outcome
unfolding read_config add_command increase_log_level
set_parameter files (conffile_option value) w =
    map_outcome (set_conffile value) (read_config (files value) w)
set_parameter files (command_port_option value) w =
    let c = w.config in
    some (
      finished
        (record w { config = record c { observatory_command_port = u16 (to_u32 (atoi value)) } }))
set_parameter files (ppid_option value) w =
    let c = w.config in
    some (finished (record w { config = record c { ppid = to_u32 (atoi value) } }))
set_parameter files single_option w =
    let c = w.config in some (finished (record w { config = record c { no_detatch = true } }))
set_parameter files help_option w =
    let v = queue cmd_help w in
    let c = v.config in some (finished (record v { config = record c { help = true } }))
set_parameter files version_option w =
    let v = queue cmd_shutdown w in
    let c = v.config in some (finished (record v { config = record c { version = true } }))
set_parameter files kill_option w =
    let v = queue cmd_shutdown w in
    let c = v.config in some (finished (record v { config = record c { kill = true } }))
set_parameter files verbose_option w =
    let v = increase_log_level w in
    let c = v.config in
    some (finished (record v { config = record c { verbose = u16 (c.verbose + 1) } }))
set_parameter files question_mark w = some (thrown parameter_required)
set_parameter files other_option w = some (finished w)

-- verifyCommandLineParameters; `mkpath` tells whether a directory can be made.
unfoldable pub verify_command_line_parameters : (mkpath : Bytes → Bool) → World → Outcome
verify_command_line_parameters mkpath w =
    let c = w.config in
    if c.help || c.version
    then finished w
    else if c.observatory_command_port == 0
    then thrown parameter_required
    else if mkpath c.logdir && mkpath c.piddir && mkpath c.datadir
    then finished w
    else thrown file_io_exception

-- The constructor: each option, and then the check.
abbrev pub next_option : Option Outcome → (World → Option Outcome) → Option Outcome
next_option none next = none
next_option (some (thrown e)) next = some (thrown e)
next_option (some (finished w)) next = next w

unfoldable pub read_options :
    (files : Bytes → Option Bytes) (mkpath : Bytes → Bool) → List Parameter → World → Option Outcome
unfolding set_parameter verify_command_line_parameters
read_options files mkpath [] w = some (verify_command_line_parameters mkpath w)
read_options files mkpath (p ∷ l) w =
    next_option (set_parameter files p w) (read_options files mkpath l)
