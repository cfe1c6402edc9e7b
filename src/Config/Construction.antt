-- ===== src/Config/Construction.antt =====
-- A configuration after its constructor.
use port_agent.Prelude.{
  ℕ, zero, suc, ◌≤◌, ◌<◌, ◌≡◌, ◌≢◌, ◌⊎◌, inl, inr, refl, sym, ap, subst, ◌∙◌, arith, Bool, true,
  ◌&&◌, ◌||◌, ◌==◌, Bool-cases, Bytes, [], ◌∷◌, List, Option, none, some, length,
}
use port_agent.Config.{World, cmd_help, cmd_shutdown, command_code}
use port_agent.Config.Text.{Stream, c_str, read_line}
use port_agent.Config.Values.{increase_log_level}
use port_agent.Config.Commands.{queue}
use port_agent.Config.Validity.{IsValid, queue-IsValid, increase_log_level-IsValid, keeps_IsValid}
use port_agent.Config.Parsing.{parse-IsValid, Leaves, remaining, read_line-Leaves}
use port_agent.Config.CommandLine.{
  file_io_exception, finish_reading, Outcome, finished, thrown, get_file_line, with_file_line,
  read_lines, read_config, set_conffile, Parameter, conffile_option, command_port_option,
  ppid_option, single_option, help_option, version_option, kill_option, verbose_option,
  question_mark, other_option, set_parameter, verify_command_line_parameters, next_option,
  read_options,
}

get_file_line-Leaves : (s : Stream) (n : ℕ) → remaining s ≤ suc n → Leaves (get_file_line s) n
unfolding get_file_line Leaves remaining read_line
get_file_line-Leaves none n h = tt
get_file_line-Leaves (some []) n h = tt
get_file_line-Leaves (some (c ∷ s)) n h = ground (arith, read_line-Leaves 126 s)

Reads : Option World → Type 0
Reads o = (w : World) × (o ≡ some w) × IsValid w

last_file_line : (s : Stream) → remaining s ≡ 0 → get_file_line s ≡ none
unfolding get_file_line remaining
last_file_line none h = refl
last_file_line (some []) h = refl
last_file_line (some (c ∷ s)) h = absurd (omega arith)

with_file_line-Reads :
    (line : Option (Bytes × Stream)) (n : ℕ) (w : World) (next : Stream → World → Option World)
    → Leaves line n
    → IsValid w
    → ((s : Stream) (v : World) → remaining s ≤ n → IsValid v → Reads (next s v))
    → Reads (with_file_line line w next)
unfolding Leaves Reads
with_file_line-Reads none n w next l v go = (w, refl, v)
with_file_line-Reads (some (buffer, rest)) n w next l v go =
    let (done, u, parsed, valid) = parse-IsValid (c_str buffer) w v in rw parsed (go rest u l valid)

read_lines-Reads :
    (fuel : ℕ) (s : Stream) (w : World)
    → remaining s < fuel
    → IsValid w
    → Reads (read_lines fuel s w)
unfolding read_lines
read_lines-Reads zero s w h v = absurd (omega arith)
read_lines-Reads (suc zero) s w h v =
    subst (λ l. Reads (with_file_line l w (read_lines 0))) (sym (last_file_line s (omega arith)))
      (unfold Reads in (w, refl, v))
read_lines-Reads (suc (suc n)) s w h v =
    with_file_line-Reads (get_file_line s) n w (read_lines (suc n))
      (get_file_line-Leaves s n (omega arith)) v
      (λ t u le k. read_lines-Reads (suc n) t u (omega arith) k)

-- A call that returns leaves a valid configuration.
abbrev pub Returns : (World → Type 0) → Outcome → Type 0
Returns P (finished w) = P w
Returns P (thrown e) = Unit

read_config-Returns :
    (content : Option Bytes) (w : World)
    → IsValid w
    → (o : Outcome) × (read_config content w ≡ some o) × Returns IsValid o
unfolding read_config Reads
read_config-Returns none w v = (thrown file_io_exception, refl, tt)
read_config-Returns (some text) w v =
    let (u, found, valid) =
      read_lines-Reads (suc (length text)) (some text) w (unfold remaining in omega arith) v in
    (finished u, ap finish_reading found, valid)

set_conffile-Returns :
    (name : Bytes) (o : Outcome) → Returns IsValid o → Returns IsValid (set_conffile name o)
set_conffile-Returns name (thrown e) r = tt
set_conffile-Returns name (finished w) r = keeps_IsValid w r _ r.ranges refl

set_parameter-Returns :
    (files : Bytes → Option Bytes) (p : Parameter) (w : World)
    → IsValid w
    → (o : Outcome) × (set_parameter files p w ≡ some o) × Returns IsValid o
unfolding set_parameter command_code
set_parameter-Returns files (conffile_option value) w v =
    let (o, found, r) = read_config-Returns (files value) w v in
    (set_conffile value o, rw found refl, set_conffile-Returns value o r)
set_parameter-Returns files (command_port_option value) w v =
    (_, refl, keeps_IsValid w v _ (ground (arith, v.ranges)) refl)
set_parameter-Returns files (ppid_option value) w v = (_, refl, keeps_IsValid w v _ v.ranges refl)
set_parameter-Returns files single_option w v = (_, refl, keeps_IsValid w v _ v.ranges refl)
set_parameter-Returns files help_option w v =
    (_, refl, keeps_IsValid (queue cmd_help w) (queue-IsValid w v cmd_help refl) _ v.ranges refl)
set_parameter-Returns files version_option w v = (
  _,
  refl,
  keeps_IsValid (queue cmd_shutdown w) (queue-IsValid w v cmd_shutdown refl) _ v.ranges refl,
)
set_parameter-Returns files kill_option w v = (
  _,
  refl,
  keeps_IsValid (queue cmd_shutdown w) (queue-IsValid w v cmd_shutdown refl) _ v.ranges refl,
)
set_parameter-Returns files verbose_option w v = (
  _,
  refl,
  keeps_IsValid (increase_log_level w) (increase_log_level-IsValid w v) _
      (increase_log_level-IsValid w v).ranges refl,
)
set_parameter-Returns files question_mark w v = (_, refl, tt)
set_parameter-Returns files other_option w v = (_, refl, v)

-- What the check of the command line asks for.
abbrev pub IsStarted : (mkpath : Bytes → Bool) → World → Type 0
IsStarted mkpath w =
    (w.config.help ≡ true)
    ⊎ ((w.config.version ≡ true)
        ⊎ ((w.config.observatory_command_port ≢ 0)
            × (mkpath w.config.logdir ≡ true)
            × (mkpath w.config.piddir ≡ true)
            × (mkpath w.config.datadir ≡ true)))

verify-Returns :
    (mkpath : Bytes → Bool) (w : World)
    → IsValid w
    → Returns (λ v. IsValid v × IsStarted mkpath v) (verify_command_line_parameters mkpath w)
unfolding verify_command_line_parameters
verify-Returns mkpath w v = elim (Bool-cases (w.config.help || w.config.version)) [
  | inl e ↦ rw e (v, ground arith)
  | inr e ↦ elim (Bool-cases (w.config.observatory_command_port == 0)) [
    | inl z ↦ rw (e, z) tt
    | inr n ↦
        elim (Bool-cases
          (mkpath w.config.logdir && mkpath w.config.piddir && mkpath w.config.datadir)) [
            | inl d ↦ rw (e, n, d) (v, ground arith)
            | inr d ↦ rw (e, n, d) tt
          ]
  ]
]

abbrev Starts : (mkpath : Bytes → Bool) → Option Outcome → Type 0
Starts mkpath m = (o : Outcome) × (m ≡ some o) × Returns (λ v. IsValid v × IsStarted mkpath v) o

next_option-Starts :
    (mkpath : Bytes → Bool) (o : Outcome) (m : Option Outcome) (next : World → Option Outcome)
    → m ≡ some o
    → Returns IsValid o
    → ((u : World) → IsValid u → Starts mkpath (next u))
    → Starts mkpath (next_option m next)
next_option-Starts mkpath (thrown e) m next found r go =
    (thrown e, ap (λ x. next_option x next) found, tt)
next_option-Starts mkpath (finished u) m next found r go =
    let (o, next_found, started) = go u r in
    (o, ap (λ x. next_option x next) found ∙ next_found, started)

-- From a valid configuration, the options of a command line are processed to an end, whatever
-- they and the configuration files hold. Where nothing is thrown, the configuration is valid,
-- and the agent was asked for its help or its version, or it has a command port and its
-- directories can be made.
pub read_options-Returns :
    (files : Bytes → Option Bytes) (mkpath : Bytes → Bool) (l : List Parameter) (w : World)
    → IsValid w
    → (o : Outcome) × (read_options files mkpath l w ≡ some o)
      × Returns (λ v. IsValid v × IsStarted mkpath v) o
unfolding read_options
read_options-Returns files mkpath [] w v =
    (verify_command_line_parameters mkpath w, refl, verify-Returns mkpath w v)
read_options-Returns files mkpath (p ∷ l) w v =
    let (o, found, r) = set_parameter-Returns files p w v in
    next_option-Starts mkpath o (set_parameter files p w) (read_options files mkpath l) found r
      (λ u valid. read_options-Returns files mkpath l u valid)
