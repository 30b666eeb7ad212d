-- ===== src/Cli/Skills.antt =====
-- src/cli/args.ts, `parseSkillsArgs`, and `parseCliArgs` as a whole.
pub mod Spelling
pub mod Accepted
use orca_ts.Cli.Args.{
  skills, usage_error, CliArgs, parse_plain_args, CliError, first_positional, SkillsArgs,
}
use orca_ts.Base.{
  ◌||◌, not, is_none, ◌>>=◌, ◌∷◌, ◌++◌, length, ◌&&◌, ltb, if◌then◌else◌, text, Result, List, Text,
  Bool, starts_with, same, Option, none, some, [], true, false, ok, err,
}

pub data SkillsOption : Type 0 where
  skill_option agent_option : SkillsOption

abbrev pub option_name : SkillsOption → Text
option_name skill_option = text "--skill"
option_name agent_option = text "--agent"

-- What one argument is, in the order of the tests of the loop.
pub data SkillsArgument : Type 0 where
  command_word help_flag version_flag list_flag all_flag global_flag yes_flag : SkillsArgument
  takes_value : SkillsOption → SkillsArgument
  separator bad_option unexpected : SkillsArgument

-- The variables of the loop.
pub record SkillsScan : Type 0 where
  pub help : Bool
  pub version : Bool
  pub list : Bool
  pub all : Bool
  pub skill : Option Text
  pub agent : Option Text
  pub global : Bool
  pub yes : Bool
  pub saw_command : Bool

abbrev pub no_skills_scan : SkillsScan
no_skills_scan = record {
  help = false;
  version = false;
  list = false;
  all = false;
  skill = none;
  agent = none;
  global = false;
  yes = false;
  saw_command = false;
}

unfoldable pub classify_skills : Text → Bool → SkillsArgument
unfolding same starts_with
classify_skills arg saw_command =
    if same arg (text "skills") && not saw_command
    then command_word
    else if same arg (text "--help") || same arg (text "-h")
    then help_flag
    else if same arg (text "--version") || same arg (text "-v")
    then version_flag
    else if same arg (text "--list")
    then list_flag
    else if same arg (text "--all")
    then all_flag
    else if same arg (text "--global")
    then global_flag
    else if same arg (text "--yes")
    then yes_flag
    else if same arg (text "--skill")
    then takes_value skill_option
    else if same arg (text "--agent")
    then takes_value agent_option
    else if same arg (text "--")
    then separator
    else if starts_with arg (text "-")
    then bad_option
    else unexpected

abbrev pub complain : {A : Type 0} → Text → Result A CliError
complain message = err (usage_error (text "orcats skills: " ++ message))

abbrev pub put_once : SkillsOption → Text → SkillsScan → Result SkillsScan CliError
put_once skill_option value s =
    if is_none s.skill
    then ok (record s { skill = some value })
    else complain (text "--skill may be provided once")
put_once agent_option value s =
    if is_none s.agent
    then ok (record s { agent = some value })
    else complain (text "--agent may be provided once")

-- Whether a text may be the value of an option.
unfoldable pub is_value : Text → Bool
unfolding starts_with
is_value value = ltb 0 (length value) && not (starts_with value (text "-"))

-- An option with the argument after it, if there is one.
unfoldable pub put_value : SkillsOption → Option Text → SkillsScan → Result SkillsScan CliError
unfolding is_value
put_value option none s = complain (option_name option ++ text " requires a value")
put_value option (some value) s =
    if is_value value
    then put_once option value s
    else complain (option_name option ++ text " requires a value")

pub data SkillsNext : Type 0 where
  go_on : Option SkillsOption → SkillsScan → SkillsNext
  give_up : CliError → SkillsNext

unfoldable pub skills_step : SkillsArgument → Text → SkillsScan → SkillsNext
skills_step command_word arg s = go_on none (record s { saw_command = true })
skills_step help_flag arg s = go_on none (record s { help = true })
skills_step version_flag arg s = go_on none (record s { version = true })
skills_step list_flag arg s = go_on none (record s { list = true })
skills_step all_flag arg s = go_on none (record s { all = true })
skills_step global_flag arg s = go_on none (record s { global = true })
skills_step yes_flag arg s = go_on none (record s { yes = true })
skills_step (takes_value option) arg s = go_on (some option) s
skills_step separator arg s =
    give_up (usage_error (text "orcats skills: task arguments are not supported"))
skills_step bad_option arg s =
    give_up (usage_error (text "orcats skills: unsupported option " ++ arg))
skills_step unexpected arg s =
    give_up (usage_error (text "orcats skills: unexpected argument " ++ arg))

unfoldable pub skills_proceed :
    (Option SkillsOption → SkillsScan → Result SkillsScan CliError)
    → SkillsNext
    → Result SkillsScan CliError
skills_proceed more (go_on waiting s) = more waiting s
skills_proceed more (give_up e) = err e

unfoldable pub skills_scan :
    List Text → Option SkillsOption → SkillsScan → Result SkillsScan CliError
unfolding classify_skills put_value skills_step skills_proceed
skills_scan [] none s = ok s
skills_scan [] (some option) s = put_value option none s
skills_scan (arg ∷ argv) (some option) s = put_value option (some arg) s >>= skills_scan argv none
skills_scan (arg ∷ argv) none s =
    skills_proceed (skills_scan argv) (skills_step (classify_skills arg s.saw_command) arg s)

abbrev pub skills_of : SkillsScan → SkillsArgs
skills_of s = record {
  list = s.list;
  all = s.all;
  skill = s.skill;
  agent = s.agent;
  global = s.global;
  yes = s.yes;
}

abbrev pub skills_result : Bool → Bool → SkillsArgs → CliArgs
skills_result help version a = record {
  command = some skills;
  loop = none;
  script = none;
  artifact = none;
  backend = none;
  skip_typecheck = false;
  help = help;
  version = version;
  durable = false;
  postgres_url = none;
  state_adapter = none;
  skills_args = some a;
  flow_args = [];
}

unfoldable pub finish_skills : SkillsScan → Result CliArgs CliError
finish_skills s =
    if s.all && not (is_none s.skill)
    then complain (text "--all cannot be combined with --skill")
    else ok (skills_result s.help s.version (skills_of s))

unfoldable pub parse_skills_args : List Text → Result CliArgs CliError
unfolding skills_scan finish_skills
parse_skills_args argv = skills_scan argv none no_skills_scan >>= finish_skills

-- Whether the first positional is the word `skills`.
abbrev pub is_skills : Option Text → Bool
is_skills none = false
is_skills (some first) = same first (text "skills")

unfoldable pub parse_cli_args : List Text → Result CliArgs CliError
unfolding first_positional parse_skills_args parse_plain_args same
parse_cli_args argv =
    if is_skills (first_positional argv none) then parse_skills_args argv else parse_plain_args argv
