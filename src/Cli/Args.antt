-- ===== src/Cli/Args.antt =====
-- src/cli/args.ts, `parseCliArgs` but for its `skills` command, and `extractFlowArgs` of
-- src/flow/args.ts. A thrown error is an `err`.
pub mod Separator
use orca_ts.Model.{pi, opencode, codex, claude, BackendTag}
use orca_ts.Base.{
  ◌||◌, or_default, ◌++◌, length, text, ◌>>=◌, if◌then◌else◌, drop, starts_with, get_elem?, ◌∷◌,
  Result, Text, Bool, List, Option, same, none, some, [], true, false, ok, err,
}

pub data CliCommand : Type 0 where
  run serve loops check skills : CliCommand

pub record SkillsArgs : Type 0 where
  pub list : Bool
  pub all : Bool
  pub skill : Option Text
  pub agent : Option Text
  pub global : Bool
  pub yes : Bool

pub record CliArgs : Type 0 where
  pub command : Option CliCommand
  pub loop : Option Text
  pub script : Option Text
  pub artifact : Option Text
  pub backend : Option BackendTag
  pub skip_typecheck : Bool
  pub help : Bool
  pub version : Bool
  pub durable : Bool
  pub postgres_url : Option Text
  pub state_adapter : Option Text
  pub skills_args : Option SkillsArgs
  pub flow_args : List Text

-- An error of the schema of backend tags, or a `CliUsageError` with its message.
pub data CliError : Type 0 where
  invalid_backend : (given : Option Text) → CliError
  usage_error : (message : Text) → CliError

-- `extractFlowArgs`.
unfoldable pub extract_flow_args : List Text → List Text
extract_flow_args [] = []
extract_flow_args (arg ∷ argv) =
    let rest = extract_flow_args argv in if same arg (text "--") then argv else rest

-- `BackendTagSchema.parse`.
unfoldable pub parse_backend_tag : Option Text → Result BackendTag CliError
unfolding same
parse_backend_tag none = err (invalid_backend none)
parse_backend_tag (some t) =
    if same t (text "claude")
    then ok claude
    else if same t (text "codex")
    then ok codex
    else if same t (text "opencode")
    then ok opencode
    else if same t (text "pi")
    then ok pi
    else err (invalid_backend (some t))

-- The options that take a value.
pub data ValueOption : Type 0 where
  backend_option postgres_option state_option : ValueOption

-- What one argument is, in the order of the tests of the loop.
pub data Argument : Type 0 where
  separator no_typecheck help_flag version_flag durable_flag : Argument
  takes_next : ValueOption → Argument
  takes_inline : ValueOption → Text → Argument
  positional unknown_flag : Argument

-- `arg.slice("--name=".length)`, where the argument starts so.
abbrev pub inline_value : Text → Text → Text
inline_value prefix arg = drop (length prefix) arg

unfoldable pub classify : Text → Argument
unfolding same starts_with
classify arg =
    if same arg (text "--")
    then separator
    else if same arg (text "--no-typecheck")
    then no_typecheck
    else if same arg (text "--help") || same arg (text "-h")
    then help_flag
    else if same arg (text "--version") || same arg (text "-v")
    then version_flag
    else if same arg (text "--durable")
    then durable_flag
    else if same arg (text "--backend")
    then takes_next backend_option
    else if starts_with arg (text "--backend=")
    then takes_inline backend_option (inline_value (text "--backend=") arg)
    else if same arg (text "--postgres-url")
    then takes_next postgres_option
    else if starts_with arg (text "--postgres-url=")
    then takes_inline postgres_option (inline_value (text "--postgres-url=") arg)
    else if same arg (text "--state")
    then takes_next state_option
    else if starts_with arg (text "--state=")
    then takes_inline state_option (inline_value (text "--state=") arg)
    else if starts_with arg (text "-")
    then unknown_flag
    else positional

-- The variables of the loop.
pub record Scan : Type 0 where
  pub backend : Option BackendTag
  pub skip_typecheck : Bool
  pub help : Bool
  pub version : Bool
  pub durable : Bool
  pub postgres_url : Option Text
  pub state_adapter : Option Text
  pub positionals : List Text

abbrev pub no_scan : Scan
no_scan = record {
  backend = none;
  skip_typecheck = false;
  help = false;
  version = false;
  durable = false;
  postgres_url = none;
  state_adapter = none;
  positionals = [];
}

-- The value of an option, which is missing at the end of the arguments.
unfoldable pub store : ValueOption → Option Text → Scan → Result Scan CliError
unfolding parse_backend_tag
store backend_option given s =
    parse_backend_tag given >>= λ tag. ok (record s { backend = some tag })
store postgres_option given s = ok (record s { postgres_url = some (or_default given []) })
store state_option given s = ok (record s { state_adapter = given })

-- Where the loop goes after an argument: to its end, or on, perhaps with an option that waits for the
-- next argument.
pub data Next : Type 0 where
  stop : Next
  go_on : Option ValueOption → Next

-- An argument that no option waits for.
unfoldable pub step : Argument → Text → Scan → Result (Scan × Next) CliError
unfolding store
step separator arg s = ok (s, stop)
step no_typecheck arg s = ok (record s { skip_typecheck = true }, go_on none)
step help_flag arg s = ok (record s { help = true }, go_on none)
step version_flag arg s = ok (record s { version = true }, go_on none)
step durable_flag arg s = ok (record s { durable = true }, go_on none)
step (takes_next option) arg s = ok (s, go_on (some option))
step (takes_inline option value) arg s = store option (some value) s >>= λ t. ok (t, go_on none)
step positional arg s = ok (record s { positionals = s.positionals ++ arg ∷ [] }, go_on none)
step unknown_flag arg s = ok (s, go_on none)

unfoldable pub proceed :
    (Option ValueOption → Scan → Result Scan CliError)
    → Result (Scan × Next) CliError
    → Result Scan CliError
proceed more (err e) = err e
proceed more (ok (s, stop)) = ok s
proceed more (ok (s, go_on waiting)) = more waiting s

-- The loop. An option that takes the next argument is carried to it.
unfoldable pub scan : List Text → Option ValueOption → Scan → Result Scan CliError
unfolding classify store step proceed
scan [] none s = ok s
scan [] (some option) s = store option none s
scan (arg ∷ argv) (some option) s = store option (some arg) s >>= scan argv none
scan (arg ∷ argv) none s = proceed (scan argv) (step (classify arg) arg s)

-- `COMMANDS.has`.
unfoldable pub command_named : Option Text → Option CliCommand
unfolding same
command_named none = none
command_named (some first) =
    if same first (text "run")
    then some run
    else if same first (text "serve")
    then some serve
    else if same first (text "loops")
    then some loops
    else if same first (text "check")
    then some check
    else none

-- What the second positional is, by the command.
abbrev pub loop_of : Option CliCommand → Option Text → Option Text
loop_of (some run) second = second
loop_of (some serve) second = second
loop_of _ second = none

abbrev pub artifact_of : Option CliCommand → Option Text → Option Text
artifact_of (some check) second = second
artifact_of _ second = none

abbrev pub script_of : Option CliCommand → Option Text → Option Text
script_of none first = first
script_of (some command) first = none

unfoldable pub assemble_args : List Text → Scan → CliArgs
unfolding command_named
assemble_args flow s =
    let first = get_elem? s.positionals 0 in
    let second = get_elem? s.positionals 1 in
    let command = command_named first in
    record {
      command = command;
      loop = loop_of command second;
      script = script_of command first;
      artifact = artifact_of command second;
      backend = s.backend;
      skip_typecheck = s.skip_typecheck;
      help = s.help;
      version = s.version;
      durable = s.durable;
      postgres_url = s.postgres_url;
      state_adapter = s.state_adapter;
      skills_args = none;
      flow_args = flow;
    }

-- `parseCliArgs` past its test for `skills`.
unfoldable pub parse_plain_args : List Text → Result CliArgs CliError
unfolding scan assemble_args extract_flow_args
parse_plain_args argv =
    scan argv none no_scan >>= λ s. ok (assemble_args (extract_flow_args argv) s)

-- `firstPositional`: the options with a value skip it.
unfoldable pub first_positional : List Text → Option ValueOption → Option Text
unfolding classify
first_positional [] waiting = none
first_positional (arg ∷ argv) (some waiting) = first_positional argv none
first_positional (arg ∷ argv) none = elim (classify arg) [
  | separator ↦ none
  | takes_next option ↦ first_positional argv (some option)
  | positional ↦ some arg
  | _ ↦ first_positional argv none
]
