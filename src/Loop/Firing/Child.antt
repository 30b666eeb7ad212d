-- ===== src/Loop/Firing/Child.antt =====
-- What a child process reads of what its supervisor gives it.
-- The arguments that come after the entry of the program.
use orca_ts.Model.{Value}
use orca_ts.Cli.Args.Separator.{waits_after, parse_plain_args-separator, waits}
use orca_ts.Cli.Args.{CliError, no_scan, step}
use orca_ts.Loop.Firing.{
  child_entrypoint, Env, ChildSpec, decode_loop_event, build_child_process_spec, from_entry,
  and_tasks,
}
use orca_ts.Cli.Args.{
  positional, command_named, assemble_args, first_positional, extract_flow_args, classify, proceed,
  run, scan, CliArgs, parse_plain_args,
}
use orca_ts.Cli.Skills.{parse_cli_args}
use orca_ts.Base.{
  Result, if_elim, ◌∙◌, sym, ◌>>=◌, same_iff, ap, Bool-cases, inl, inr, same, ◌≡◌, ◌∷◌, text, drop,
  List, Text, Option, none, some, [], true, false, refl, ok,
}

abbrev pub past_entry : Option Text → List Text → List Text
past_entry none args = args
past_entry (some entry) args = drop 1 args

abbrev child_args : Text → List Text → List Text
child_args loop tasks = and_tasks (text "run" ∷ text "--no-typecheck" ∷ loop ∷ []) tasks

past_entry-and_tasks :
    (entry : Option Text) (args tasks : List Text)
    → past_entry entry (and_tasks (from_entry entry args) tasks) ≡ and_tasks args tasks
past_entry-and_tasks none args tasks = refl
past_entry-and_tasks (some entry) args [] = refl
past_entry-and_tasks (some entry) args (t ∷ ts) = refl

abbrev pub run_of : Text → List Text → CliArgs
run_of loop tasks = record {
  command = some run;
  loop = some loop;
  script = none;
  artifact = none;
  backend = none;
  skip_typecheck = true;
  help = false;
  version = false;
  durable = false;
  postgres_url = none;
  state_adapter = none;
  skills_args = none;
  flow_args = tasks;
}

not_separator : (loop : Text) → classify loop ≡ positional → same loop (text "--") ≡ false
unfolding classify same
not_separator loop h = elim (Bool-cases (same loop (text "--"))) [
  | inr other ↦ other
  | inl yes_it_is ↦
      let e = (same_iff loop (text "--")).0 yes_it_is in
      let clash : classify (text "--") ≡ positional = ap classify (sym e) ∙ h in absurd (cc)
]

abbrev command_line : Text → List Text
command_line loop = text "run" ∷ text "--no-typecheck" ∷ loop ∷ []

parse_plain_args-command_line :
    (loop : Text)
    → classify loop ≡ positional
    → parse_plain_args (command_line loop) ≡ ok (run_of loop [])
unfolding parse_plain_args scan step proceed classify extract_flow_args same assemble_args
    command_named
parse_plain_args-command_line loop h =
    ap
      (λ c.
        proceed (scan [])
          (step c loop (record no_scan { skip_typecheck = true; positionals = text "run" ∷ [] }))
        >>= λ s. ok (assemble_args (extract_flow_args (command_line loop)) s))
      h
    ∙ ap (λ flow. ok (run_of loop flow))
        (if_elim (λ (flow : List Text). flow ≡ []) (same loop (text "--")) (λ _. refl) (λ _. refl))

abbrev with_tasks : List Text → CliArgs → Result CliArgs CliError
with_tasks tasks a = ok (record a { flow_args = tasks })

parse_plain_args-child_args :
    (loop : Text) (tasks : List Text)
    → classify loop ≡ positional
    → parse_plain_args (child_args loop tasks) ≡ ok (run_of loop tasks)
unfolding same waits classify
parse_plain_args-child_args loop [] h = parse_plain_args-command_line loop h
parse_plain_args-child_args loop (t ∷ ts) h =
    parse_plain_args-separator (command_line loop) (t ∷ ts)
      (refl, (refl, (not_separator loop h, tt))) (ap (λ c. waits_after c (waits [])) h)
    ∙ ap (λ (r : Result CliArgs CliError). r >>= λ (a : CliArgs). with_tasks (t ∷ ts) a)
        (parse_plain_args-command_line loop h)

parse_cli_args-child_args :
    (loop : Text) (tasks : List Text)
    → classify loop ≡ positional
    → parse_cli_args (child_args loop tasks) ≡ ok (run_of loop tasks)
unfolding parse_cli_args classify first_positional same
parse_cli_args-child_args loop [] h = parse_plain_args-child_args loop [] h
parse_cli_args-child_args loop (t ∷ ts) h = parse_plain_args-child_args loop (t ∷ ts) h

-- A child process whose loop is named by a positional reads back what its supervisor means: past the
-- entry of the program, its arguments are the command `run` of the loop without a typecheck, with the
-- supervisor's own task arguments; and if JSON reads back what it wrote, its event is the one that was fired.
pub parse_cli_args-build_child_process_spec :
    (stringify : Value → Option Text) (parse_json : Text → Option Value) (spec : ChildSpec Value)
    (argv : List Text) (env : Env) (exec_path raw : Text)
    → classify spec.loop ≡ positional
    → stringify spec.event ≡ some raw
    → parse_json raw ≡ some spec.event
    → let child = build_child_process_spec stringify spec argv env exec_path in
      (parse_cli_args (past_entry (child_entrypoint argv) child.args)
        ≡ ok (run_of spec.loop (extract_flow_args argv)))
      × (decode_loop_event parse_json child.env ≡ some spec.event)
unfolding build_child_process_spec decode_loop_event same
parse_cli_args-build_child_process_spec stringify parse_json spec argv env exec_path raw h written
      read =
    (
      ap parse_cli_args (
            past_entry-and_tasks (child_entrypoint argv) (command_line spec.loop)
              (extract_flow_args argv))
          ∙ parse_cli_args-child_args spec.loop (extract_flow_args argv) h,
      rw (written) (rw (read) refl),
    )
