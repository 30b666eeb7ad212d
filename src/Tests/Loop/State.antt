-- ===== src/Tests/Loop/State.antt =====
-- Runs of the manifest of src/loop/state and of the firings of src/loop/firing.ts.
use orca_ts.Loop.State.Manifest.{progress}
use orca_ts.Loop.State.Manifest.Counting.{progress-IsCounted}
use orca_ts.Loop.Firing.Child.{parse_cli_args-build_child_process_spec, run_of, past_entry}
use orca_ts.Cli.Skills.{parse_cli_args}
use orca_ts.Loop.Execution.Step.{stuck}
use orca_ts.Loop.Firing.Status.{ending_of-run_loop_firing, ending, ending_of}
use orca_ts.Cli.Args.{extract_flow_args, classify}
use orca_ts.Loop.State.Manifest.{is_complete, TaskManifest}
use orca_ts.Model.{bool, Value}
use orca_ts.Loop.Firing.{
  decode_loop_event, child_entrypoint, build_child_process_spec, LoopRun, create_loop_child_spec,
  run_loop_firing, ChildSpec,
}
use orca_ts.Base.{
  All, ◌↔◌, ◌<◌, ◌≤◌, not, filter, ◌+◌, ◌∷◌, starts_with, if◌then◌else◌, length, ◌≡◌, Option, text,
  same, List, ℕ, Text, none, some, [], true, false, refl, ok,
}

abbrev half_done : TaskManifest
half_done = record {
  tasks = record { id = text "a"; passes = true } ∷ record { id = text "b"; passes = false } ∷ [];
}

progress-IsCounted_example :
    let p = progress half_done in
    (p.pending ≡ length (filter (λ t. not t.passes) half_done.tasks))
    × (p.passed ≡ length (filter (λ t. t.passes) half_done.tasks))
    × (p.ratio.over ≤ p.ratio.under)
    × (0 < p.ratio.under)
    × ((is_complete half_done ≡ true) ↔ All (λ t. t.passes ≡ true) half_done.tasks)
    × ((is_complete half_done ≡ true) ↔ (p.ratio.over ≡ p.ratio.under))
progress-IsCounted_example = progress-IsCounted half_done

-- A run that got stuck after as many iterations as its event says.
abbrev get_stuck : ℕ → ℕ → ℕ × LoopRun ℕ
get_stuck event w = (w + 1, ok (record { state = w; stop_reason = stuck; iterations = event }))

ending_of-run_loop_firing_example :
    let firing = (run_loop_firing (λ e. []) (text "fix") get_stuck 4 0).1 in
    ending_of firing.exit_code ≡ ending firing.result
ending_of-run_loop_firing_example = ending_of-run_loop_firing (λ e. []) (text "fix") get_stuck 4 0

abbrev supervisor : List Text
supervisor = text "bun" ∷ text "orcats.ts" ∷ text "serve" ∷ text "--" ∷ text "go" ∷ []

abbrev fired : ChildSpec Value
fired = create_loop_child_spec (text "fix.ts") (bool true)

abbrev write_bool : Value → Option Text
write_bool (bool true) = some (text "true")
write_bool _ = none

abbrev read_bool : Text → Option Value
read_bool raw = if same raw (text "true") then some (bool true) else none

parse_cli_args-build_child_process_spec_example :
    let child = build_child_process_spec write_bool fired supervisor (λ name. none) (text "bun") in
    (parse_cli_args (past_entry (child_entrypoint supervisor) child.args)
      ≡ ok (run_of (text "fix.ts") (extract_flow_args supervisor)))
    × (decode_loop_event read_bool child.env ≡ some (bool true))
unfolding classify same starts_with
parse_cli_args-build_child_process_spec_example =
    parse_cli_args-build_child_process_spec write_bool read_bool fired supervisor (λ name. none)
      (text "bun") (text "true") refl refl refl
