-- ===== src/Loop/Firing.antt =====
-- src/loop/firing.ts: one firing of a loop in a process of its own. JSON is read and written by
-- arguments; an environment is a function from names to values. The spawning itself is left out.
pub mod Child
pub mod Status
use orca_ts.Cli.Args.{extract_flow_args}
use orca_ts.Loop.Graph.Contract.{TerminationContractError}
use orca_ts.Model.{
  unsupported_feature, io_failed, file_system_error, str, Value, backend_failed, RuntimeError,
}
use orca_ts.Loop.Execution.Step.{
  cancelled, budget_exhausted, ceiling, timeout, stuck, unfixable, converged, LoopExecutionStop,
}
use orca_ts.Base.{
  ◌||◌, ◌++◌, if◌then◌else◌, get_elem?, starts_with, ◌∷◌, text, List, decimal, same, Text, Option,
  ℕ, Result, none, some, [], ok, err,
}

pub record LoopOutcome (State : Type 0) : Type 0 where
  pub state : State
  pub stop_reason : LoopExecutionStop
  pub iterations : ℕ

pub data LoopRunError : Type 0 where
  contract_broken : TerminationContractError → LoopRunError
  run_failed : RuntimeError → LoopRunError

abbrev pub LoopRun : Type 0 → Type 0
LoopRun State = Result (LoopOutcome State) LoopRunError

abbrev pub loop_event_env : Text
loop_event_env = text "ORCA_LOOP_EVENT"

abbrev pub Env : Type 0
Env = Text → Option Text

unfoldable pub stop_exit_codes : LoopExecutionStop → ℕ
stop_exit_codes converged = 0
stop_exit_codes unfixable = 1
stop_exit_codes stuck = 2
stop_exit_codes timeout = 3
stop_exit_codes ceiling = 4
stop_exit_codes budget_exhausted = 5
stop_exit_codes cancelled = 6

abbrev pub stop_name : LoopExecutionStop → Text
stop_name converged = text "converged"
stop_name unfixable = text "unfixable"
stop_name stuck = text "stuck"
stop_name timeout = text "timeout"
stop_name ceiling = text "ceiling"
stop_name budget_exhausted = text "budget-exhausted"
stop_name cancelled = text "cancelled"

pub record ChildSpec (Event : Type 0) : Type 0 where
  pub loop : Text
  pub event : Event

pub record ChildProcessSpec : Type 0 where
  pub command : Text
  pub args : List Text
  pub env : Env

abbrev pub create_loop_child_spec : {Event : Type 0} → Text → Event → ChildSpec Event
create_loop_child_spec loop event = record { loop = loop; event = event }

-- `JSON.parse` answers nothing where it throws.
unfoldable pub decode_loop_event : (Text → Option Value) → Env → Option Value
decode_loop_event parse_json env = elim (env loop_event_env) [
  | none ↦ none
  | some raw ↦ elim (parse_json raw) [ some parsed ↦ some parsed | none ↦ some (str raw) ]
]

unfoldable pub child_entrypoint : List Text → Option Text
unfolding same starts_with
child_entrypoint argv = elim (get_elem? argv 1) [
  | none ↦ none
  | some entry ↦
      if starts_with entry (text "-")
        || same entry (text "run")
        || same entry (text "serve")
        || same entry (text "loops")
      then none
      else some entry
]

abbrev pub and_tasks : List Text → List Text → List Text
and_tasks args [] = args
and_tasks args (task ∷ tasks) = args ++ text "--" ∷ task ∷ tasks

abbrev pub from_entry : Option Text → List Text → List Text
from_entry none args = args
from_entry (some entry) args = entry ∷ args

unfoldable pub build_child_process_spec :
    {Event : Type 0}
    → (Event → Option Text)
    → ChildSpec Event
    → List Text
    → Env
    → Text
    → ChildProcessSpec
unfolding child_entrypoint same extract_flow_args
build_child_process_spec stringify spec argv env exec_path = record {
  command = exec_path;
  args =
      and_tasks
        (from_entry (child_entrypoint argv) (text "run" ∷ text "--no-typecheck" ∷ spec.loop ∷ []))
        (extract_flow_args argv);
  env = λ name. if same name loop_event_env then stringify spec.event else env name;
}

unfoldable pub exit_code_for_run : {State : Type 0} → LoopRun State → ℕ
unfolding stop_exit_codes
exit_code_for_run (ok outcome) = stop_exit_codes outcome.stop_reason
exit_code_for_run (err e) = 70

-- The message or the reason of an error, or the whole of it as JSON.
unfoldable pub describe_loop_run_error : (RuntimeError → Text) → LoopRunError → Text
describe_loop_run_error stringify (contract_broken e) = e.message
describe_loop_run_error stringify (run_failed (backend_failed backend message context)) = message
describe_loop_run_error stringify (run_failed (file_system_error path message)) = message
describe_loop_run_error stringify (run_failed (io_failed seam kind message)) = message
describe_loop_run_error stringify (run_failed (unsupported_feature feature reason)) = reason
describe_loop_run_error stringify (run_failed e) = stringify e

unfoldable pub format_loop_firing_diagnostic :
    {State : Type 0} → (RuntimeError → Text) → Text → LoopRun State → Text
unfolding decimal describe_loop_run_error
format_loop_firing_diagnostic stringify name (ok outcome) =
    text "orcats: loop \""
    ++ name
    ++ text "\" stopped ("
    ++ stop_name outcome.stop_reason
    ++ text ") after "
    ++ decimal outcome.iterations
    ++ text " iteration(s)\n"
format_loop_firing_diagnostic stringify name (err e) =
    text "orcats: loop \""
    ++ name
    ++ text "\" failed: "
    ++ describe_loop_run_error stringify e
    ++ text "\n"

-- What a firing tells the reporter.
pub data FiringEvent : Type 0 where
  run_started : (label : Text) → FiringEvent
  run_succeeded : (label : Text) (stop_reason : LoopExecutionStop) (iterations : ℕ) → FiringEvent
  run_went_wrong : (label error : Text) → FiringEvent

pub record LoopFiringResult (State : Type 0) : Type 0 where
  pub result : LoopRun State
  pub exit_code : ℕ
  pub diagnostic : Text
  pub events : List FiringEvent

unfoldable pub finished :
    {State : Type 0} → (RuntimeError → Text) → Text → LoopRun State → FiringEvent
unfolding describe_loop_run_error
finished stringify name (ok outcome) = run_succeeded name outcome.stop_reason outcome.iterations
finished stringify name (err e) = run_went_wrong name (describe_loop_run_error stringify e)

-- A firing, over the `run` of the definition; without the events of what runs inside.
unfoldable pub run_loop_firing :
    {State Event W : Type 0}
    → (RuntimeError → Text)
    → Text
    → (Event → W → W × LoopRun State)
    → Event
    → W
    → W × LoopFiringResult State
unfolding format_loop_firing_diagnostic finished exit_code_for_run
run_loop_firing stringify name run event w =
    let (w', result) = run event w in
    (
      w',
      record {
        result = result;
        exit_code = exit_code_for_run result;
        diagnostic = format_loop_firing_diagnostic stringify name result;
        events = run_started name ∷ finished stringify name result ∷ [];
      },
    )
