-- ===== src/Loop/Firing/Status.antt =====
-- What the exit status of a firing tells.
-- How a run ended, which is what a supervisor can know of it.
use orca_ts.Model.{RuntimeError}
use orca_ts.Loop.Execution.Step.{
  cancelled, budget_exhausted, ceiling, timeout, stuck, unfixable, converged, LoopExecutionStop,
}
use orca_ts.Loop.Firing.{exit_code_for_run, run_loop_firing, stop_exit_codes, LoopRun}
use orca_ts.Base.{◌==◌, if◌then◌else◌, ◌≡◌, Text, Option, ℕ, none, some, refl, ok, err}

unfoldable pub ending : {State : Type 0} → LoopRun State → Option LoopExecutionStop
ending (ok outcome) = some outcome.stop_reason
ending (err e) = none

-- The ending that a status stands for.
unfoldable pub ending_of : ℕ → Option LoopExecutionStop
ending_of code =
    if code == 0
    then some converged
    else if code == 1
    then some unfixable
    else if code == 2
    then some stuck
    else if code == 3
    then some timeout
    else if code == 4
    then some ceiling
    else if code == 5
    then some budget_exhausted
    else if code == 6
    then some cancelled
    else none

ending_of-stop_exit_codes :
    (stop : LoopExecutionStop) → ending_of (stop_exit_codes stop) ≡ some stop
unfolding ending_of stop_exit_codes
ending_of-stop_exit_codes converged = refl
ending_of-stop_exit_codes unfixable = refl
ending_of-stop_exit_codes stuck = refl
ending_of-stop_exit_codes timeout = refl
ending_of-stop_exit_codes ceiling = refl
ending_of-stop_exit_codes budget_exhausted = refl
ending_of-stop_exit_codes cancelled = refl

-- The exit status of a firing determines how its run ended: each stop reason, and an error, has a status of
-- its own.
pub ending_of-run_loop_firing :
    {State Event W : Type 0} (stringify : RuntimeError → Text) (name : Text)
    (run : Event → W → W × LoopRun State) (event : Event) (w : W)
    → let firing = (run_loop_firing stringify name run event w).1 in
      ending_of firing.exit_code ≡ ending firing.result
unfolding run_loop_firing ending ending_of
ending_of-run_loop_firing stringify name run event w = go (run event w).1
  where
    go : {State : Type 0} (r : LoopRun State) → ending_of (exit_code_for_run r) ≡ ending r
    go (ok outcome) = ending_of-stop_exit_codes outcome.stop_reason
    go (err e) = refl
