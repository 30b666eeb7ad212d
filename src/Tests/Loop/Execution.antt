-- ===== src/Tests/Loop/Execution.antt =====
-- A loop that counts down, run to its end.
use orca_ts.Loop.Termination.Budget.{
  exhausted, record_usage, new_counter, should_report, summary, record_all,
}
use orca_ts.Base.{
  ◌++◌, ℕ, ◌-◌, ◌≡◌, refl, true, false, Option, none, some, List, [], ◌∷◌, ok, arith, ◌==◌,
  if◌then◌else◌, text,
}
use orca_ts.Model.{null}
use orca_ts.Loop.Execution.Step.{
  converged, unfixable, LoopExecutionStepResult, no_step, normalize_step_result,
}
use orca_ts.Loop.Execution.Step.Encode.{step_value, normalize_step_result-step_value}
use orca_ts.Loop.Execution.Run.{
  round, fix_completed, fix_started, evaluate_completed, evaluate_started, LoopEvent, start_state,
  LoopExecutionOptions, LoopExecutionSummary, LoopState, execute_loop, execution_summary,
}
use orca_ts.Loop.Execution.Run.Outcome.{Answer, IsSound, execute_loop_total, execute_loop-IsSound}

-- The world is the number of open issues; each step closes one.
abbrev countdown : Option ℕ → LoopExecutionOptions ℕ (Unit {0}) ℕ
countdown limit = record {
  evaluate = λ w. (w, ok w);
  converged = λ n. n == 0;
  next_action = λ n. if n == 0 then none else some tt;
  execute = λ a n i w. (w - 1, ok null);
  max_iterations = limit;
  wall_clock_ms = none;
  token_budget = none;
  stalled = λ n a w. (w, false);
  fingerprint = none;
  fingerprint_action = λ a. text "close";
  now = λ w. (w, 0);
  context = none;
  on_cycle = λ p w. w;
}

execute_loop_total_example :
    (answer : Answer (countdown (some 5))) × (execute_loop (countdown (some 5)) 6 2 ≡ some answer)
execute_loop_total_example = execute_loop_total (countdown (some 5)) 5 6 2 refl (omega arith)

abbrev close_one : List LoopEvent
close_one = evaluate_started ∷ evaluate_completed ∷ fix_started ∷ fix_completed ∷ []

abbrev settled : LoopState ℕ
settled = record (start_state (countdown (some 5)) 0) {
  events = close_one ++ close_one ++ evaluate_started ∷ evaluate_completed ∷ [];
  budget = record_all (none ∷ none ∷ []) (new_counter none);
  iterations = 2;
}

abbrev report : LoopExecutionSummary ℕ
report = execution_summary 0 converged settled

countdown_ends : execute_loop (countdown (some 5)) 6 2 ≡ some (settled, ok report)
unfolding execute_loop normalize_step_result round exhausted record_usage new_counter
    execution_summary should_report summary record_all
countdown_ends = refl

execute_loop-IsSound_example :
    IsSound (countdown (some 5)) 0 (start_state (countdown (some 5)) 2) settled report
execute_loop-IsSound_example =
    execute_loop-IsSound (countdown (some 5)) 6 2 settled report countdown_ends

abbrev progress : LoopExecutionStepResult
progress = record no_step {
  observations =
      some
        (record { id = text "o1"; content = text "seen"; pinned = some true; tokens = none } ∷ []);
  measure = some 3;
  stop_reason = some unfixable;
}

normalize_step_result-step_value_example : normalize_step_result (step_value progress) ≡ progress
normalize_step_result-step_value_example = normalize_step_result-step_value progress ((λ e. cc), tt)
