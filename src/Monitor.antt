-- ===== src/Monitor.antt =====
-- src/monitor/index.ts, `WorkflowMonitor`: the log of a run. The clock is an argument of what reads it; an
-- event goes to the end of `events`, where the reporter gets it; an error of the reporter is swallowed by
-- the code. The heartbeats, which a timer sends, and the writing of the log's file are left out.
pub mod Log
pub mod Final
use orca_ts.Loop.Termination.Budget.{summary}
use orca_ts.Loop.Execution.Step.{failed}
use orca_ts.Loop.Execution.Step.{completed}
use orca_ts.Loop.Execution.Step.{converged}
use orca_ts.Model.{negsuc, pos, Usage, ℤ}
use orca_ts.Loop.Termination.Budget.{
  TokenUsageSummary, TokenBudgetCounter, new_counter, record_usage,
}
use orca_ts.Loop.Execution.Step.{
  LoopContextPressure, StageStatus, LoopExecutionStop, BranchObservation,
}
use orca_ts.Base.{
  ◌-◌, filter, ◌+◌, leb, is_none, ◌∷◌, length, text, map, Text, Option, Bool, or_default, ℕ, ◌++◌,
  List, if◌then◌else◌, same, none, some, [], true, false,
}

pub data OutcomeVerdict : Type 0 where
  clean repaired regressed guard_reject declined precondition_skip : OutcomeVerdict

pub record StageLog : Type 0 where
  pub name : Text
  pub started_at : ℕ
  pub duration_ms : ℕ
  pub status : StageStatus

-- The fields that the monitor itself reads; the others it only keeps.
pub record OutcomeLog : Type 0 where
  pub file : Text
  pub verdict : OutcomeVerdict
  pub duration_ms : ℕ
  pub reason : Option Text

-- An error is the text that describes it.
pub record FailureLog : Type 0 where
  pub file : Text
  pub error : Text
  pub duration_ms : ℕ
  pub category : Option Text

pub record WorkflowRunSummary : Type 0 where
  pub pass : ℕ
  pub fail : ℕ
  pub skip : ℕ
  pub precondition_skip : ℕ
  pub duration_ms : ℕ

pub data CycleStopStatus : Type 0 where
  stopped : LoopExecutionStop → CycleStopStatus
  running : CycleStopStatus

-- A missing usage is `unknown`.
pub record BranchProgress : Type 0 where
  pub id : Text
  pub status : StageStatus
  pub usage : Option Usage

pub record CycleProgress : Type 0 where
  pub iteration : ℕ
  pub measure : ℕ
  pub delta : ℤ
  pub stop_reason_so_far : CycleStopStatus
  pub branches : Option (List BranchProgress)
  pub cumulative_usage : TokenUsageSummary
  pub context_pressure : Option LoopContextPressure

pub record CycleObservation : Type 0 where
  pub iteration : ℕ
  pub measure : ℕ
  pub usage : Option Usage
  pub branches : Option (List BranchObservation)
  pub stop_reason : Option LoopExecutionStop
  pub floor : Option ℕ
  pub context_pressure : Option LoopContextPressure

pub data WorkflowRunStatus : Type 0 where
  in_progress succeeded gone_wrong : WorkflowRunStatus

pub data WorkflowFinalization : Type 0 where
  went_well : WorkflowFinalization
  went_wrong : (error : Text) → WorkflowFinalization

-- The events that the monitor emits.
pub data RunEvent : Type 0 where
  stage_started : (name : Text) → RunEvent
  stage_ended :
      (name : Text) (status : StageStatus) (duration_ms : ℕ) (message : Option Text) → RunEvent
  outcome_recorded : (log : OutcomeLog) → RunEvent
  failure_recorded : (log : FailureLog) → RunEvent
  cycle_progress : (progress : CycleProgress) (usage : Option Usage) → RunEvent

pub record WorkflowMonitor : Type 0 where
  pub stages : List StageLog
  pub outcomes : List OutcomeLog
  pub failures : List FailureLog
  pub progress : List CycleProgress
  pub cumulative_usage : TokenBudgetCounter
  pub last_measure : Option ℕ
  pub status : WorkflowRunStatus
  pub ended_at : Option ℕ
  pub current_stage : Option Text
  pub last_stage : Text
  pub failed_stage : Option Text
  pub terminal_error : Option Text
  pub finalized : Bool
  pub events : List RunEvent

-- The constructor, but for its first event.
unfoldable pub new_monitor : WorkflowMonitor
unfolding new_counter
new_monitor = record {
  stages = [];
  outcomes = [];
  failures = [];
  progress = [];
  cumulative_usage = new_counter none;
  last_measure = none;
  status = in_progress;
  ended_at = none;
  current_stage = none;
  last_stage = text "initialize";
  failed_stage = none;
  terminal_error = none;
  finalized = false;
  events = [];
}

abbrev pub emit : RunEvent → WorkflowMonitor → WorkflowMonitor
emit event m = record m { events = m.events ++ event ∷ [] }

-- `stage` up to the call of its function.
unfoldable pub begin_stage : Text → WorkflowMonitor → WorkflowMonitor
begin_stage name m = emit (stage_started name) (record m { current_stage = some name })

abbrev pub clear_stage : Option Text → Text → Option Text
clear_stage none name = none
clear_stage (some current) name = if same current name then none else some current

-- `stage` from the end of its function on; the function's error, if it threw one.
unfoldable pub end_stage : Text → ℕ → ℕ → Option Text → WorkflowMonitor → WorkflowMonitor
unfolding same
end_stage name start now error m =
    let status = if is_none error then completed else failed in
    let log : StageLog = record {
      name = name;
      started_at = start;
      duration_ms = now - start;
      status = status;
    } in
    emit (stage_ended name status (now - start) error) (record m {
      stages = m.stages ++ log ∷ [];
      last_stage = name;
      failed_stage = if is_none error then m.failed_stage else some name;
      current_stage = clear_stage m.current_stage name;
    })

unfoldable pub record_outcome : OutcomeLog → WorkflowMonitor → WorkflowMonitor
record_outcome log m = emit (outcome_recorded log) (record m { outcomes = m.outcomes ++ log ∷ [] })

unfoldable pub record_failure : FailureLog → WorkflowMonitor → WorkflowMonitor
record_failure log m = emit (failure_recorded log) (record m { failures = m.failures ++ log ∷ [] })

-- `a - b`.
unfoldable pub difference : ℕ → ℕ → ℤ
difference a b = if leb b a then pos (a - b) else negsuc (b - a - 1)

abbrev pub delta_since : Option ℕ → ℕ → ℤ
delta_since none measure = pos 0
delta_since (some last) measure = difference measure last

-- What a cycle adds to the cumulative usage.
unfoldable pub usages_of : CycleObservation → List (Option Usage)
usages_of o = elim o.branches [ some branches ↦ map (λ b. b.usage) branches | none ↦ o.usage ∷ [] ]

unfoldable pub record_usages : List (Option Usage) → TokenBudgetCounter → TokenBudgetCounter
unfolding record_usage
record_usages [] c = c
record_usages (usage ∷ usages) c = record_usages usages (record_usage usage c)

unfoldable pub stop_status : CycleObservation → CycleStopStatus
stop_status o = elim o.stop_reason [
  | some reason ↦ stopped reason
  | none ↦ if leb o.measure (or_default o.floor 0) then stopped converged else running
]

abbrev pub to_branch_progress : BranchObservation → BranchProgress
to_branch_progress b = record { id = b.id; status = b.status; usage = b.usage }

abbrev pub branches_of : Option (List BranchObservation) → Option (List BranchProgress)
branches_of none = none
branches_of (some bs) = some (map to_branch_progress bs)

unfoldable pub record_cycle : CycleObservation → WorkflowMonitor → WorkflowMonitor
unfolding difference usages_of record_usages stop_status summary
record_cycle o m =
    let counter = record_usages (usages_of o) m.cumulative_usage in
    let progress : CycleProgress = record {
      iteration = o.iteration;
      measure = o.measure;
      delta = delta_since m.last_measure o.measure;
      stop_reason_so_far = stop_status o;
      branches = branches_of o.branches;
      cumulative_usage = summary counter;
      context_pressure = o.context_pressure;
    } in
    emit (cycle_progress progress o.usage) (record m {
      cumulative_usage = counter;
      last_measure = some o.measure;
      progress = m.progress ++ progress ∷ [];
    })

abbrev pub is_verdict : OutcomeVerdict → OutcomeVerdict → Bool
is_verdict clean clean = true
is_verdict repaired repaired = true
is_verdict regressed regressed = true
is_verdict guard_reject guard_reject = true
is_verdict declined declined = true
is_verdict precondition_skip precondition_skip = true
is_verdict _ _ = false

unfoldable pub count : OutcomeVerdict → List OutcomeLog → ℕ
count verdict outcomes = length (filter (λ o. is_verdict o.verdict verdict) outcomes)

-- The `summary` of `toJson`.
unfoldable pub run_summary : ℕ → ℕ → WorkflowMonitor → WorkflowRunSummary
unfolding count
run_summary started now m = record {
  pass = count clean m.outcomes + count repaired m.outcomes;
  fail = count regressed m.outcomes + count guard_reject m.outcomes + length m.failures;
  skip = count declined m.outcomes;
  precondition_skip = count precondition_skip m.outcomes;
  duration_ms = now - started;
}

abbrev pub unless_running : WorkflowRunStatus → Text → Option Text
unless_running in_progress stage = none
unless_running _ stage = some stage

abbrev pub if_failed : WorkflowRunStatus → Option Text → Option Text
if_failed gone_wrong stage = stage
if_failed _ stage = none

-- The rest of `toJson`: the stages that it names.
pub record StageNames : Type 0 where
  pub current : Text
  pub final : Option Text
  pub failed_one : Option Text

unfoldable pub stage_names : WorkflowMonitor → StageNames
stage_names m = record {
  current = or_default m.current_stage m.last_stage;
  final = unless_running m.status m.last_stage;
  failed_one = if_failed m.status m.failed_stage;
}

abbrev pub conclude : WorkflowFinalization → ℕ → WorkflowMonitor → WorkflowMonitor
conclude went_well now m = record m { status = succeeded; ended_at = some now; finalized = true }
conclude (went_wrong error) now m = record m {
  status = gone_wrong;
  ended_at = some now;
  failed_stage = some (or_default m.current_stage m.last_stage);
  terminal_error = some error;
  finalized = true;
}

-- `finalize`; a second call gives the promise of the first.
unfoldable pub finalize : WorkflowFinalization → ℕ → WorkflowMonitor → WorkflowMonitor
finalize finalization now m = if m.finalized then m else conclude finalization now m
