-- ===== src/Tests/Monitor.antt =====
-- Runs of the monitor of src/monitor/index.ts.
use orca_ts.Monitor.Final.{apply}
use orca_ts.Monitor.Final.{apply_all}
use orca_ts.Loop.Termination.Budget.{new_counter}
use orca_ts.Monitor.Final.{
  finalize-Stands, ends, finalizes, Stands, has_outcome, begins, MonitorCall,
}
use orca_ts.Monitor.Log.{
  record_cycles-new_monitor, all_usages, run_summary-counts, replay, record_cycles,
}
use orca_ts.Model.{pos, Usage}
use orca_ts.Monitor.{
  finalize, record_usages, went_well, went_wrong, guard_reject, begin_stage, new_monitor,
  CycleObservation, clean, record_outcome, OutcomeLog, run_summary, WorkflowMonitor, OutcomeVerdict,
}
use orca_ts.Base.{length, map, text, ◌≡◌, ◌+◌, ℕ, ◌∷◌, Option, List, none, some, [], refl}

abbrev seen : ℕ → Option Usage → CycleObservation
seen measure usage = record {
  iteration = 1;
  measure = measure;
  usage = usage;
  branches = none;
  stop_reason = none;
  floor = none;
  context_pressure = none;
}

abbrev some_usage : Option Usage
some_usage = some (record { input = 3; output = 4; reasoning = none })

record_cycles-new_monitor_example :
    let os = seen 5 some_usage ∷ seen 7 none ∷ seen 0 some_usage ∷ [] in
    let m = record_cycles os new_monitor in
    (map (λ p. p.measure) m.progress ≡ map (λ o. o.measure) os)
    × (replay (pos 5) (map (λ p. p.delta) m.progress) ≡ map (λ o. pos o.measure) os)
    × (m.cumulative_usage ≡ record_usages (all_usages os) (new_counter none))
record_cycles-new_monitor_example =
    record_cycles-new_monitor (seen 5 some_usage) (seen 7 none ∷ seen 0 some_usage ∷ [])

abbrev log : OutcomeVerdict → OutcomeLog
log verdict = record { file = text "f"; verdict = verdict; duration_ms = 2; reason = none }

abbrev logged : WorkflowMonitor
logged = record_outcome (log clean) (record_outcome (log guard_reject) new_monitor)

run_summary-counts_example :
    let s = run_summary 0 9 logged in
    s.pass + s.fail + s.skip + s.precondition_skip ≡ length logged.outcomes + length logged.failures
run_summary-counts_example = run_summary-counts 0 9 logged

abbrev calls : List MonitorCall
calls = begins (text "fix") ∷ has_outcome (log clean) ∷ []

finalize-Stands_example : Stands (went_wrong (text "boom")) 8 (
    apply_all
      (finalizes went_well 9 ∷ ends (text "fix") 1 10 none ∷ [])
      (finalize (went_wrong (text "boom")) 8 (apply_all calls new_monitor)))
unfolding apply_all apply begin_stage record_outcome new_monitor
finalize-Stands_example =
    finalize-Stands calls (finalizes went_well 9 ∷ ends (text "fix") 1 10 none ∷ [])
      (went_wrong (text "boom")) 8 refl
