-- ===== src/Monitor/Final.antt =====
-- The verdict of a run, over any sequence of calls.
-- A call of the monitor.
use orca_ts.Monitor.{
  went_well, went_wrong, CycleObservation, record_cycle, FailureLog, record_failure, OutcomeLog,
  conclude, record_outcome, new_monitor, end_stage, WorkflowMonitor, begin_stage,
  WorkflowFinalization, finalize,
}
use orca_ts.Base.{none, refl, Option, ◌≡◌, if_elim, ◌∷◌, ℕ, Text, List, some, [], true, false}

pub data MonitorCall : Type 0 where
  begins : (name : Text) → MonitorCall
  ends : (name : Text) (start now : ℕ) (error : Option Text) → MonitorCall
  has_outcome : OutcomeLog → MonitorCall
  has_failure : FailureLog → MonitorCall
  has_cycle : CycleObservation → MonitorCall
  finalizes : WorkflowFinalization → (now : ℕ) → MonitorCall

unfoldable pub apply : MonitorCall → WorkflowMonitor → WorkflowMonitor
unfolding begin_stage end_stage record_outcome record_failure record_cycle finalize
apply (begins name) m = begin_stage name m
apply (ends name start now error) m = end_stage name start now error m
apply (has_outcome log) m = record_outcome log m
apply (has_failure log) m = record_failure log m
apply (has_cycle o) m = record_cycle o m
apply (finalizes f now) m = finalize f now m

unfoldable pub apply_all : List MonitorCall → WorkflowMonitor → WorkflowMonitor
unfolding apply
apply_all [] m = m
apply_all (call ∷ calls) m = apply_all calls (apply call m)

-- The verdict of a finalization stands.
pub record Stands (f : WorkflowFinalization) (now : ℕ) (m : WorkflowMonitor) : Type 0 where
  pub done : m.finalized ≡ true
  pub status : m.status ≡ (conclude f now new_monitor).status
  pub ended_at : m.ended_at ≡ some now
  pub error : m.terminal_error ≡ (conclude f now new_monitor).terminal_error

apply-Stands :
    (call : MonitorCall) (f : WorkflowFinalization) (now : ℕ) (m : WorkflowMonitor)
    → Stands f now m
    → Stands f now (apply call m)
unfolding apply
apply-Stands (begins name) f now m h = record {
  done = h.done;
  status = h.status;
  ended_at = h.ended_at;
  error = h.error;
}
apply-Stands (ends name start later e) f now m h = record {
  done = h.done;
  status = h.status;
  ended_at = h.ended_at;
  error = h.error;
}
apply-Stands (has_outcome log) f now m h = record {
  done = h.done;
  status = h.status;
  ended_at = h.ended_at;
  error = h.error;
}
apply-Stands (has_failure log) f now m h = record {
  done = h.done;
  status = h.status;
  ended_at = h.ended_at;
  error = h.error;
}
apply-Stands (has_cycle o) f now m h = record {
  done = h.done;
  status = h.status;
  ended_at = h.ended_at;
  error = h.error;
}
apply-Stands (finalizes g later) f now m h =
    if_elim (Stands f now) m.finalized (λ _. h) (λ fresh. absurd (cc))

apply_all-Stands :
    (calls : List MonitorCall) (f : WorkflowFinalization) (now : ℕ) (m : WorkflowMonitor)
    → Stands f now m
    → Stands f now (apply_all calls m)
unfolding apply_all
apply_all-Stands [] f now m h = h
apply_all-Stands (call ∷ calls) f now m h =
    apply_all-Stands calls f now (apply call m) (apply-Stands call f now m h)

-- Before the finalization there is no error.
abbrev IsOpen : WorkflowMonitor → Type 0
IsOpen m = m.finalized ≡ false → m.terminal_error ≡ none

conclude-IsOpen :
    (f : WorkflowFinalization) (now : ℕ) (m : WorkflowMonitor) → IsOpen (conclude f now m)
conclude-IsOpen went_well now m h = cc
conclude-IsOpen (went_wrong e) now m h = cc

apply-IsOpen : (call : MonitorCall) (m : WorkflowMonitor) → IsOpen m → IsOpen (apply call m)
unfolding apply
apply-IsOpen (begins name) m h = h
apply-IsOpen (ends name start now e) m h = h
apply-IsOpen (has_outcome log) m h = h
apply-IsOpen (has_failure log) m h = h
apply-IsOpen (has_cycle o) m h = h
apply-IsOpen (finalizes f now) m h =
    if_elim IsOpen m.finalized (λ _. h) (λ _. conclude-IsOpen f now m)

apply_all-IsOpen :
    (calls : List MonitorCall) (m : WorkflowMonitor) → IsOpen m → IsOpen (apply_all calls m)
unfolding apply_all
apply_all-IsOpen [] m h = h
apply_all-IsOpen (call ∷ calls) m h = apply_all-IsOpen calls (apply call m) (apply-IsOpen call m h)

conclude-Stands :
    (f : WorkflowFinalization) (now : ℕ) (m : WorkflowMonitor)
    → m.terminal_error ≡ none
    → Stands f now (conclude f now m)
unfolding new_monitor
conclude-Stands went_well now m h = record {
  done = refl;
  status = refl;
  ended_at = refl;
  error = h;
}
conclude-Stands (went_wrong e) now m h = record {
  done = refl;
  status = refl;
  ended_at = refl;
  error = refl;
}

-- The first finalization decides: whatever calls come after it, others of `finalize` included, its
-- status, its time and its error stand.
pub finalize-Stands :
    (before after : List MonitorCall) (f : WorkflowFinalization) (now : ℕ)
    → (apply_all before new_monitor).finalized ≡ false
    → Stands f now (apply_all after (finalize f now (apply_all before new_monitor)))
unfolding finalize new_monitor
finalize-Stands before after f now h =
    let m = apply_all before new_monitor in
    apply_all-Stands after f now _ (
      if_elim (Stands f now) m.finalized (λ done. absurd (cc))
        (λ _. conclude-Stands f now m (apply_all-IsOpen before new_monitor (λ _. refl) h)))
