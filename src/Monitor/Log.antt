-- ===== src/Monitor/Log.antt =====
-- What the log of a run adds up to.
use orca_ts.Loop.Termination.Budget.{summary}
use orca_ts.Loop.Termination.Budget.{new_counter, record_usage, TokenBudgetCounter}
use orca_ts.Model.{negsuc, Usage, pos, ℤ}
use orca_ts.Monitor.{
  is_verdict, OutcomeVerdict, precondition_skip, declined, guard_reject, regressed, repaired, clean,
  OutcomeLog, count, branches_of, stop_status, new_monitor, run_summary, delta_since, CycleProgress,
  WorkflowMonitor, CycleObservation, usages_of, difference, record_cycle, record_usages,
}
use orca_ts.Base.{
  Bool, true, false, ap₂, append_assoc, ◌∙◌, length, none, ◌-◌, arith, ap, append-nil, leb, sym,
  map, ◌++◌, if_elim, ◌≡◌, ◌+◌, Option, ◌∷◌, List, ℕ, some, [], refl,
}

abbrev pub record_cycles : List CycleObservation → WorkflowMonitor → WorkflowMonitor
record_cycles [] m = m
record_cycles (o ∷ os) m = record_cycles os (record_cycle o m)

-- The reports of the cycles, those of the branches where a cycle has branches.
unfoldable pub all_usages : List CycleObservation → List (Option Usage)
unfolding usages_of
all_usages [] = []
all_usages (o ∷ os) = usages_of o ++ all_usages os

-- A natural and a change of it.
infixl 6 ◌+ℤ◌
abbrev pub ◌+ℤ◌ : ℤ → ℤ → ℤ
pos a +ℤ pos b = pos (a + b)
pos a +ℤ negsuc b = difference a (b + 1)
negsuc a +ℤ pos b = difference b (a + 1)
negsuc a +ℤ negsuc b = negsuc (a + b + 1)

-- What the changes make of a number, one after the other.
unfoldable pub replay : ℤ → List ℤ → List ℤ
replay n [] = []
replay n (d ∷ ds) = (n +ℤ d) ∷ replay (n +ℤ d) ds

pos-difference : (a b : ℕ) → pos a +ℤ difference b a ≡ pos b
unfolding difference
pos-difference a b =
    if_elim (λ d. pos a +ℤ d ≡ pos b) (leb a b) (λ up. ap pos (ground arith))
      (λ down.
        if_elim (λ d. d ≡ pos b) (leb (a - b - 1 + 1) a) (λ within. ap pos (ground arith))
          (λ beyond. absurd (ground arith)))

record_usages-append :
    (us vs : List (Option Usage)) (c : TokenBudgetCounter)
    → record_usages (us ++ vs) c ≡ record_usages vs (record_usages us c)
unfolding record_usages
record_usages-append [] vs c = refl
record_usages-append (u ∷ us) vs c = record_usages-append us vs (record_usage u c)

-- How the log grows over some cycles, from a measure on.
record IsLogged (last : ℕ) (os : List CycleObservation) (m m' : WorkflowMonitor)
    (ps : List CycleProgress) : Type 0 where
  grown : m'.progress ≡ m.progress ++ ps
  measures : map (λ p. p.measure) ps ≡ map (λ o. o.measure) os
  deltas : replay (pos last) (map (λ p. p.delta) ps) ≡ map (λ o. pos o.measure) os
  usage : m'.cumulative_usage ≡ record_usages (all_usages os) m.cumulative_usage

record_cycles-IsLogged :
    (os : List CycleObservation) (last : ℕ) (m : WorkflowMonitor)
    → m.last_measure ≡ some last
    → (ps : List CycleProgress) × IsLogged last os m (record_cycles os m) ps
unfolding record_cycle replay all_usages record_usages
record_cycles-IsLogged [] last m h = (
  [],
  record { grown = sym (append-nil m.progress); measures = refl; deltas = refl; usage = refl },
)
record_cycles-IsLogged (o ∷ os) last m h =
    let (ps, more) = record_cycles-IsLogged os o.measure (record_cycle o m) refl in
    let p : CycleProgress = record {
      iteration = o.iteration;
      measure = o.measure;
      delta = delta_since m.last_measure o.measure;
      stop_reason_so_far = stop_status o;
      branches = branches_of o.branches;
      cumulative_usage = summary (record_usages (usages_of o) m.cumulative_usage);
      context_pressure = o.context_pressure;
    } in
    let reached : pos last +ℤ p.delta ≡ pos o.measure =
      ap (λ l. pos last +ℤ delta_since l o.measure) h ∙ pos-difference last o.measure in
    (
      p ∷ ps,
      record {
        grown = more.grown ∙ append_assoc m.progress (p ∷ []) ps;
        measures = ap (λ ns. o.measure ∷ ns) more.measures;
        deltas =
            ap (λ n. n ∷ replay n (map (λ q. q.delta) ps)) reached
            ∙ ap (λ ns. pos o.measure ∷ ns) more.deltas;
        usage =
            more.usage
            ∙ sym (record_usages-append (usages_of o) (all_usages os) m.cumulative_usage);
      },
    )

plus_zero : (n : ℕ) → n + 0 ≡ n
plus_zero n = omega arith

-- A log of cycles, from a new monitor on: it has the measures that were observed, the first delta is 0,
-- and the deltas replayed from the first measure give every measure; the cumulative usage has counted
-- every report of every cycle, in order.
pub record_cycles-new_monitor :
    (o : CycleObservation) (os : List CycleObservation)
    → let m = record_cycles (o ∷ os) new_monitor in
      (map (λ p. p.measure) m.progress ≡ map (λ o. o.measure) (o ∷ os))
      × (replay (pos o.measure) (map (λ p. p.delta) m.progress) ≡ map (λ o. pos o.measure) (o ∷ os))
      × (m.cumulative_usage ≡ record_usages (all_usages (o ∷ os)) (new_counter none))
unfolding new_monitor record_cycle replay all_usages new_counter
record_cycles-new_monitor o os =
    let (ps, log) = record_cycles-IsLogged os o.measure (record_cycle o new_monitor) refl in
    (
      ap (map (λ p. p.measure)) log.grown ∙ ap (λ ns. o.measure ∷ ns) log.measures,
      ap (λ ps. replay (pos o.measure) (map (λ p. p.delta) ps)) log.grown
          ∙ ap₂ (λ n ns. n ∷ ns) (ap pos (omega arith))
              (ap (λ n. replay n (map (λ p. p.delta) ps)) (ap pos (plus_zero o.measure))
                ∙ log.deltas),
      log.usage ∙ sym (record_usages-append (usages_of o) (all_usages os) (new_counter none)),
    )

abbrev tally : Bool → ℕ
tally true = 1
tally false = 0

one_of :
    (v : OutcomeVerdict)
    → tally (is_verdict v clean)
        + tally (is_verdict v repaired)
        + tally (is_verdict v regressed)
        + tally (is_verdict v guard_reject)
        + tally (is_verdict v declined)
        + tally (is_verdict v precondition_skip)
      ≡ 1
one_of clean = refl
one_of repaired = refl
one_of regressed = refl
one_of guard_reject = refl
one_of declined = refl
one_of precondition_skip = refl

count-cons :
    (v : OutcomeVerdict) (o : OutcomeLog) (os : List OutcomeLog)
    → count v (o ∷ os) ≡ tally (is_verdict o.verdict v) + count v os
unfolding count
count-cons v o os = ground arith

counts :
    (os : List OutcomeLog)
    → count clean os
        + count repaired os
        + count regressed os
        + count guard_reject os
        + count declined os
        + count precondition_skip os
      ≡ length os
unfolding count
counts [] = refl
counts (o ∷ os) = omega (
  arith,
  counts os,
  one_of o.verdict,
  count-cons clean o os,
  count-cons repaired o os,
  count-cons regressed o os,
  count-cons guard_reject o os,
  count-cons declined o os,
  count-cons precondition_skip o os,
)

-- Whatever was recorded, the summary counts every outcome and every failure, each once.
pub run_summary-counts :
    (started now : ℕ) (m : WorkflowMonitor)
    → let s = run_summary started now m in
      s.pass + s.fail + s.skip + s.precondition_skip ≡ length m.outcomes + length m.failures
unfolding run_summary
run_summary-counts started now m = ground (arith, counts m.outcomes)
