-- ===== src/Loop/Execution/Run.antt =====
-- src/loop/execution.ts, `executeLoop`. The world `W` is what the callbacks and the clock read and
-- change; every callback takes it and returns it. `now` is read at the start, and at a check of the
-- wall clock only. The fingerprint of an action is a function argument.
pub mod Rounds
pub mod Steps
pub mod Guards
pub mod Outcome
pub mod Unroll
use orca_ts.Base.{
  ℕ, zero, suc, ◌+◌, ◌-◌, Bool, true, false, ◌&&◌, ◌||◌, Option, none, some, List, [], ◌∷◌, ◌++◌,
  Result, ok, err, leb, if◌then◌else◌, Text, is_none,
}
use orca_ts.Model.{Usage, Value, RuntimeError}
use orca_ts.Loop.Context.Compaction.{Observation}
use orca_ts.Loop.Termination.Budget.{
  TokenBudgetCounter, TokenUsageSummary, new_counter, record_usage, exhausted, should_report,
  summary,
}
use orca_ts.Loop.Termination.Detector.{Detector, make_detector, observe}
use orca_ts.Loop.Execution.Step.{
  LoopExecutionStop, converged, unfixable, stuck, timeout, ceiling, budget_exhausted,
  LoopContextPressure, BranchObservation, LoopExecutionStepResult, normalize_step_result,
}
use orca_ts.Loop.Execution.Managed.{
  ManagedContext, ContextSettings, record_observations, merge_pressure,
}

pub data LoopEvent : Type 0 where
  evaluate_started evaluate_completed no_progress fix_started fix_completed budget_spent : LoopEvent

pub record LoopExecutionProgress : Type 0 where
  pub iteration : ℕ
  pub usage : Option Usage
  pub branches : Option (List BranchObservation)
  pub measure : Option ℕ
  pub stop_reason : Option LoopExecutionStop
  pub context_pressure : Option LoopContextPressure

pub record LoopExecutionSummary (State : Type 0) : Type 0 where
  pub iterations : ℕ
  pub converged : Bool
  pub stop : LoopExecutionStop
  pub last_evaluation : State
  pub events : List LoopEvent
  pub token_usage : Option TokenUsageSummary
  pub context : Option ManagedContext

pub record FingerprintOptions : Type 0 where
  pub window_size : Option ℕ
  pub repeat_threshold : Option ℕ

pub record ContextOptions (W : Type 0) : Type 0 where
  pub settings : ContextSettings W
  pub observations : List Observation

pub record LoopExecutionOptions (State Action W : Type 0) : Type 0 where
  pub evaluate : W → W × Result State RuntimeError
  pub converged : State → Bool
  pub next_action : State → Option Action
  pub execute : Action → State → ℕ → W → W × Result Value RuntimeError
  pub max_iterations : Option ℕ
  pub wall_clock_ms : Option ℕ
  pub token_budget : Option ℕ
  pub stalled : State → Action → W → W × Bool
  pub fingerprint : Option FingerprintOptions
  pub fingerprint_action : Action → Text
  pub now : W → W × ℕ
  pub context : Option (ContextOptions W)
  pub on_cycle : LoopExecutionProgress → W → W

-- The variables of the loop, with the world.
pub record LoopState (W : Type 0) : Type 0 where
  pub world : W
  pub events : List LoopEvent
  pub budget : TokenBudgetCounter
  pub detector : Option Detector
  pub managed : Option ManagedContext
  pub iterations : ℕ

-- What a round ends in: another round, or the loop's result.
pub data Round (State W : Type 0) : Type 0 where
  again : LoopState W → Round State W
  done : LoopState W → Result (LoopExecutionSummary State) RuntimeError → Round State W

abbrev pub is_converged : LoopExecutionStop → Bool
is_converged converged = true
is_converged _ = false

abbrev pub push_event : {W : Type 0} → LoopEvent → LoopState W → LoopState W
push_event e s = record s { events = s.events ++ e ∷ [] }

unfoldable pub execution_summary :
    {State W : Type 0} → State → LoopExecutionStop → LoopState W → LoopExecutionSummary State
execution_summary state stop s = record {
  iterations = s.iterations;
  converged = is_converged stop;
  stop = stop;
  last_evaluation = state;
  events = s.events;
  token_usage = if should_report s.budget then some (summary s.budget) else none;
  context = s.managed;
}

abbrev pub finish : {State W : Type 0} → State → LoopExecutionStop → LoopState W → Round State W
finish state stop s = done s (ok (execution_summary state stop s))

abbrev make_optional_detector : Option FingerprintOptions → Option Detector
make_optional_detector none = none
make_optional_detector (some o) = some (make_detector o.window_size o.repeat_threshold)

abbrev initial_context : {W : Type 0} → Option (ContextOptions W) → Option ManagedContext
initial_context none = none
initial_context (some o) = some (record { observations = o.observations; last_pressure = none })

abbrev reached : Option ℕ → ℕ → Bool
reached none n = false
reached (some limit) n = leb limit n

-- `managedContext.record`; without context options there is nothing to record.
unfoldable pub record_managed :
    {W : Type 0}
    → Option (ContextOptions W)
    → Option ManagedContext
    → Option (List Observation)
    → LoopState W
    → LoopState W × Result (Option LoopContextPressure) RuntimeError
record_managed (some c) (some m) os s =
    let (w, m', r) = record_observations c.settings os m s.world in
    (record s { world = w; managed = some m' }, r)
record_managed (some c) none os s = (s, ok none)
record_managed none m os s = (s, ok none)

module _ {State Action W : Type 0} (options : LoopExecutionOptions State Action W) where
  -- `evaluateState`.
  unfoldable pub evaluate_state : LoopState W → LoopState W × Result State RuntimeError
  evaluate_state s =
      let s₁ = push_event evaluate_started s in
      let (w, r) = options.evaluate s₁.world in
      let s₂ = record s₁ { world = w } in
      elim r [ err e ↦ (s₂, err e) | ok state ↦ (push_event evaluate_completed s₂, ok state) ]

  -- The detector is called only where the caller's own predicate says no.
  abbrev observe_optional : Action → Option Detector → Option Detector × Bool
  observe_optional action none = (none, false)
  observe_optional action (some d) =
      let (d', repeated) = observe (some (options.fingerprint_action action)) d in
      (some d', repeated)

  unfoldable pub check_stalled : State → Action → LoopState W → LoopState W × Bool
  check_stalled state action s =
      let (w, stalled) = options.stalled state action s.world in
      let s₁ = record s { world = w } in
      let (detector, repeated) = observe_optional action s₁.detector in
      if stalled then (s₁, true) else (record s₁ { detector = detector }, repeated)

  -- The wall clock is read only where there is a limit.
  abbrev check_clock : ℕ → Option ℕ → LoopState W → LoopState W × Bool
  check_clock started none s = (s, false)
  check_clock started (some limit) s =
      let (w, now) = options.now s.world in (record s { world = w }, leb (started + limit) now)

  -- The guards before a step, in the order in which they are tried.
  unfoldable pub check_guards :
      ℕ → State → Action → LoopState W → LoopState W × Option LoopExecutionStop
  unfolding check_stalled
  check_guards started state action s =
      let (s₁, stalled) = check_stalled state action s in
      let (s₂, late) = check_clock started options.wall_clock_ms s₁ in
      if stalled
      then (push_event no_progress s₁, some stuck)
      else if reached options.max_iterations s.iterations
      then (s₁, some ceiling)
      else (s₂, if late then some timeout else none)

  -- The second evaluation, before a stop that a step brought about.
  unfoldable pub refresh : LoopExecutionStop → List LoopEvent → LoopState W → Round State W
  unfolding evaluate_state
  refresh stop closing s =
      let (s₁, r) = evaluate_state s in
      elim r [
        | err e ↦ done s₁ (err e)
        | ok state ↦ finish state stop (record s₁ { events = s₁.events ++ closing })
      ]

  unfoldable pub after_step : LoopExecutionStepResult → LoopState W → Round State W
  unfolding refresh
  after_step step s =
      let spent = refresh budget_exhausted (budget_spent ∷ []) s in
      elim step.stop_reason [
        | some stop ↦ refresh stop [] s
        | none ↦ if exhausted s.budget then spent else again s
      ]

  -- The bookkeeping of a step that succeeded.
  unfoldable pub complete_step : LoopExecutionStepResult → LoopState W → Round State W
  unfolding after_step record_managed
  complete_step step s =
      let s₁ = record s { budget = record_usage step.usage s.budget } in
      let (s₂, recorded) = record_managed options.context s₁.managed step.observations s₁ in
      elim recorded [
        | err e ↦ done s₂ (err e)
        | ok managed ↦
            let progress : LoopExecutionProgress = record {
              iteration = s₂.iterations;
              usage = step.usage;
              branches = step.branches;
              measure = step.measure;
              stop_reason = step.stop_reason;
              context_pressure = merge_pressure step.context_pressure managed;
            } in
            after_step step (record s₂ { world = options.on_cycle progress s₂.world })
      ]

  -- From `fix:started` to the end of the round.
  unfoldable pub take_step : State → Action → LoopState W → Round State W
  unfolding complete_step
  take_step state action s =
      let s₁ = push_event fix_started s in
      let (w, r) = options.execute action state s₁.iterations s₁.world in
      let s₂ = record s₁ { world = w } in
      elim r [
        | err e ↦ done s₂ (err e)
        | ok value ↦
            complete_step (normalize_step_result value) (record s₂ {
              events = s₂.events ++ fix_completed ∷ [];
              iterations = s₂.iterations + 1;
            })
      ]

  -- What follows an evaluation that gave a state.
  unfoldable pub decide : ℕ → State → LoopState W → Round State W
  unfolding check_guards take_step
  decide started state s =
      let act : Round State W = elim (options.next_action state) [
        | none ↦ finish state unfixable s
        | some action ↦
            let (s₁, stop) = check_guards started state action s in
            elim stop [ some r ↦ finish state r s₁ | none ↦ take_step state action s₁ ]
      ] in
      if options.converged state then finish state converged s else act

  -- One turn of `for (;;)`.
  unfoldable pub round : ℕ → LoopState W → Round State W
  unfolding evaluate_state decide
  round started s =
      let (s₁, r) = evaluate_state s in
      elim r [ err e ↦ done s₁ (err e) | ok state ↦ decide started state s₁ ]

  unfoldable pub start_state : W → LoopState W
  start_state w = record {
    world = w;
    events = [];
    budget = new_counter options.token_budget;
    detector = make_optional_detector options.fingerprint;
    managed = initial_context options.context;
    iterations = 0;
  }

  -- `none` means that the fuel ran out.
  unfoldable pub run_rounds :
      ℕ → ℕ → LoopState W → Option (LoopState W × Result (LoopExecutionSummary State) RuntimeError)
  run_rounds zero started s = none
  run_rounds (suc fuel) started s = elim (round started s) [
    | done s' r ↦ some (s', r)
    | again s' ↦ run_rounds fuel started s'
  ]

  unfoldable pub execute_loop :
      ℕ → W → Option (LoopState W × Result (LoopExecutionSummary State) RuntimeError)
  unfolding run_rounds start_state
  execute_loop fuel w =
      let (w', started) = options.now w in run_rounds fuel started (start_state w')
