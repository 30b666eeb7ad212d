-- ===== src/Loop/Execution/Run/Steps.antt =====
-- How a round ends that takes a step.
use orca_ts.Loop.Termination.Budget.{exhausted, record_usage}
use orca_ts.Loop.Context.Compaction.{Observation}
use orca_ts.Model.{RuntimeError, Value}
use orca_ts.Loop.Execution.Step.{
  budget_exhausted, LoopContextPressure, LoopExecutionStepResult, normalize_step_result,
  LoopExecutionStop,
}
use orca_ts.Loop.Execution.Managed.{ManagedContext}
use orca_ts.Loop.Execution.Run.{
  budget_spent, fix_completed, evaluate_state, fix_started, reached, execution_summary, LoopEvent,
  LoopState, refresh, after_step, take_step, complete_step, ContextOptions, LoopExecutionOptions,
  record_managed,
}
use orca_ts.Loop.Execution.Run.Rounds.{
  completions-append, starts-append, evaluate_state-keeps, Cause, Good, Later, Returned, IsCounted,
  completions, starts,
}
use orca_ts.Base.{
  sym, ap, Bool-cases, ◌∙◌, arith, ◌+◌, Option-cases, Result, ◌∷◌, ◌++◌, ◌≡◌, List, Option, ℕ, none,
  some, [], false, suc, refl, ok, err, inl, inr,
}

IsCounted_of_step :
    (es : List LoopEvent) (n : ℕ)
    → starts es ≡ n
    → completions es ≡ n
    → (starts (es ++ fix_started ∷ [] ++ fix_completed ∷ []) ≡ n + 1)
      × (completions (es ++ fix_started ∷ [] ++ fix_completed ∷ []) ≡ n + 1)
unfolding starts completions
IsCounted_of_step es n h k = ground (
  arith,
  starts-append es (fix_started ∷ []),
  starts-append (es ++ fix_started ∷ []) (fix_completed ∷ []),
  completions-append es (fix_started ∷ []),
  completions-append (es ++ fix_started ∷ []) (fix_completed ∷ []),
)

record_managed-keeps :
    {W : Type 0} (c : Option (ContextOptions W)) (m : Option ManagedContext)
    (os : Option (List Observation)) (s : LoopState W)
    → let s' = (record_managed c m os s).0 in
      (s'.iterations ≡ s.iterations) × (s'.events ≡ s.events)
unfolding record_managed
record_managed-keeps none m os s = (refl, refl)
record_managed-keeps (some c) none os s = (refl, refl)
record_managed-keeps (some c) (some m) os s = (refl, refl)

module _ {State Action W : Type 0} (options : LoopExecutionOptions State Action W)
    (started : ℕ) where
  -- A second evaluation keeps the counters, so it ends well if its cause does.
  refresh-Good :
      (base s : LoopState W) (stop : LoopExecutionStop) (closing : List LoopEvent)
      → starts closing ≡ 0
      → completions closing ≡ 0
      → IsCounted s
      → Later options base s
      → ((s' : LoopState W) (state : State)
          → s'.budget ≡ s.budget
          → s'.iterations ≡ s.iterations
          → Cause options started base s' (execution_summary state stop s'))
      → Good options started base (refresh options stop closing s)
  unfolding refresh execution_summary
  refresh-Good base s stop closing no_start no_end counted later cause =
      go (evaluate_state options s).1 refl
    where
      s' : LoopState W
      s' = (evaluate_state options s).0

      go :
          (r : Result State RuntimeError)
          → (evaluate_state options s).1 ≡ r
          → Good options started base (refresh options stop closing s)
      go (err e) eq = rw (eq, refresh) tt
      go (ok state) eq =
          rw (eq, refresh)
            (
              record {
                cause =
                    let (i, b, _, _) = evaluate_state-keeps options s in
                    cause (record s' { events = s'.events ++ closing }) state b i;
                summed = refl;
                counted = ground (
                  arith,
                  evaluate_state-keeps options s,
                  starts-append s'.events closing,
                  completions-append s'.events closing,
                );
              },
              ground (arith, evaluate_state-keeps options s),
            )

  after_step-Good :
      (base s : LoopState W) (v : Value)
      → Returned options started base v
      → IsCounted s
      → s.iterations ≡ suc base.iterations
      → reached options.max_iterations base.iterations ≡ false
      → Good options started base (after_step options (normalize_step_result v) s)
  unfolding after_step execution_summary starts completions
  after_step-Good base s v returned counted next below =
      elim (Option-cases (normalize_step_result v).stop_reason) [
        | inr (stop, e) ↦
            rw (e, after_step)
              (refresh-Good base s stop [] refl refl counted (inr (next, below))
                (λ s' state b i. Cause.reported v returned e (i ∙ next)))
        | inl e ↦ elim (Bool-cases (exhausted s.budget)) [
          | inl spent ↦
              rw (e, spent, after_step)
                (refresh-Good base s budget_exhausted (budget_spent ∷ []) refl refl counted
                  (inr (next, below))
                  (λ s' state b i. Cause.overspent v returned e (rw b spent) refl (i ∙ next)))
          | inr more ↦ rw (e, more, after_step) (next, below, counted)
        ]
      ]

  complete_step-Good :
      (base s : LoopState W) (v : Value)
      → Returned options started base v
      → IsCounted s
      → s.iterations ≡ suc base.iterations
      → reached options.max_iterations base.iterations ≡ false
      → Good options started base (complete_step options (normalize_step_result v) s)
  unfolding complete_step
  complete_step-Good base s v returned counted next below =
      go (record_managed options.context s.managed step.observations s₁).1 refl
    where
      step : LoopExecutionStepResult
      step = normalize_step_result v

      s₁ : LoopState W
      s₁ = record s { budget = record_usage step.usage s.budget }

      s₂ : LoopState W
      s₂ = (record_managed options.context s.managed step.observations s₁).0

      go :
          (r : Result (Option LoopContextPressure) RuntimeError)
          → (record_managed options.context s.managed step.observations s₁).1 ≡ r
          → Good options started base (complete_step options step s)
      go (err e) eq = rw (eq, complete_step) tt
      go (ok managed) eq =
          let (i, e) = record_managed-keeps options.context s.managed step.observations s₁ in
          rw (eq, complete_step)
            (after_step-Good base (record s₂ { world = _ }) v returned
              (ap starts e ∙ counted.0 ∙ sym i, ap completions e ∙ counted.1 ∙ sym i) (i ∙ next)
              below)

  pub take_step-Good :
      (base s : LoopState W) (state : State) (action : Action)
      → ((v : Value)
          → (options.execute action state s.iterations s.world).1 ≡ ok v
          → Returned options started base v)
      → IsCounted s
      → s.iterations ≡ base.iterations
      → reached options.max_iterations base.iterations ≡ false
      → Good options started base (take_step options state action s)
  unfolding take_step
  take_step-Good base s state action returned counted same below =
      go (options.execute action state s.iterations s.world).1 refl
    where
      go :
          (r : Result Value RuntimeError)
          → (options.execute action state s.iterations s.world).1 ≡ r
          → Good options started base (take_step options state action s)
      go (err e) eq = rw (eq, take_step) tt
      go (ok v) eq =
          rw (eq, take_step)
            (complete_step-Good base _ v (returned v eq)
              (IsCounted_of_step s.events s.iterations counted.0 counted.1) (omega arith) below)
