-- ===== src/Loop/Execution/Run/Rounds.antt =====
-- What is asked of one round: how far it takes the counters, and why it stops if it does.
use orca_ts.Base.{
  leb, ℕ, suc, ◌+◌, ◌≡◌, ◌⊎◌, true, false, Option, none, some, List, [], ◌∷◌, ◌++◌, ok, err, arith,
  get_last?,
}
use orca_ts.Model.{Value}
use orca_ts.Loop.Termination.Budget.{exhausted}
use orca_ts.Loop.Execution.Step.{
  LoopExecutionStop, converged, unfixable, stuck, timeout, ceiling, budget_exhausted,
  normalize_step_result,
}
use orca_ts.Loop.Execution.Run.{
  check_stalled, check_guards, LoopEvent, evaluate_started, evaluate_completed, no_progress,
  fix_started, fix_completed, LoopExecutionOptions, LoopExecutionSummary, LoopState, Round, again,
  done, reached, execution_summary, evaluate_state,
}

-- How often an event was recorded.
unfoldable pub starts : List LoopEvent → ℕ
starts [] = 0
starts (fix_started ∷ es) = suc (starts es)
starts (_ ∷ es) = starts es

unfoldable pub completions : List LoopEvent → ℕ
completions [] = 0
completions (fix_completed ∷ es) = suc (completions es)
completions (_ ∷ es) = completions es

pub starts-append : (xs ys : List LoopEvent) → starts (xs ++ ys) ≡ starts xs + starts ys
unfolding starts
starts-append [] ys = omega arith
starts-append (x ∷ xs) ys = ground (arith, starts-append xs ys)

pub completions-append :
    (xs ys : List LoopEvent) → completions (xs ++ ys) ≡ completions xs + completions ys
unfolding completions
completions-append [] ys = omega arith
completions-append (x ∷ xs) ys = ground (arith, completions-append xs ys)

-- The events tell of as many steps as the counter has.
abbrev pub IsCounted : {W : Type 0} → LoopState W → Type 0
IsCounted s = (starts s.events ≡ s.iterations) × (completions s.events ≡ s.iterations)

module _ {State Action W : Type 0} (options : LoopExecutionOptions State Action W) where
  -- The state of the loop after the evaluation with which a round begins.
  abbrev pub entered : LoopState W → LoopState W
  entered base = (evaluate_state options base).0

  -- The round that starts in `base` evaluates to a state that is not converged, and has an action.
  pub record Facing (base : LoopState W) (state : State) (action : Action) : Type 0 where
    pub evaluated : (evaluate_state options base).1 ≡ ok state
    pub unsettled : options.converged state ≡ false
    pub chosen : options.next_action state ≡ some action

  -- A state that the loop reaches from one at the start of a round.
  abbrev pub Later : LoopState W → LoopState W → Type 0
  Later s s' =
      (s'.iterations ≡ s.iterations)
      ⊎ ((s'.iterations ≡ suc s.iterations) × (reached options.max_iterations s.iterations ≡ false))

  pub evaluate_state-keeps :
      (s : LoopState W)
      → let s' = (evaluate_state options s).0 in
        (s'.iterations ≡ s.iterations)
        × (s'.budget ≡ s.budget)
        × (starts s'.events ≡ starts s.events)
        × (completions s'.events ≡ completions s.events)
  unfolding evaluate_state starts completions
  evaluate_state-keeps s = ground (
    arith,
    starts-append s.events (evaluate_started ∷ []),
    completions-append s.events (evaluate_started ∷ []),
    starts-append (s.events ++ evaluate_started ∷ []) (evaluate_completed ∷ []),
    completions-append (s.events ++ evaluate_started ∷ []) (evaluate_completed ∷ []),
  )

-- The guards stand between an evaluation and a step; `started` is the clock at the loop's start.
module _ {State Action W : Type 0} (options : LoopExecutionOptions State Action W)
    (started : ℕ) where
  -- What the guards leave of the round that starts in `base`.
  abbrev pub admitted : LoopState W → State → Action → LoopState W × Option LoopExecutionStop
  admitted base state action = check_guards options started state action (entered options base)

  -- The round that starts in `base` takes a step, which the guards admit and which returns a value.
  pub record Returned (base : LoopState W) (v : Value) : Type 0 where
    pub state : State
    pub action : Action
    pub facing : Facing options base state action
    pub passed : (admitted base state action).1 ≡ none
    pub value :
        let s = (admitted base state action).0 in
        (options.execute action state s.iterations s.world).1 ≡ ok v

  -- Why a loop stopped whose last round starts in `base`.
  pub data Cause (base s : LoopState W) (r : LoopExecutionSummary State) : Type 0 where
    goal :
        (evaluate_state options base).1 ≡ ok r.last_evaluation
        → options.converged r.last_evaluation ≡ true
        → r.stop ≡ converged
        → Cause base s r
    no_action :
        (evaluate_state options base).1 ≡ ok r.last_evaluation
        → options.converged r.last_evaluation ≡ false
        → options.next_action r.last_evaluation ≡ none
        → r.stop ≡ unfixable
        → Cause base s r
    no_headway :
        (action : Action)
        → Facing options base r.last_evaluation action
        → (check_stalled options r.last_evaluation action (entered options base)).1 ≡ true
        → get_last? r.events ≡ some no_progress
        → r.stop ≡ stuck
        → Cause base s r
    at_ceiling :
        (action : Action)
        → Facing options base r.last_evaluation action
        → (check_stalled options r.last_evaluation action (entered options base)).1 ≡ false
        → reached options.max_iterations r.iterations ≡ true
        → r.stop ≡ ceiling
        → Cause base s r
    out_of_time :
        (action : Action) (limit : ℕ)
        → Facing options base r.last_evaluation action
        → (let c = check_stalled options r.last_evaluation action (entered options base) in
            (c.1 ≡ false) × (leb (started + limit) (options.now c.0.world).1 ≡ true))
        → reached options.max_iterations r.iterations ≡ false
        → options.wall_clock_ms ≡ some limit
        → r.stop ≡ timeout
        → Cause base s r
    reported :
        (v : Value)
        → Returned base v
        → (normalize_step_result v).stop_reason ≡ some r.stop
        → r.iterations ≡ suc base.iterations
        → Cause base s r
    overspent :
        (v : Value)
        → Returned base v
        → (normalize_step_result v).stop_reason ≡ none
        → exhausted s.budget ≡ true
        → r.stop ≡ budget_exhausted
        → r.iterations ≡ suc base.iterations
        → Cause base s r

  pub record Ends (base s : LoopState W) (r : LoopExecutionSummary State) : Type 0 where
    pub cause : Cause base s r
    pub summed : r ≡ execution_summary r.last_evaluation r.stop s
    pub counted : IsCounted s

  abbrev pub Good : LoopState W → Round State W → Type 0
  Good s (again s') =
      (s'.iterations ≡ suc s.iterations)
      × (reached options.max_iterations s.iterations ≡ false)
      × IsCounted s'
  Good s (done s' (ok r)) = Ends s s' r × Later options s s'
  Good s (done s' (err e)) = Unit
