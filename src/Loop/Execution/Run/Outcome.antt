-- ===== src/Loop/Execution/Run/Outcome.antt =====
-- What the whole loop returns.
use orca_ts.Loop.Execution.Step.{normalize_step_result}
use orca_ts.Base.{
  ◌⊎◌, true, sym, subst₂, ℕ, zero, suc, ◌+◌, ◌≤◌, ◌<◌, ◌≡◌, refl, false, Option, none, some, Result,
  ok, err, arith, inl, inr, ◌∙◌, ap,
}
use orca_ts.Model.{Value, RuntimeError}
use orca_ts.Loop.Execution.Run.{
  converged, evaluate_state, is_converged, execution_summary, LoopExecutionOptions,
  LoopExecutionSummary, LoopState, Round, again, done, reached, round, start_state, run_rounds,
  execute_loop,
}
use orca_ts.Loop.Execution.Run.Rounds.{
  overspent, reported, out_of_time, at_ceiling, Returned, no_headway, no_action, goal, Later, Cause,
  IsCounted, Ends, Good, starts, completions,
}
use orca_ts.Loop.Execution.Run.Guards.{round-Good}

module _ {State Action W : Type 0} (options : LoopExecutionOptions State Action W) where
  abbrev pub Answer : Type 0
  Answer = LoopState W × Result (LoopExecutionSummary State) RuntimeError

  not_reached : (limit : Option ℕ) (n m : ℕ) → limit ≡ some n → reached limit m ≡ false → m < n
  not_reached none n m e h = cc
  not_reached (some k) n m e h = ground arith

  -- The loop, with the round that it takes as a value.
  resume : ℕ → ℕ → Round State W → Option Answer
  resume fuel started (done s r) = some (s, r)
  resume fuel started (again s) = run_rounds options fuel started s

  run_rounds-suc :
      (fuel started : ℕ) (s : LoopState W)
      → run_rounds options (suc fuel) started s ≡ resume fuel started (round options started s)
  unfolding run_rounds resume
  run_rounds-suc fuel started s = go (round options started s) refl
    where
      go :
          (r : Round State W)
          → round options started s ≡ r
          → run_rounds options (suc fuel) started s ≡ resume fuel started (round options started s)
      go (done s' r) e = rw (e, run_rounds) refl
      go (again s') e = rw (e, run_rounds) refl

  resume_total :
      (n fuel started : ℕ) (s : LoopState W) (r : Round State W)
      → Good options started s r
      → ((s' : LoopState W)
          → IsCounted s'
          → s'.iterations ≡ suc s.iterations
          → reached options.max_iterations s.iterations ≡ false
          → (answer : Answer) × (run_rounds options fuel started s' ≡ some answer))
      → (answer : Answer) × (resume fuel started r ≡ some answer)
  unfolding resume
  resume_total n fuel started s (done s' r) good later = ((s', r), refl)
  resume_total n fuel started s (again s') (next, below, counted) later =
      later s' counted next below

  run_rounds_total :
      (n fuel started : ℕ) (s : LoopState W)
      → options.max_iterations ≡ some n
      → IsCounted s
      → s.iterations ≤ n
      → n < s.iterations + fuel
      → (answer : Answer) × (run_rounds options fuel started s ≡ some answer)
  run_rounds_total n zero started s m c h k = absurd (omega arith)
  run_rounds_total n (suc fuel) started s m c h k = rw (run_rounds-suc fuel started s) (
      resume_total n fuel started s (round options started s) (round-Good options started s c)
        λ s' c' next below.
          let room = not_reached options.max_iterations n s.iterations m below in
          run_rounds_total n fuel started s' m c' (omega arith) (omega arith))

  -- A loop with a ceiling of n returns within n + 1 rounds.
  pub execute_loop_total :
      (n fuel : ℕ) (w : W)
      → options.max_iterations ≡ some n
      → n < fuel
      → (answer : Answer) × (execute_loop options fuel w ≡ some answer)
  unfolding execute_loop start_state starts completions
  execute_loop_total n fuel w m h =
      let (w', started) = options.now w in
      run_rounds_total n fuel started (start_state options w') m (refl, refl) (omega arith)
        (omega arith)

  -- The states in which the rounds of the loop start, from the first one.
  pub data Starts (started : ℕ) (first : LoopState W) : LoopState W → Type 0 where
    begin : Starts started first first
    after :
        {s s' : LoopState W}
        → Starts started first s
        → round options started s ≡ again s'
        → Starts started first s'

  -- The state that a round evaluates is converged, or the value that its step returns reports so.
  abbrev pub IsReached : ℕ → LoopState W → LoopExecutionSummary State → Type 0
  IsReached started base r =
      (((evaluate_state options base).1 ≡ ok r.last_evaluation)
        × (options.converged r.last_evaluation ≡ true))
      ⊎ ((v : Value) × Returned options started base v
          × ((normalize_step_result v).stop_reason ≡ some converged))

  -- What a summary promises, at the state that the loop ends in; `last` is where its last round starts.
  pub record IsSound (started : ℕ) (first s : LoopState W) (r : LoopExecutionSummary State)
      : Type 0 where
    pub last : LoopState W
    pub origin : Starts started first last
    pub cause : Cause options started last s r
    pub arrival : r.stop ≡ converged → IsReached started last r
    pub flag : r.converged ≡ is_converged r.stop
    pub begun : starts r.events ≡ r.iterations
    pub completed : completions r.events ≡ r.iterations
    pub bounded : (n : ℕ) → options.max_iterations ≡ some n → r.iterations ≤ n

  Later-bounded :
      (n : ℕ) (s t : LoopState W)
      → options.max_iterations ≡ some n
      → s.iterations ≤ n
      → Later options s t
      → t.iterations ≤ n
  Later-bounded n s t m h (inl e) = omega arith
  Later-bounded n s t m h (inr (e, below)) =
      omega (arith, not_reached options.max_iterations n s.iterations m below)

  Cause-IsReached :
      (started : ℕ) (base s : LoopState W) (r : LoopExecutionSummary State)
      → Cause options started base s r
      → r.stop ≡ converged
      → IsReached started base r
  Cause-IsReached started base s r (goal e c k) h = inl (e, c)
  Cause-IsReached started base s r (no_action e c n k) h = absurd (cc)
  Cause-IsReached started base s r (no_headway a f c l k) h = absurd (cc)
  Cause-IsReached started base s r (at_ceiling a f c l k) h = absurd (cc)
  Cause-IsReached started base s r (out_of_time a n f c l m k) h = absurd (cc)
  Cause-IsReached started base s r (reported v t k i) h = inr (v, t, k ∙ ap some h)
  Cause-IsReached started base s r (overspent v t k x b i) h = absurd (cc)

  IsSound-Ends :
      (started : ℕ) (first s t : LoopState W) (q : LoopExecutionSummary State)
      → Starts started first s
      → Ends options started s t q
      → Later options s t
      → ((n : ℕ) → options.max_iterations ≡ some n → s.iterations ≤ n)
      → IsSound started first t q
  unfolding execution_summary
  IsSound-Ends started first s t q origin ends way low =
      let same : q.iterations ≡ t.iterations = ap (λ r. r.iterations) ends.summed in
      let events : q.events ≡ t.events = ap (λ r. r.events) ends.summed in
      record {
        last = s;
        origin = origin;
        cause = ends.cause;
        arrival = Cause-IsReached started s t q ends.cause;
        flag = ap (λ r. r.converged) ends.summed;
        begun = ap starts events ∙ ends.counted.0 ∙ sym same;
        completed = ap completions events ∙ ends.counted.1 ∙ sym same;
        bounded = λ n m. omega (arith, Later-bounded n s t m (low n m) way);
      }

  resume-IsSound :
      (fuel started : ℕ) (first s s' : LoopState W) (r : LoopExecutionSummary State)
      (x : Round State W)
      → Starts started first s
      → round options started s ≡ x
      → Good options started s x
      → ((n : ℕ) → options.max_iterations ≡ some n → s.iterations ≤ n)
      → resume fuel started x ≡ some (s', ok r)
      → ((t : LoopState W)
          → Starts started first t
          → IsCounted t
          → ((n : ℕ) → options.max_iterations ≡ some n → t.iterations ≤ n)
          → run_rounds options fuel started t ≡ some (s', ok r)
          → IsSound started first s' r)
      → IsSound started first s' r
  unfolding resume
  resume-IsSound fuel started first s s' r (done t (err e)) origin took good low eq later = cc
  resume-IsSound fuel started first s s' r (done t (ok q)) origin took (ends, way) low eq later =
      subst₂ (IsSound started first) (ground arith) (ground arith)
        (IsSound-Ends started first s t q origin ends way low)
  resume-IsSound fuel started first s s' r (again t) origin took (next, below, counted) low eq
        later =
      later t (Starts.after origin took) counted
        (λ n m. omega (arith, not_reached options.max_iterations n s.iterations m below)) eq

  run_rounds-IsSound :
      (fuel started : ℕ) (first s s' : LoopState W) (r : LoopExecutionSummary State)
      → Starts started first s
      → IsCounted s
      → ((n : ℕ) → options.max_iterations ≡ some n → s.iterations ≤ n)
      → run_rounds options fuel started s ≡ some (s', ok r)
      → IsSound started first s' r
  unfolding run_rounds
  run_rounds-IsSound zero started first s s' r origin c low e = cc
  run_rounds-IsSound (suc fuel) started first s s' r origin c low e =
      resume-IsSound fuel started first s s' r (round options started s) origin refl
        (round-Good options started s c) low (sym (run_rounds-suc fuel started s) ∙ e)
        (λ t b c' low' e'. run_rounds-IsSound fuel started first t s' r b c' low' e')

  -- Let the loop return a summary r. Its last round starts in a state that the rounds before it lead
  -- to, and the stop is the one that this round calls for: converged or unfixable as its evaluation
  -- has it; stuck, ceiling or timeout where a state that is not converged has an action that is seen
  -- stalled, or else is held back by the ceiling, or else by the clock, read past the limit; and
  -- after a step, the stop that the value returned by `execute` reports, or budget_exhausted where it
  -- reports none and the budget is exhausted. So the stop is converged only where the state that this
  -- round evaluated is converged or the value that its step returned reports so. The flag is set for
  -- the stop converged alone, the events tell of as many steps begun and completed as are counted,
  -- and with a ceiling no more are counted than the ceiling.
  pub execute_loop-IsSound :
      (fuel : ℕ) (w : W) (s : LoopState W) (r : LoopExecutionSummary State)
      → execute_loop options fuel w ≡ some (s, ok r)
      → IsSound (options.now w).1 (start_state options (options.now w).0) s r
  unfolding execute_loop start_state starts completions
  execute_loop-IsSound fuel w s r e =
      let (w', started) = options.now w in
      let first = start_state options w' in
      run_rounds-IsSound fuel started first first s r Starts.begin (refl, refl) (λ n m. omega arith)
        e
