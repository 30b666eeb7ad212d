-- ===== src/Review/OnePass.antt =====
-- The strategy against one pass of review and one fix.
use orca_ts.Loop.Execution.Run.Unroll.{run_rounds-again, run_rounds-done}
use orca_ts.Loop.Execution.Step.{normalize_step_result}
use orca_ts.Loop.Termination.Budget.{exhausted, new_counter, record_usage}
use orca_ts.Loop.Execution.Run.{
  execute_loop, again, push_event, fix_completed, record_managed, run_rounds, fix_started,
  after_step, complete_step, done,
}
use orca_ts.Model.{end, obj, Value, RuntimeError}
use orca_ts.Loop.Execution.Run.{
  evaluate_completed, evaluate_started, take_step, Round, start_state, LoopState, check_stalled,
  check_guards, LoopEvent, evaluate_state, decide, round, LoopExecutionOptions,
}
use orca_ts.Review.{
  after_pass, review_and_fix_strategy, run_review_phase, summary_of, after_fix, review_outcome,
  evaluate_review, start_review, fixable_of, ReviewLoopSummary, ReviewIssue, review_loop,
  ReviewWorld, ReviewAndFixOptions,
}
use orca_ts.Base.{
  arith, sym, ◌<◌, zero, length, ◌∙◌, ap, none, some, text, ◌++◌, ◌>>=◌, ◌∷◌, ◌≡◌, map, Result,
  Text, List, ℕ, [], true, false, suc, refl, ok, err,
}

module _ {W : Type 0} (options : ReviewAndFixOptions W) where
  -- What a fix of some issues brings about; without one to fix, nothing.
  unfoldable pub fix_once :
      List ReviewIssue
      → List ReviewIssue
      → W
      → List Text
      → W × Result ReviewLoopSummary RuntimeError
  fix_once issues [] w events = (
    w,
    ok (record {
      selected = map (λ p. p.id) options.selected;
      issues = issues;
      fixed = false;
      events = events;
    }),
  )
  fix_once issues (i ∷ is) w events =
      let (w', r) = options.fix (i ∷ is) w in
      (
        w',
        r >>= λ _. ok (record {
          selected = map (λ p. p.id) options.selected;
          issues = issues;
          fixed = true;
          events = events ++ text "fix:started" ∷ text "fix:completed" ∷ [];
        }),
      )

  -- One pass of review, then one fix of what can be fixed.
  unfoldable pub review_then_fix :
      W × List Text × Result (List ReviewIssue) RuntimeError
      → W × Result ReviewLoopSummary RuntimeError
  unfolding fix_once
  review_then_fix (w, events, err e) = (w, err e)
  review_then_fix (w, events, ok issues) = fix_once issues (fixable_of issues) w events

  abbrev o : LoopExecutionOptions ℕ (Unit {0}) (ReviewWorld W)
  o = review_loop options

  -- The state of the loop with a world, some events and a budget that is not set.
  abbrev at : ReviewWorld W → List LoopEvent → ℕ → LoopState (ReviewWorld W)
  at w es n = record (start_state o w) { events = es; iterations = n }

  -- A round, by what its evaluation gives.
  abbrev turn :
      ℕ
      → LoopState (ReviewWorld W)
      → ReviewWorld W × Result ℕ RuntimeError
      → Round ℕ (ReviewWorld W)
  turn started s p =
      let s₂ = record s { world = p.0 } in
      let q : LoopState (ReviewWorld W) × Result ℕ RuntimeError = elim p.1 [
        | err e ↦ (s₂, err e)
        | ok remaining ↦ (push_event evaluate_completed s₂, ok remaining)
      ] in
      elim q.1 [ err e ↦ done q.0 (err e) | ok remaining ↦ decide o started remaining q.0 ]

  round-turn :
      (started : ℕ) (s : LoopState (ReviewWorld W))
      → round o started s
        ≡ turn started
            (push_event evaluate_started s)
            (evaluate_review options s.world.in_review s.world)
  unfolding round evaluate_state review_loop
  round-turn started s = refl

  -- With something left to fix, the round takes a step.
  decide_left :
      (started others : ℕ) (w : ReviewWorld W) (es : List LoopEvent)
      → decide o started (suc others) (at w es 0) ≡ take_step o (suc others) tt (at w es 0)
  unfolding decide check_guards check_stalled review_loop start_state
  decide_left started others w es = refl

  -- A step, by what the fix gives.
  abbrev stepped :
      ℕ → List LoopEvent → ReviewWorld W × Result Value RuntimeError → Round ℕ (ReviewWorld W)
  stepped n es (w, r) = elim r [
    | err e ↦ done (at w (es ++ fix_started ∷ []) 0) (err e)
    | ok value ↦
        complete_step o (normalize_step_result value)
          (at w ((es ++ fix_started ∷ []) ++ fix_completed ∷ []) 1)
  ]

  take_step_lem :
      (n : ℕ) (w : ReviewWorld W) (es : List LoopEvent)
      → take_step o n tt (at w es 0)
        ≡ stepped n es (after_fix options (options.fix w.fixable w.host) w)
  unfolding take_step review_loop start_state
  take_step_lem n w es = refl

  -- After the fix, with a report of no usage.
  abbrev spent : ReviewWorld W → List LoopEvent → LoopState (ReviewWorld W)
  spent w es = record (at w es 1) { budget = record_usage none (new_counter none) }

  complete_step-again :
      (w : ReviewWorld W) (es : List LoopEvent)
      → complete_step o (normalize_step_result (obj end)) (at w es 1) ≡ again (spent w es)
  unfolding complete_step after_step record_managed normalize_step_result record_usage exhausted
      new_counter review_loop start_state
  complete_step-again w es = refl

  -- The last round finds nothing to fix.
  round_last :
      (fuel started : ℕ) (w : ReviewWorld W) (es : List LoopEvent)
      → w.in_review ≡ false
      → review_outcome options (run_rounds o (suc fuel) started (spent w es))
        ≡ some (w.host, ok (summary_of options w))
  unfolding decide review_loop evaluate_review start_state
  round_last fuel started w es h = ap (review_outcome options) (
      run_rounds-done o fuel started (spent w es) _ _ (
        round-turn started (spent w es)
        ∙ ap
            (λ b.
              turn started (push_event evaluate_started (spent w es)) (evaluate_review options b w))
            h))

  -- The strategy's variables after the review.
  abbrev reviewed : List ReviewIssue → List ReviewIssue → W → List Text → ReviewWorld W
  reviewed issues fixable h events = record {
    host = h;
    issues = issues;
    fixable = fixable;
    in_review = true;
    fixed = false;
    events = events;
  }

  abbrev evaluated : List LoopEvent
  evaluated = evaluate_started ∷ evaluate_completed ∷ []

  -- What a fix makes of them.
  stepped-fix :
      (n fuel started : ℕ) (issues fixable : List ReviewIssue) (before h : W) (events : List Text)
      (s : LoopState (ReviewWorld W)) (r : Result (Unit {0}) RuntimeError)
      → round o started s
        ≡ stepped n evaluated (after_fix options (h, r) (reviewed issues fixable before events))
      → review_outcome options (run_rounds o (suc (suc fuel)) started s)
        ≡ some (
          h,
          r >>= λ _. ok (record {
            selected = map (λ p. p.id) options.selected;
            issues = issues;
            fixed = true;
            events = events ++ text "fix:started" ∷ text "fix:completed" ∷ [];
          }),
        )
  unfolding start_state
  stepped-fix n fuel started issues fixable before h events s (err e) eq =
      ap (review_outcome options) (run_rounds-done o (suc fuel) started s _ _ eq)
  stepped-fix n fuel started issues fixable before h events s (ok u) eq =
      ap (review_outcome options)
        (run_rounds-again o (suc fuel) started s _ (eq ∙ complete_step-again _ _))
      ∙ round_last fuel started _ _ refl

  decide-fix :
      (fuel started : ℕ) (issues fixable : List ReviewIssue) (h : W) (events : List Text)
      (s : LoopState (ReviewWorld W))
      → round o started s
        ≡ decide o started (length fixable) (at (reviewed issues fixable h events) evaluated 0)
      → review_outcome options (run_rounds o (suc (suc fuel)) started s)
        ≡ some (fix_once issues fixable h events)
  unfolding decide fix_once review_loop start_state
  decide-fix fuel started issues [] h events s eq =
      ap (review_outcome options) (run_rounds-done o (suc fuel) started s _ _ eq)
  decide-fix fuel started issues (i ∷ is) h events s eq =
      stepped-fix (suc (length is)) fuel started issues (i ∷ is) h (options.fix (i ∷ is) h).0 events
        s (options.fix (i ∷ is) h).1
        (eq
          ∙ decide_left started (length is) (reviewed issues (i ∷ is) h events) evaluated
          ∙ take_step_lem (suc (length is)) (reviewed issues (i ∷ is) h events) evaluated)

  review-fix :
      (fuel started : ℕ) (h : W)
      → review_outcome options
          (run_rounds o (suc (suc fuel)) started (start_state o (start_review options h)))
        ≡ some (
            review_then_fix
              (run_review_phase options.review options.parallel options.selected h []))
  unfolding review_then_fix start_state evaluate_review
  review-fix fuel started h = go pass.2 refl
    where
      pass : W × List Text × Result (List ReviewIssue) RuntimeError
      pass = run_review_phase options.review options.parallel options.selected h []

      s : LoopState (ReviewWorld W)
      s = start_state o (start_review options h)

      begun :
          (r : Result (List ReviewIssue) RuntimeError)
          → pass.2 ≡ r
          → round o started s
            ≡ turn started
                (push_event evaluate_started s)
                (after_pass options pass.0 pass.1 r (start_review options h))
      begun r e =
          round-turn started s
          ∙ ap
              (λ r.
                turn started (push_event evaluate_started s)
                  (after_pass options pass.0 pass.1 r (start_review options h)))
              e

      go :
          (r : Result (List ReviewIssue) RuntimeError)
          → pass.2 ≡ r
          → review_outcome options (run_rounds o (suc (suc fuel)) started s)
            ≡ some (review_then_fix pass)
      go (err e) eq =
          ap (review_outcome options)
            (run_rounds-done o (suc fuel) started s _ _ (begun (err e) eq))
          ∙ ap (λ r. some (review_then_fix (pass.0, pass.1, r))) (sym eq)
      go (ok issues) eq =
          decide-fix fuel started issues (fixable_of issues) pass.0 pass.1 s (begun (ok issues) eq)
          ∙ ap (λ r. some (review_then_fix (pass.0, pass.1, r))) (sym eq)

  -- With fuel for two rounds, the strategy does what one pass of review and one fix do: the reviewers
  -- run once; if an issue can be fixed, those that can are fixed, once; the first error ends it.
  pub review_and_fix_strategy-review_then_fix :
      (fuel : ℕ) (w : W)
      → 1 < fuel
      → review_and_fix_strategy options fuel w
        ≡ some (
            review_then_fix (
              run_review_phase options.review options.parallel options.selected
                (options.clock w).0
                []))
  unfolding review_and_fix_strategy execute_loop review_loop
  review_and_fix_strategy-review_then_fix zero w h = absurd (omega arith)
  review_and_fix_strategy-review_then_fix (suc zero) w h = absurd (omega arith)
  review_and_fix_strategy-review_then_fix (suc (suc fuel)) w h =
      review-fix fuel (options.clock w).1 (options.clock w).0
