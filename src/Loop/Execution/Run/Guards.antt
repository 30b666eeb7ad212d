-- ===== src/Loop/Execution/Run/Guards.antt =====
-- The guards before a step, and the whole round.
use orca_ts.Loop.Execution.Run.Steps.{take_step-Good}
use orca_ts.Base.{
  ◌+◌, leb, subst, sym, ◌∙◌, ap, ℕ, ◌≡◌, refl, true, false, Option, none, some, List, [], ◌∷◌, ◌++◌,
  Result, ok, err, arith, get_last?, inl, inr, Option-cases, Bool-cases,
}
use orca_ts.Model.{RuntimeError}
use orca_ts.Loop.Execution.Step.{LoopExecutionStop}
use orca_ts.Loop.Execution.Run.{
  no_progress, LoopExecutionOptions, LoopState, reached, execution_summary, finish, evaluate_state,
  check_stalled, check_guards, check_clock, take_step, decide, round,
}
use orca_ts.Loop.Execution.Run.Rounds.{
  admitted, entered, Facing, starts, completions, starts-append, completions-append, IsCounted,
  Cause, Good, evaluate_state-keeps,
}

get_last?-append : {A : Type 0} (xs : List A) (x : A) → get_last? (xs ++ x ∷ []) ≡ some x
get_last?-append [] x = refl
get_last?-append (y ∷ []) x = refl
get_last?-append (y ∷ z ∷ xs) x = get_last?-append (z ∷ xs) x

module _ {State Action W : Type 0} (options : LoopExecutionOptions State Action W) where
  check_stalled-keeps :
      (state : State) (action : Action) (s : LoopState W)
      → let s' = (check_stalled options state action s).0 in
        (s'.iterations ≡ s.iterations) × (s'.events ≡ s.events)
  unfolding check_stalled
  check_stalled-keeps state action s = ground arith

  check_clock_lem :
      (started : ℕ) (limit : Option ℕ) (s : LoopState W)
      → let k = check_clock options started limit s in
        (k.0.iterations ≡ s.iterations)
        × (k.0.events ≡ s.events)
        × (k.1 ≡ true
            → (n : ℕ) × (limit ≡ some n) × (leb (started + n) (options.now s.world).1 ≡ true))
  check_clock_lem started none s = (refl, refl, λ e. cc)
  check_clock_lem started (some n) s = (refl, refl, λ e. (n, refl, e))

  -- What the guards leave, and what a stop by them rests on.
  abbrev Guarded :
      ℕ → LoopState W → State → Action → LoopState W × Option LoopExecutionStop → Type 0
  Guarded started base state action (s', none) =
      let s = entered options base in
      (s'.iterations ≡ s.iterations)
      × (s'.events ≡ s.events)
      × (reached options.max_iterations s.iterations ≡ false)
  Guarded started base state action (s', some stop) =
      let s = entered options base in
      (s'.iterations ≡ s.iterations)
      × (IsCounted s → IsCounted s')
      × Cause options started base s' (execution_summary state stop s')

  check_guards-Guarded :
      (started : ℕ) (base : LoopState W) (state : State) (action : Action)
      → Facing options base state action
      → Guarded started base state action (admitted options started base state action)
  unfolding check_guards execution_summary starts completions
  check_guards-Guarded started base state action facing =
      let s = entered options base in
      let c = check_stalled options state action s in
      let (i, e) = check_stalled-keeps state action s in
      elim (Bool-cases c.1) [
        | inl stalled ↦
            rw (stalled, check_guards)
              (
                i,
                λ counted. ground (
                  arith,
                  starts-append c.0.events (no_progress ∷ []),
                  completions-append c.0.events (no_progress ∷ []),
                  ap starts e,
                  ap completions e,
                ),
                Cause.no_headway action facing stalled (get_last?-append c.0.events no_progress)
                    refl,
              )
        | inr moving ↦ elim (Bool-cases (reached options.max_iterations s.iterations)) [
          | inl full ↦
              rw (moving, full, check_guards)
                (
                  i,
                  λ counted.
                      (ap starts e ∙ counted.0 ∙ sym i, ap completions e ∙ counted.1 ∙ sym i),
                  Cause.at_ceiling action facing moving (rw i full) refl,
                )
          | inr room ↦
              let k = check_clock options started options.wall_clock_ms c.0 in
              let (i', e', limited) = check_clock_lem started options.wall_clock_ms c.0 in
              elim (Bool-cases k.1) [
                | inl late ↦
                    rw (moving, room, late, check_guards)
                      (
                        i' ∙ i,
                        λ counted. (
                          ap starts (e' ∙ e) ∙ counted.0 ∙ sym (i' ∙ i),
                          ap completions (e' ∙ e) ∙ counted.1 ∙ sym (i' ∙ i),
                        ),
                        let (limit, l, late_by) = limited late in
                            Cause.out_of_time action limit facing (moving, late_by)
                              (rw (i' ∙ i) room) l refl,
                      )
                | inr early ↦ rw (moving, room, early, check_guards) (i' ∙ i, e' ∙ e, room)
              ]
        ]
      ]

  -- A step that the guards admit.
  admitted-Good :
      (started : ℕ) (base : LoopState W) (state : State) (action : Action)
      → Facing options base state action
      → IsCounted (entered options base)
      → (entered options base).iterations ≡ base.iterations
      → (g : LoopState W × Option LoopExecutionStop)
      → admitted options started base state action ≡ g
      → Guarded started base state action g
      → Good options started base
          (elim g.1 [ some r ↦ finish state r g.0 | none ↦ take_step options state action g.0 ])
  unfolding execution_summary
  admitted-Good started base state action facing counted same (s', none) eq (i, e, room) =
      take_step-Good options started base s' state action
        (λ v value. record {
          state = state;
          action = action;
          facing = facing;
          passed = ap (λ g. g.1) eq;
          value =
              subst
                (λ (g : LoopState W × Option LoopExecutionStop).
                  (options.execute action state g.0.iterations g.0.world).1 ≡ ok v)
                (sym eq) value;
        })
        (ap starts e ∙ counted.0 ∙ sym i, ap completions e ∙ counted.1 ∙ sym i) (i ∙ same)
        (subst (λ n. reached options.max_iterations n ≡ false) same room)
  admitted-Good started base state action facing counted same (s', some stop) eq
        (i, counts, cause) =
      (record { cause = cause; summed = refl; counted = counts counted }, inl (i ∙ same))

  decide-Good :
      (started : ℕ) (state : State) (base : LoopState W)
      → (evaluate_state options base).1 ≡ ok state
      → IsCounted (entered options base)
      → (entered options base).iterations ≡ base.iterations
      → Good options started base (decide options started state (entered options base))
  unfolding decide execution_summary
  decide-Good started state base evaluated counted same =
      elim (Bool-cases (options.converged state)) [
        | inl goal ↦
            rw (goal, decide)
              (
                record { cause = Cause.goal evaluated goal refl; summed = refl; counted = counted },
                inl same,
              )
        | inr going ↦ elim (Option-cases (options.next_action state)) [
          | inl idle ↦
              rw (going, idle, decide)
                (
                  record {
                    cause = Cause.no_action evaluated going idle refl;
                    summed = refl;
                    counted = counted;
                  },
                  inl same,
                )
          | inr (action, chosen) ↦
              let facing : Facing options base state action = record {
                evaluated = evaluated;
                unsettled = going;
                chosen = chosen;
              } in
              rw (going, chosen, decide)
                (admitted-Good started base state action facing counted same
                  (admitted options started base state action) refl
                  (check_guards-Guarded started base state action facing))
        ]
      ]

  -- A round that goes on has taken one step, with the limit not yet reached; a round that ends with
  -- a summary has a cause to, and the summary tells the final counters.
  pub round-Good :
      (started : ℕ) (s : LoopState W)
      → IsCounted s
      → Good options started s (round options started s)
  unfolding round
  round-Good started s counted = go (evaluate_state options s).1 refl
    where
      go :
          (r : Result State RuntimeError)
          → (evaluate_state options s).1 ≡ r
          → Good options started s (round options started s)
      go (err e) eq = rw (eq, round) tt
      go (ok state) eq =
          let (i, b, st, co) = evaluate_state-keeps options s in
          rw (eq, round)
            (decide-Good started state s eq (st ∙ counted.0 ∙ sym i, co ∙ counted.1 ∙ sym i) i)
