-- ===== src/Plan/Persistent/InOrder.antt =====
-- The strategy against a plain pass over the tasks.
use orca_ts.Plan.Persistent.Round.{round_task}
use orca_ts.Plan.Persistent.Round.{take_step-failed}
use orca_ts.Plan.Persistent.Round.{take_step-went}
use orca_ts.Loop.Execution.Run.Unroll.{run_rounds-again, run_rounds-done}
use orca_ts.Base.{get_elem?, ◌+◌, ap, ◌∙◌, length-drop, sym, ◌-◌}
use orca_ts.Plan.Persistent.Round.{drop-cons, step_events, evaluation_events, loop_options, at_task}
use orca_ts.Model.{RuntimeError}
use orca_ts.Loop.Termination.Budget.{new_counter}
use orca_ts.Loop.Execution.Run.{
  LoopState, LoopEvent, take_step, check_stalled, check_guards, decide, evaluate_state, round,
  run_rounds, start_state, execute_loop,
}
use orca_ts.Plan.Persistent.{
  TaskWorld, outcome, task_loop, PlanTask, sequential_task_strategy, Implement,
}
use orca_ts.Base.{
  arith, drop, Bool, ◌≡◌, ◌++◌, ◌<◌, ◌∷◌, length, Result, Text, List, ℕ, some, [], true, false,
  zero, suc, refl, ok, err,
}

module _ {W : Type 0} (implement : Implement W) where
  -- The tasks in turn, up to the first that fails.
  unfoldable pub implement_each :
      List PlanTask → W → List Text → W × Result (List Text) RuntimeError
  implement_each [] w completed = (w, ok completed)
  implement_each (task ∷ tasks) w completed =
      let (w', result) = implement task w in
      elim result [
        | err e ↦ (w', err e)
        | ok _ ↦ implement_each tasks w' (completed ++ task.id ∷ [])
      ]

module _ {W : Type 0} (clock : W → W × ℕ) (tasks : List PlanTask) (implement : Implement W) where
  run_rounds-at_task :
      (after : List PlanTask) (index fuel started : ℕ) (w : W) (completed : List Text)
      (events : List LoopEvent) (total : ℕ) (unknown : Bool) (records : ℕ)
      → drop index tasks ≡ after
      → length after < fuel
      → outcome clock tasks implement (
          run_rounds
            (task_loop clock tasks implement)
            fuel
            started
            (at_task index w completed events total unknown records))
        ≡ some (implement_each implement after w completed)
  unfolding run_rounds task_loop round evaluate_state decide check_guards check_stalled take_step
      implement_each
  run_rounds-at_task after index zero started w completed events total unknown records d h =
      absurd (omega arith)
  run_rounds-at_task [] index (suc fuel) started w completed events total unknown records d h =
      let none_left : length tasks - index ≡ 0 = sym (length-drop index tasks) ∙ ap length d in
      ap (outcome clock tasks implement) (
        run_rounds-done (loop_options clock tasks implement) fuel started _ _ _ (
          ap
            (λ pending.
              decide (loop_options clock tasks implement) started pending
                (at_task index w completed (evaluation_events events) total unknown records))
            none_left))
  run_rounds-at_task (t ∷ ts) index (suc fuel) started w completed events total unknown records d
        h =
      let (here, next, size) = drop-cons tasks index d in
      go (implement t w).1 refl (
        run_rounds-at_task ts (index + 1) fuel started (implement t w).0 (completed ++ t.id ∷ [])
          (step_events (evaluation_events events)) total true records (drop-cons tasks index d).1
          (omega arith))
    where
      s₁ : LoopState (TaskWorld W)
      s₁ = at_task index w completed events total unknown records

      s₂ : LoopState (TaskWorld W)
      s₂ =
          at_task (index + 1) (implement t w).0 (completed ++ t.id ∷ [])
            (step_events (evaluation_events events)) total true records

      begun :
          round (loop_options clock tasks implement) started s₁
          ≡ take_step
              (loop_options clock tasks implement)
              (suc (length ts))
              tt
              (at_task index w completed (evaluation_events events) total unknown records)
      begun =
          round_task clock tasks implement (length ts) index started w completed events total
            unknown records (drop-cons tasks index d).2

      here : get_elem? tasks index ≡ some t
      here = (drop-cons tasks index d).0

      go :
          (r : Result (Unit {0}) RuntimeError)
          → (implement t w).1 ≡ r
          → outcome clock tasks implement
              (run_rounds (loop_options clock tasks implement) fuel started s₂)
            ≡ some (implement_each implement ts (implement t w).0 (completed ++ t.id ∷ []))
          → outcome clock tasks implement
              (run_rounds (loop_options clock tasks implement) (suc fuel) started s₁)
            ≡ some (implement_each implement (t ∷ ts) w completed)
      go (err e) failed more =
          ap (outcome clock tasks implement) (
            run_rounds-done (loop_options clock tasks implement) fuel started _ _ _ (
              begun
              ∙ take_step-failed clock tasks implement t e (suc (length ts)) index w completed
                  (evaluation_events events) total unknown records here failed))
          ∙ rw (failed, implement_each) refl
      go (ok u) went more =
          ap (outcome clock tasks implement) (
            run_rounds-again (loop_options clock tasks implement) fuel started _ _ (
              begun
              ∙ take_step-went clock tasks implement t (suc (length ts)) index w completed
                  (evaluation_events events) total unknown records here went))
          ∙ more
          ∙ rw (went, implement_each) refl

-- With more fuel than there are tasks, the strategy does what a plain pass over the tasks does: it
-- implements each task once, in order, and stops at the first that fails, with its error.
pub sequential_task_strategy-implement_each :
    {W : Type 0} (clock : W → W × ℕ) (tasks : List PlanTask) (implement : Implement W) (fuel : ℕ)
    (w : W)
    → length tasks < fuel
    → sequential_task_strategy clock tasks implement fuel w
      ≡ some (implement_each implement tasks (clock w).0 [])
unfolding sequential_task_strategy execute_loop start_state task_loop new_counter
sequential_task_strategy-implement_each clock tasks implement fuel w h =
    run_rounds-at_task clock tasks implement tasks 0 fuel (clock w).1 (clock w).0 [] [] 0 false 0
      refl h
