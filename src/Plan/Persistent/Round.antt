-- ===== src/Plan/Persistent/Round.antt =====
-- A round of the strategy's loop.
-- A state of the loop at the start of a round: without a budget, a detector or a context.
use orca_ts.Loop.Execution.Run.{done}
use orca_ts.Loop.Termination.Budget.{exhausted, record_usage}
use orca_ts.Loop.Execution.Step.{LoopExecutionStop, normalize_step_result}
use orca_ts.Model.{end, Value, obj, RuntimeError}
use orca_ts.Plan.Persistent.{TaskWorld, task_loop, implement_next, Implement, PlanTask}
use orca_ts.Loop.Execution.Run.{
  again, finish, record_managed, Round, after_step, complete_step, check_stalled,
  evaluate_completed, evaluate_state, fix_completed, round, check_guards, LoopExecutionOptions,
  LoopState, evaluate_started, fix_started, take_step, decide, LoopEvent,
}
use orca_ts.Base.{
  Option, ◌∙◌, max, ap, ◌-◌, leb, Result, length, get_elem?, ◌∷◌, arith, ◌++◌, Bool, ◌≡◌, drop,
  Text, ◌+◌, List, ℕ, none, some, [], true, false, zero, suc, refl, ok, err,
}

abbrev pub at_task :
    {W : Type 0} → ℕ → W → List Text → List LoopEvent → ℕ → Bool → ℕ → LoopState (TaskWorld W)
at_task index w completed events total unknown records = record {
  world = record { host = w; index = index; completed = completed };
  events = events;
  budget = record {
    budget = none;
    known_total = total;
    unknown = unknown;
    known_records = records;
  };
  detector = none;
  managed = none;
  iterations = index;
}

plus_one : (i : ℕ) → suc i + 1 ≡ suc (i + 1)
plus_one i = omega arith

-- What is left from a place on, where something is.
pub drop-cons :
    {A : Type 0} (xs : List A) (i : ℕ) {a : A} {rest : List A}
    → drop i xs ≡ a ∷ rest
    → (get_elem? xs i ≡ some a) × (drop (i + 1) xs ≡ rest) × (length xs ≡ i + suc (length rest))
drop-cons [] zero h = cc
drop-cons [] (suc i) h = cc
drop-cons (x ∷ xs) zero h = (cc, cc, ground (arith, ap length h))
drop-cons (x ∷ xs) (suc i) h =
    let (a, b, c) = drop-cons xs i h in
    (a, ap (λ j. drop j (x ∷ xs)) (plus_one i) ∙ b, omega (arith, c))

abbrev pub step_events : List LoopEvent → List LoopEvent
step_events events = (events ++ fix_started ∷ []) ++ fix_completed ∷ []

abbrev pub evaluation_events : List LoopEvent → List LoopEvent
evaluation_events events = (events ++ evaluate_started ∷ []) ++ evaluate_completed ∷ []

module _ {W : Type 0} (clock : W → W × ℕ) (tasks : List PlanTask) (implement : Implement W) where
  abbrev pub loop_options : LoopExecutionOptions ℕ (Unit {0}) (TaskWorld W)
  loop_options = task_loop clock tasks implement

  check_guards-none :
      (pending started : ℕ) (s : LoopState (TaskWorld W))
      → s.detector ≡ none
      → leb (max (length tasks) 1) s.iterations ≡ false
      → check_guards loop_options started pending tt (record s { detector = none })
        ≡ (record s { detector = none }, none)
  unfolding check_guards task_loop check_stalled
  check_guards-none pending started s e below = rw (below, check_guards) refl

  -- With a task left, no guard stops the loop.
  decide_task :
      (others started index : ℕ) (w : W) (completed : List Text) (events : List LoopEvent)
      (total : ℕ) (unknown : Bool) (records : ℕ)
      → leb (max (length tasks) 1) index ≡ false
      → decide loop_options started
          (suc others)
          (at_task index w completed events total unknown records)
        ≡ take_step loop_options
            (suc others)
            tt
            (at_task index w completed events total unknown records)
  unfolding decide task_loop check_guards check_stalled
  decide_task others started index w completed events total unknown records below =
      ap
        (λ ((s, stop) : LoopState (TaskWorld W) × Option LoopExecutionStop). elim stop [
          | some r ↦ finish (suc others) r s
          | none ↦ take_step loop_options (suc others) tt s
        ])
        (check_guards-none (suc others) started
          (at_task index w completed events total unknown records) refl below)

  -- What a step does with the answer of `execute`.
  abbrev continue :
      ℕ → LoopState (TaskWorld W) → TaskWorld W × Result Value RuntimeError → Round ℕ (TaskWorld W)
  continue pending s (world, r) = elim r [
    | err e ↦ done (record s { world = world }) (err e)
    | ok value ↦ complete_step loop_options (normalize_step_result value) (record s {
      world = world;
      events = s.events ++ fix_completed ∷ [];
      iterations = s.iterations + 1;
    })
  ]

  implement_next-failed :
      (t : PlanTask) (e : RuntimeError) (index : ℕ) (w : W) (completed : List Text)
      → get_elem? tasks index ≡ some t
      → (implement t w).1 ≡ err e
      → implement_next clock tasks implement
          (get_elem? tasks index)
          (record { host = w; index = index; completed = completed })
        ≡ (record { host = (implement t w).0; index = index; completed = completed }, err e)
  unfolding implement_next
  implement_next-failed t e index w completed here failed =
      rw (here, implement_next) (rw (failed) refl)

  implement_next-went :
      (t : PlanTask) (index : ℕ) (w : W) (completed : List Text)
      → get_elem? tasks index ≡ some t
      → (implement t w).1 ≡ ok tt
      → implement_next clock tasks implement
          (get_elem? tasks index)
          (record { host = w; index = index; completed = completed })
        ≡ (
          record {
            host = (implement t w).0;
            index = index + 1;
            completed = completed ++ t.id ∷ [];
          },
          ok (obj end),
        )
  unfolding implement_next
  implement_next-went t index w completed here went = rw (here, implement_next) (rw (went) refl)

  pub take_step-failed :
      (t : PlanTask) (e : RuntimeError) (pending index : ℕ) (w : W) (completed : List Text)
      (events : List LoopEvent) (total : ℕ) (unknown : Bool) (records : ℕ)
      → get_elem? tasks index ≡ some t
      → (implement t w).1 ≡ err e
      → take_step loop_options pending tt (at_task index w completed events total unknown records)
        ≡ done
            (at_task index
              (implement t w).0
              completed
              (events ++ fix_started ∷ [])
              total
              unknown
              records)
            (err e)
  unfolding take_step task_loop implement_next
  take_step-failed t e pending index w completed events total unknown records here failed =
      ap
        (continue pending
          (at_task index w completed (events ++ fix_started ∷ []) total unknown records))
        (implement_next-failed t e index w completed here failed)

  pub take_step-went :
      (t : PlanTask) (pending index : ℕ) (w : W) (completed : List Text) (events : List LoopEvent)
      (total : ℕ) (unknown : Bool) (records : ℕ)
      → get_elem? tasks index ≡ some t
      → (implement t w).1 ≡ ok tt
      → take_step loop_options pending tt (at_task index w completed events total unknown records)
        ≡ again (
            at_task
              (index + 1)
              (implement t w).0
              (completed ++ t.id ∷ [])
              (step_events events)
              total
              true
              records)
  unfolding take_step task_loop implement_next complete_step after_step record_managed
      normalize_step_result record_usage exhausted
  take_step-went t pending index w completed events total unknown records here went =
      ap
        (continue pending
          (at_task index w completed (events ++ fix_started ∷ []) total unknown records))
        (implement_next-went t index w completed here went)

  -- A round with a task left takes a step.
  pub round_task :
      (others index started : ℕ) (w : W) (completed : List Text) (events : List LoopEvent)
      (total : ℕ) (unknown : Bool) (records : ℕ)
      → length tasks ≡ index + suc others
      → round loop_options started (at_task index w completed events total unknown records)
        ≡ take_step loop_options
            (suc others)
            tt
            (at_task index w completed (evaluation_events events) total unknown records)
  unfolding round evaluate_state task_loop
  round_task others index started w completed events total unknown records size =
      let left : length tasks - index ≡ suc others = omega arith in
      let below : leb (max (length tasks) 1) index ≡ false = ground arith in
      ap
        (λ pending.
          decide loop_options started pending
            (at_task index w completed (evaluation_events events) total unknown records))
        left
      ∙ decide_task others started index w completed (evaluation_events events) total unknown
          records below
