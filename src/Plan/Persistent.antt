-- ===== src/Plan/Persistent.antt =====
-- src/plan/persistent.ts: the file of a plan, and the strategy that implements its tasks by the loop of
-- src/loop/execution.ts. Its variables `completed` and `index` stand in the world of that loop.
pub mod Round
pub mod InOrder
use orca_ts.Loop.Execution.Run.{LoopExecutionSummary, LoopState, execute_loop, LoopExecutionOptions}
use orca_ts.Model.{end, obj, Value, RuntimeError, Platform, FsTool}
use orca_ts.Base.{
  Bool, true, zero, suc, max, get_elem?, ◌+◌, if◌then◌else◌, ◌==◌, ◌-◌, length, ◌++◌, text, Option,
  ◌>>=◌, ◌∷◌, take, List, ℕ, Result, Text, none, some, [], false, ok, err,
}

pub record PlanTask : Type 0 where
  pub id : Text
  pub description : Text

unfoldable pub plan_hash : Platform → Text → Text
plan_hash platform input = take 12 (platform.sha256_hex input)

unfoldable pub default_plan_path : Platform → Text → Text → Text
unfolding plan_hash
default_plan_path platform root input =
    platform.join_path
      (root ∷ text ".orca" ∷ (text "plan-" ++ plan_hash platform input ++ text ".md") ∷ [])

unfoldable pub write_plan :
    {W : Type 0} → Platform → FsTool W → Text → Text → Text → W → W × Result Text RuntimeError
unfolding default_plan_path
write_plan platform fs root input content w =
    let path = default_plan_path platform root input in
    let (w', written) = fs.write_text path content w in (w', written >>= λ _. ok path)

unfoldable pub recover_plan : {W : Type 0} → FsTool W → Text → W → W × Result Text RuntimeError
recover_plan fs path w = fs.read_text path w

-- `pending === 0`.
abbrev pub is_zero : ℕ → Bool
is_zero zero = true
is_zero (suc n) = false

pub record TaskWorld (W : Type 0) : Type 0 where
  pub host : W
  pub index : ℕ
  pub completed : List Text

-- The callback `implement`, which answers nothing but a failure.
abbrev pub Implement : Type 0 → Type 0
Implement W = PlanTask → W → W × Result (Unit {0}) RuntimeError

module _ {W : Type 0} (clock : W → W × ℕ) (tasks : List PlanTask) (implement : Implement W) where
  unfoldable pub implement_next :
      Option PlanTask → TaskWorld W → TaskWorld W × Result Value RuntimeError
  implement_next none w = (w, ok (obj end))
  implement_next (some task) w =
      let (host, result) = implement task w.host in
      elim result [
        | err e ↦ (record w { host = host }, err e)
        | ok _ ↦ (
          record { host = host; index = w.index + 1; completed = w.completed ++ task.id ∷ [] },
          ok (obj end),
        )
      ]

  -- The state is `pending`, the only action `IMPLEMENT_TASK_ACTION`.
  unfoldable pub task_loop : LoopExecutionOptions ℕ (Unit {0}) (TaskWorld W)
  unfolding implement_next
  task_loop = record {
    evaluate = λ w. (w, ok (length tasks - w.index));
    converged = is_zero;
    next_action = λ pending. if is_zero pending then none else some tt;
    execute = λ action pending iteration w. implement_next (get_elem? tasks w.index) w;
    max_iterations = some (max (length tasks) 1);
    wall_clock_ms = none;
    token_budget = none;
    stalled = λ pending action w. (w, false);
    fingerprint = none;
    fingerprint_action = λ action. text "implement-task";
    now = λ w. let (host, time) = clock w.host in (record w { host = host }, time);
    context = none;
    on_cycle = λ progress w. w;
  }

  -- What comes back of the loop's answer: the completed tasks, where it succeeds.
  abbrev pub outcome :
      Option (LoopState (TaskWorld W) × Result (LoopExecutionSummary ℕ) RuntimeError)
      → Option (W × Result (List Text) RuntimeError)
  outcome none = none
  outcome (some (s, err e)) = some (s.world.host, err e)
  outcome (some (s, ok summary)) = some (s.world.host, ok s.world.completed)

  unfoldable pub sequential_task_strategy : ℕ → W → Option (W × Result (List Text) RuntimeError)
  unfolding task_loop
  sequential_task_strategy fuel w =
      outcome (execute_loop task_loop fuel (record { host = w; index = 0; completed = [] }))
