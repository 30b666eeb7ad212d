-- ===== src/Tests/Plan.antt =====
-- Runs of the strategy of src/plan/persistent.ts. The world counts the calls of `implement`.
use orca_ts.Model.{file_system_error}
use orca_ts.Plan.Persistent.InOrder.{sequential_task_strategy-implement_each, implement_each}
use orca_ts.Plan.Persistent.{PlanTask, Implement, sequential_task_strategy}
use orca_ts.Base.{◌==◌, ◌∷◌, arith, if◌then◌else◌, ◌+◌, text, ℕ, ◌≡◌, List, some, [], refl, ok, err}

abbrev plan : List PlanTask
plan =
    record { id = text "a"; description = text "first" }
    ∷ record { id = text "b"; description = text "second" }
    ∷ []

-- The second call fails.
abbrev stumble : Implement ℕ
stumble task n = (n + 1, if n == 1 then err (file_system_error (text "x") (text "full")) else ok tt)

sequential_task_strategy-implement_each_example :
    sequential_task_strategy (λ n. (n, 0)) plan stumble 3 0
    ≡ some (implement_each stumble plan 0 [])
sequential_task_strategy-implement_each_example =
    sequential_task_strategy-implement_each (λ n. (n, 0)) plan stumble 3 0 (omega arith)

stumbled : implement_each stumble plan 0 [] ≡ (2, err (file_system_error (text "x") (text "full")))
unfolding implement_each
stumbled = refl
