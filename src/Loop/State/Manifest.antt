-- ===== src/Loop/State/Manifest.antt =====
-- src/loop/state/manifest.ts. The schema of a manifest, zod's, is an argument.
pub mod Counting
use orca_ts.Model.{RuntimeError, Value}
use orca_ts.Model.Events.{Schema, parse_structured_output}
use orca_ts.Base.{◌+◌, Result, if◌then◌else◌, ◌∷◌, ◌==◌, ◌-◌, Bool, length, ℕ, Text, List, []}

pub record ManifestTask : Type 0 where
  pub id : Text
  pub passes : Bool

pub record TaskManifest : Type 0 where
  pub tasks : List ManifestTask

unfoldable pub parse_manifest : Schema TaskManifest → Value → Result TaskManifest RuntimeError
unfolding parse_structured_output
parse_manifest schema raw = parse_structured_output schema raw

-- The tasks are counted from the left, as `reduce` does.
unfoldable pub count_pending : ℕ → List ManifestTask → ℕ
count_pending pending [] = pending
count_pending pending (task ∷ tasks) =
    count_pending (if task.passes then pending else pending + 1) tasks

unfoldable pub measure : TaskManifest → ℕ
unfolding count_pending
measure manifest = count_pending 0 manifest.tasks

-- A fraction, for the number that the code divides.
pub record Fraction : Type 0 where
  pub over : ℕ
  pub under : ℕ

pub record ManifestProgress : Type 0 where
  pub total : ℕ
  pub passed : ℕ
  pub pending : ℕ
  pub ratio : Fraction

unfoldable pub progress : TaskManifest → ManifestProgress
unfolding measure
progress manifest =
    let total = length manifest.tasks in
    let pending = measure manifest in
    record {
      total = total;
      passed = total - pending;
      pending = pending;
      ratio =
          if total == 0
          then record { over = 1; under = 1 }
          else record { over = total - pending; under = total };
    }

unfoldable pub is_complete : TaskManifest → Bool
unfolding measure
is_complete manifest = measure manifest == 0
