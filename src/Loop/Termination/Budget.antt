-- ===== src/Loop/Termination/Budget.antt =====
-- src/loop/termination.ts, `TokenBudgetCounter`.
pub mod Totals
use orca_ts.Base.{
  ℕ, suc, ◌+◌, ◌<◌, ◌≡◌, refl, ◌↔◌, Bool, true, false, not, ◌&&◌, ◌||◌, Option, none, some, List,
  [], ◌∷◌, arith, ltb, or_default, is_none, All,
}
use orca_ts.Model.{Usage}

unfoldable pub usage_tokens : Usage → ℕ
usage_tokens usage = usage.input + usage.output + or_default usage.reasoning 0

pub record TokenBudgetCounter : Type 0 where
  pub budget : Option ℕ
  pub known_total : ℕ
  pub unknown : Bool
  pub known_records : ℕ

unfoldable pub new_counter : Option ℕ → TokenBudgetCounter
new_counter budget = record { budget = budget; known_total = 0; unknown = false; known_records = 0 }

-- The method `record`.
unfoldable pub record_usage : Option Usage → TokenBudgetCounter → TokenBudgetCounter
unfolding usage_tokens
record_usage none c = record c { unknown = true }
record_usage (some usage) c = record c {
  known_records = c.known_records + 1;
  known_total = c.known_total + usage_tokens usage;
}

unfoldable pub should_report : TokenBudgetCounter → Bool
should_report c = not (is_none c.budget) || ltb 0 c.known_records

abbrev above : Option ℕ → ℕ → Bool
above none total = false
above (some budget) total = ltb budget total

unfoldable pub exhausted : TokenBudgetCounter → Bool
exhausted c = not c.unknown && above c.budget c.known_total

-- The two shapes of a summary, each with the budget if there is one.
pub data TokenUsageSummary : Type 0 where
  known : (total : ℕ) (budget : Option ℕ) → TokenUsageSummary
  unknown : (known_total : ℕ) (budget : Option ℕ) → TokenUsageSummary

abbrev summary_of : Bool → ℕ → Option ℕ → TokenUsageSummary
summary_of true total budget = unknown total budget
summary_of false total budget = known total budget

unfoldable pub summary : TokenBudgetCounter → TokenUsageSummary
summary c = summary_of c.unknown c.known_total c.budget

-- A counter after a history of reports.
unfoldable pub record_all : List (Option Usage) → TokenBudgetCounter → TokenBudgetCounter
record_all [] c = c
record_all (u ∷ us) c = record_all us (record_usage u c)
