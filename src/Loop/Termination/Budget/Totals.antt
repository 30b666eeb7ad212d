-- ===== src/Loop/Termination/Budget/Totals.antt =====
-- What the counter says after a history of reports.
use orca_ts.Base.{
  ℕ, ◌+◌, ◌≡◌, Bool, ◌||◌, Option, none, some, List, [], ◌∷◌, arith, is_none, any, if◌then◌else◌,
}
use orca_ts.Model.{Usage}
use orca_ts.Loop.Termination.Budget.{
  TokenBudgetCounter, known, unknown, usage_tokens, new_counter, record_usage, summary, record_all,
}

-- The tokens of the reports that say a number.
pub reported_tokens : List (Option Usage) → ℕ
reported_tokens [] = 0
reported_tokens (none ∷ us) = reported_tokens us
reported_tokens (some u ∷ us) = usage_tokens u + reported_tokens us

abbrev pub is_silent : List (Option Usage) → Bool
is_silent us = any is_none us

record_all-fields :
    (us : List (Option Usage)) (c : TokenBudgetCounter)
    → let d = record_all us c in
      (d.budget ≡ c.budget)
      × (d.known_total ≡ c.known_total + reported_tokens us)
      × (d.unknown ≡ (c.unknown || is_silent us))
unfolding record_all record_usage reported_tokens
record_all-fields [] c = ground arith
record_all-fields (none ∷ us) c = ground (arith, record_all-fields us (record_usage none c))
record_all-fields (some u ∷ us) c = ground (arith, record_all-fields us (record_usage (some u) c))

-- The summary totals the reports that gave a number, and calls the total known exactly when no
-- report was missing; it repeats the budget.
pub summary-record_all :
    (budget : Option ℕ) (us : List (Option Usage))
    → summary (record_all us (new_counter budget)) ≡ (
        if is_silent us
        then unknown (reported_tokens us) budget
        else known (reported_tokens us) budget)
unfolding summary new_counter
summary-record_all budget us = ground (arith, record_all-fields us (new_counter budget))
