-- ===== src/Tests/Review.antt =====
-- Runs of the review strategy of src/review/loop.ts. The world counts reviews and fixes.
use orca_ts.Review.Dedupe.{run_reviewers_parallel-IsDistinct, keys, IsDistinct}
use orca_ts.Review.OnePass.{review_and_fix_strategy-review_then_fix, review_then_fix}
use orca_ts.Review.{
  issue_key, readability, is_seen, run_review_phase, dedupe, test, gather, ReviewerPrompt,
  ReviewAndFixOptions, review_all, ReviewIssue, review_and_fix_strategy, run_reviewers_parallel,
  ReviewerId, ReviewBy,
}
use orca_ts.Base.{
  Text, arith, same, ◌∷◌, text, ◌+◌, ℕ, ◌≡◌, Bool, List, none, some, [], true, false, refl, ok,
}

abbrev prompt_of : ReviewerId → ReviewerPrompt
prompt_of id = record {
  id = id;
  name = none;
  description = none;
  files = none;
  prompt = text "Review.";
}

abbrev found_by : ReviewBy ℕ
found_by p n = (
  n + 1,
  ok (
      record { reviewer = test; message = text "slow"; fixable = true }
      ∷ record { reviewer = p.id; message = text "odd"; fixable = false }
      ∷ []),
)

abbrev review_options : Bool → ReviewAndFixOptions ℕ
review_options parallel = record {
  selected = prompt_of test ∷ prompt_of readability ∷ [];
  review = found_by;
  fix = λ issues n. (n + 10, ok tt);
  parallel = parallel;
  clock = λ n. (n, 0);
}

review_and_fix_strategy-review_then_fix_example :
    review_and_fix_strategy (review_options true) 2 0
    ≡ some (
        review_then_fix
          (review_options true)
          (run_review_phase found_by true (prompt_of test ∷ prompt_of readability ∷ []) 0 []))
review_and_fix_strategy-review_then_fix_example =
    review_and_fix_strategy-review_then_fix (review_options true) 2 0 (omega arith)

abbrev distinct_issues : List ReviewIssue
distinct_issues =
    record { reviewer = test; message = text "slow"; fixable = true }
    ∷ record { reviewer = test; message = text "odd"; fixable = false }
    ∷ record { reviewer = readability; message = text "odd"; fixable = false }
    ∷ []

found_lem :
    (run_reviewers_parallel found_by (prompt_of test ∷ prompt_of readability ∷ []) 0).1
    ≡ ok distinct_issues
unfolding run_reviewers_parallel review_all gather dedupe is_seen issue_key same
found_lem = refl

run_reviewers_parallel-IsDistinct_example :
    (found : List ReviewIssue) × (gather
        (review_all found_by (prompt_of test ∷ prompt_of readability ∷ []) 0).1
      ≡ ok found)
    × IsDistinct (keys distinct_issues)
    × ((key : Text) → is_seen key (keys distinct_issues) ≡ is_seen key (keys found))
run_reviewers_parallel-IsDistinct_example =
    run_reviewers_parallel-IsDistinct found_by (prompt_of test ∷ prompt_of readability ∷ []) 0
      distinct_issues found_lem
