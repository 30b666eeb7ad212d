-- ===== src/Tests/Loop/FanOut.antt =====
-- Branches and joins at concrete inputs.
use orca_ts.Loop.FanOut.Spread.{in_turn-RunsAll, fan_out-IsNumbered, IsNumbered}
use orca_ts.Loop.FanOut.Selection.{fan_in-IsFanIn, IsFanIn, fan_in_total}
use orca_ts.Loop.FanOut.Branches.{
  in_turn, FanOutSpec, fan_out, failed, length-condense, truncation, succeeded, BranchOutcome,
  condense, BranchSummary,
}
use orca_ts.Base.{
  ◌<◌, suc, err, refl, ok, max, arith, [], ◌∷◌, ◌≤◌, ◌≢◌, ◌≡◌, text, some, same, Text, none, List,
  length, ℕ,
}
use orca_ts.Loop.FanOut.Join.{
  quorum, apply_partial_failure_policy, select_by_policy, agreement_key, race, select_quorum,
  Success, FanInOptions, fan_in,
}
use orca_ts.Model.{str, Value}
use orca_ts.Loop.FanOut.Quorum.{select_quorum-Verdict, Verdict}

abbrev long : BranchSummary
long = record { summary = text "a summary of twenty."; payload = none }

length-condense_example :
    (length (condense long 15).summary ≤ max 15 (length truncation))
    × (length long.summary ≤ 15 → condense long 15 ≡ long)
    × ((condense long 15).payload ≡ none)
length-condense_example = length-condense long 15

abbrev answer : ℕ → Text → ℕ → Success
answer i t ms = record {
  index = i;
  summary = record { summary = t; payload = none };
  elapsed_ms = ms;
}

abbrev yes_no_yes : List Success
yes_no_yes = answer 0 (text "yes") 30 ∷ answer 1 (text "no") 10 ∷ answer 2 (text "yes") 20 ∷ []

abbrev said : Success → Text
said o = o.summary.summary

yes_wins :
    select_quorum said yes_no_yes (some 2)
    ≡ ok (answer 0 (text "yes") 30 ∷ answer 2 (text "yes") 20 ∷ [])
unfolding select_quorum same
yes_wins = refl

select_quorum-Verdict_example : Verdict said 2 yes_no_yes (select_quorum said yes_no_yes (some 2))
select_quorum-Verdict_example = select_quorum-Verdict said 2 yes_no_yes (omega arith)

-- A host whose JSON text of a string is the string.
abbrev spelled : Value → Text
spelled (str t) = t
spelled v = []

abbrev counted : FanInOptions ℕ
counted = record {
  reducer = length;
  on_partial_failure = none;
  quorum_size = some 2;
  agree_by = none;
}

abbrev outcomes : List BranchOutcome
outcomes =
    succeeded 0 (record { summary = text "yes"; payload = none }) 30
    ∷ failed 1 (text "lost") 5
    ∷ succeeded 2 (record { summary = text "yes"; payload = none }) 20
    ∷ []

fan_in-IsFanIn_example : IsFanIn spelled counted quorum outcomes 2
unfolding fan_in select_quorum same agreement_key select_by_policy apply_partial_failure_policy
fan_in-IsFanIn_example = fan_in-IsFanIn spelled counted quorum outcomes 2 refl

fan_in_total_example : fan_in spelled counted race outcomes ≢ none
fan_in_total_example = fan_in_total spelled counted race outcomes

-- The world is a clock that advances when it is read; the second branch fails.
abbrev pair : FanOutSpec ℕ ℕ
pair = record {
  state = 7;
  branches =
      (λ s w. (w, ok (record { summary = text "done"; payload = none })))
      ∷ (λ s w. (w, err (text "lost")))
      ∷ [];
  max_concurrency = 1;
  summary_budget_chars = none;
}

abbrev tick : ℕ → ℕ × ℕ
tick w = (suc w, w)

abbrev back : List BranchOutcome
back =
    succeeded 0 (record { summary = text "done"; payload = none }) 1 ∷ failed 1 (text "lost") 1 ∷ []

pair_comes_back : (fan_out tick in_turn pair 0).1 ≡ ok back
unfolding fan_out in_turn condense
pair_comes_back = refl

fan_out-IsNumbered_example : IsNumbered 6000 0 back × (length back ≡ 2) × (0 < 2) × (0 < 1)
fan_out-IsNumbered_example =
    fan_out-IsNumbered tick in_turn pair 0 back in_turn-RunsAll pair_comes_back
