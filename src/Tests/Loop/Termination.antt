-- ===== src/Tests/Loop/Termination.antt =====
-- The token budget and the stuck detector at concrete inputs.
use orca_ts.Base.{◌≡◌, refl, true, Option, none, some, List, [], ◌∷◌, leb, Text, text, same}
use orca_ts.Model.{Usage}
use orca_ts.Loop.Termination.Budget.{unknown, new_counter, summary, record_all}
use orca_ts.Loop.Termination.Budget.Totals.{reported_tokens, summary-record_all}
use orca_ts.Loop.Termination.Detector.{make_detector, observe, observe_all}
use orca_ts.Loop.Termination.Detector.Window.{
  count, last, observe_all-stuck, observe-IsTallied, make_detector-IsTallied, IsTallied,
}

abbrev small : Usage
small = record { input = 3; output = 4; reasoning = some 2 }

abbrev reports : List (Option Usage)
reports = some small ∷ none ∷ some small ∷ []

summary-record_all_example :
    summary (record_all reports (new_counter (some 10)))
    ≡ unknown (reported_tokens reports) (some 10)
summary-record_all_example = summary-record_all (some 10) reports

-- A, B, A: the second A is within the window of three.
abbrev calls : List (Option Text)
calls = some (text "A") ∷ none ∷ some (text "B") ∷ []

repeat_is_stuck : (observe (some (text "A")) (observe_all calls (make_detector none none))).1 ≡ true
unfolding observe observe_all make_detector same
repeat_is_stuck = refl

observe_all-stuck_example :
    (observe (some (text "A")) (observe_all calls (make_detector none none))).1
    ≡ leb 2 (count (text "A") (last 3 (text "A" ∷ text "B" ∷ text "A" ∷ [])))
observe_all-stuck_example = observe_all-stuck none none calls (text "A")

observe-IsTallied_example : IsTallied (observe (some (text "A")) (make_detector none none)).0
observe-IsTallied_example =
    observe-IsTallied (some (text "A")) (make_detector none none)
      (make_detector-IsTallied none none)
