-- ===== src/Review.antt =====
-- src/review/loop.ts: the review and fix strategy over the loop of src/loop/execution.ts, with the
-- choice of reviewers of src/review/reviewers.ts. The prompts are an argument, as their files are read by
-- the code.
pub mod Dedupe
pub mod OnePass
use orca_ts.Model.{end, obj, Value, RuntimeError}
use orca_ts.Plan.Persistent.{is_zero}
use orca_ts.Loop.Execution.Run.{LoopExecutionSummary, execute_loop, LoopState, LoopExecutionOptions}
use orca_ts.Base.{
  ◌&&◌, is_none, ◌||◌, and_then, length, ◌>>=◌, if◌then◌else◌, ◌++◌, filter, ◌∷◌, zero, text, map,
  List, Text, Option, Result, ℕ, Bool, same, none, some, [], true, false, ok, err,
}

pub data ReviewerId : Type 0 where
  code_functionality test readability code_structure simplicity performance security scala_fp :
      ReviewerId

abbrev pub reviewer_name : ReviewerId → Text
reviewer_name code_functionality = text "code-functionality"
reviewer_name test = text "test"
reviewer_name readability = text "readability"
reviewer_name code_structure = text "code-structure"
reviewer_name simplicity = text "simplicity"
reviewer_name performance = text "performance"
reviewer_name security = text "security"
reviewer_name scala_fp = text "scala-fp"

pub record ReviewerPrompt : Type 0 where
  pub id : ReviewerId
  pub name : Option Text
  pub description : Option Text
  pub files : Option Text
  pub prompt : Text

-- `byId.get`: of two prompts with one id, the map holds the later.
unfoldable pub prompt_by_id : ReviewerId → List ReviewerPrompt → Option ReviewerPrompt
unfolding same
prompt_by_id id [] = none
prompt_by_id id (p ∷ ps) =
    let later = prompt_by_id id ps in
    if is_none later && same (reviewer_name p.id) (reviewer_name id) then some p else later

-- `none` is the error that is thrown for a prompt that is not loaded.
unfoldable pub select_reviewers :
    List ReviewerPrompt → List ReviewerId → Option (List ReviewerPrompt)
unfolding prompt_by_id
select_reviewers prompts [] = some []
select_reviewers prompts (id ∷ ids) =
    and_then (prompt_by_id id prompts)
      λ p. and_then (select_reviewers prompts ids) λ ps. some (p ∷ ps)

abbrev pub default_reviewers : List ReviewerId
default_reviewers = code_functionality ∷ readability ∷ test ∷ []

pub record ReviewIssue : Type 0 where
  pub reviewer : ReviewerId
  pub message : Text
  pub fixable : Bool

unfoldable pub issue_key : ReviewIssue → Text
issue_key i = reviewer_name i.reviewer ++ text "::" ++ i.message

-- `seen.has`.
unfoldable pub is_seen : Text → List Text → Bool
unfolding same
is_seen key [] = false
is_seen key (k ∷ ks) = same key k || is_seen key ks

-- The filter that keeps the first issue of each key.
unfoldable pub dedupe : List Text → List ReviewIssue → List ReviewIssue
unfolding is_seen issue_key
dedupe seen [] = []
dedupe seen (i ∷ is) =
    let old = dedupe seen is in
    let new = dedupe (issue_key i ∷ seen) is in if is_seen (issue_key i) seen then old else i ∷ new

abbrev pub ReviewBy : Type 0 → Type 0
ReviewBy W = ReviewerPrompt → W → W × Result (List ReviewIssue) RuntimeError

unfoldable pub gather :
    List (Result (List ReviewIssue) RuntimeError) → Result (List ReviewIssue) RuntimeError
gather [] = ok []
gather (r ∷ rs) = r >>= λ is. gather rs >>= λ js. ok (is ++ js)

-- A review pass: the world, the events, the issues.
abbrev pub Pass : Type 0 → Type 0
Pass W = W × List Text × Result (List ReviewIssue) RuntimeError

abbrev pub event_of : ReviewerId → Text → Text
event_of id what = text "review:" ++ reviewer_name id ++ what

abbrev pub close_parallel :
    {W : Type 0} → W × Result (List ReviewIssue) RuntimeError → List Text → Pass W
close_parallel (w, err e) events = (w, events ++ text "review:parallel:started" ∷ [], err e)
close_parallel (w, ok issues) events =
    (w, events ++ text "review:parallel:started" ∷ text "review:parallel:completed" ∷ [], ok issues)

module _ {W : Type 0} (review : ReviewBy W) where
  -- `Promise.all`: every review runs, whatever the others answer.
  unfoldable pub review_all :
      List ReviewerPrompt → W → W × List (Result (List ReviewIssue) RuntimeError)
  review_all [] w = (w, [])
  review_all (p ∷ ps) w =
      let (w₁, r) = review p w in let (w₂, rs) = review_all ps w₁ in (w₂, r ∷ rs)

  unfoldable pub run_reviewers_parallel :
      List ReviewerPrompt → W → W × Result (List ReviewIssue) RuntimeError
  unfolding review_all gather dedupe
  run_reviewers_parallel reviewers w =
      let (w', results) = review_all reviewers w in
      (w', gather results >>= λ issues. ok (dedupe [] issues))

  unfoldable pub review_in_turn : List ReviewerPrompt → W → List Text → List ReviewIssue → Pass W
  review_in_turn [] w events collected = (w, events, ok collected)
  review_in_turn (p ∷ ps) w events collected =
      let (w', r) = review p w in
      let started = events ++ event_of p.id (text ":started") ∷ [] in
      elim r [
        | err e ↦ (w', started, err e)
        | ok issues ↦
            review_in_turn ps w' (started ++ event_of p.id (text ":completed") ∷ [])
              (collected ++ issues)
      ]

  unfoldable pub run_review_phase : Bool → List ReviewerPrompt → W → List Text → Pass W
  unfolding run_reviewers_parallel review_in_turn
  run_review_phase true selected w events =
      close_parallel (run_reviewers_parallel selected w) events
  run_review_phase false selected w events = review_in_turn selected w events []

-- The variables of the strategy; `in_review` says that the phase is `review`.
pub record ReviewWorld (W : Type 0) : Type 0 where
  pub host : W
  pub issues : List ReviewIssue
  pub fixable : List ReviewIssue
  pub in_review : Bool
  pub fixed : Bool
  pub events : List Text

pub record ReviewLoopSummary : Type 0 where
  pub selected : List ReviewerId
  pub issues : List ReviewIssue
  pub fixed : Bool
  pub events : List Text

pub record ReviewAndFixOptions (W : Type 0) : Type 0 where
  pub selected : List ReviewerPrompt
  pub review : ReviewBy W
  pub fix : List ReviewIssue → W → W × Result (Unit {0}) RuntimeError
  pub parallel : Bool
  pub clock : W → W × ℕ

abbrev pub fixable_of : List ReviewIssue → List ReviewIssue
fixable_of issues = filter (λ i. i.fixable) issues

module _ {W : Type 0} (options : ReviewAndFixOptions W) where
  abbrev pub after_pass :
      W
      → List Text
      → Result (List ReviewIssue) RuntimeError
      → ReviewWorld W
      → ReviewWorld W × Result ℕ RuntimeError
  after_pass host events (err e) w = (record w { host = host; events = events }, err e)
  after_pass host events (ok issues) w = (
    record w { host = host; events = events; issues = issues; fixable = fixable_of issues },
    ok (length (fixable_of issues)),
  )

  unfoldable pub evaluate_review : Bool → ReviewWorld W → ReviewWorld W × Result ℕ RuntimeError
  unfolding run_review_phase
  evaluate_review true w =
      let (host, events, reviewed) =
        run_review_phase options.review options.parallel options.selected w.host w.events in
      after_pass host events reviewed w
  evaluate_review false w = (w, ok 0)

  abbrev pub after_fix :
      W × Result (Unit {0}) RuntimeError → ReviewWorld W → ReviewWorld W × Result Value RuntimeError
  after_fix (host, err e) w =
      (record w { host = host; events = w.events ++ text "fix:started" ∷ [] }, err e)
  after_fix (host, ok _) w = (
    record w {
      host = host;
      events = w.events ++ text "fix:started" ∷ text "fix:completed" ∷ [];
      fixed = true;
      in_review = false;
    },
    ok (obj end),
  )

  -- The state is `fixableRemaining`, the only action `REVIEW_FIX_ACTION`.
  unfoldable pub review_loop : LoopExecutionOptions ℕ (Unit {0}) (ReviewWorld W)
  unfolding evaluate_review
  review_loop = record {
    evaluate = λ w. evaluate_review w.in_review w;
    converged = is_zero;
    next_action = λ remaining. if is_zero remaining then none else some tt;
    execute = λ action remaining iteration w. after_fix (options.fix w.fixable w.host) w;
    max_iterations = some 1;
    wall_clock_ms = none;
    token_budget = none;
    stalled = λ remaining action w. (w, false);
    fingerprint = none;
    fingerprint_action = λ action. text "review-fix";
    now = λ w. let (host, time) = options.clock w.host in (record w { host = host }, time);
    context = none;
    on_cycle = λ progress w. w;
  }

  abbrev pub summary_of : ReviewWorld W → ReviewLoopSummary
  summary_of w = record {
    selected = map (λ p. p.id) options.selected;
    issues = w.issues;
    fixed = w.fixed;
    events = w.events;
  }

  -- What comes back of the loop's answer.
  abbrev pub review_outcome :
      Option (LoopState (ReviewWorld W) × Result (LoopExecutionSummary ℕ) RuntimeError)
      → Option (W × Result ReviewLoopSummary RuntimeError)
  review_outcome none = none
  review_outcome (some (s, err e)) = some (s.world.host, err e)
  review_outcome (some (s, ok summary)) = some (s.world.host, ok (summary_of s.world))

  abbrev pub start_review : W → ReviewWorld W
  start_review w = record {
    host = w;
    issues = [];
    fixable = [];
    in_review = true;
    fixed = false;
    events = [];
  }

  unfoldable pub review_and_fix_strategy :
      ℕ → W → Option (W × Result ReviewLoopSummary RuntimeError)
  unfolding review_loop
  review_and_fix_strategy fuel w = review_outcome (execute_loop review_loop fuel (start_review w))
