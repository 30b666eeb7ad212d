-- ===== src/Loop/Execution/Step.antt =====
-- src/loop/execution.ts: what one step reports, and how it is read from a value of unknown shape.
-- A property that an object lacks is `undefined`; an array has none of the properties read here.
pub mod Encode
use orca_ts.Base.{
  ℕ, Bool, true, false, Option, none, some, List, [], ◌∷◌, if◌then◌else◌, Text, text, same,
}
use orca_ts.Model.{
  Usage, Value, null, bool, num, str, arr, obj, Items, nil, cons, Fields, end, field,
}
use orca_ts.Loop.Context.Compaction.{CompactionStage, mask, prune, summarize, Observation}

pub data LoopExecutionStop : Type 0 where
  converged unfixable stuck timeout ceiling budget_exhausted cancelled : LoopExecutionStop

pub record LoopContextPressure : Type 0 where
  pub offload_count : ℕ
  pub compaction_stages : List CompactionStage
  pub tokens_before : ℕ
  pub tokens_after : ℕ
  pub observation_count : ℕ

pub data StageStatus : Type 0 where
  completed failed : StageStatus

pub record BranchObservation : Type 0 where
  pub id : Text
  pub status : StageStatus
  pub usage : Option Usage

pub record LoopExecutionStepResult : Type 0 where
  pub usage : Option Usage
  pub observations : Option (List Observation)
  pub branches : Option (List BranchObservation)
  pub measure : Option ℕ
  pub stop_reason : Option LoopExecutionStop
  pub context_pressure : Option LoopContextPressure

abbrev pub no_step : LoopExecutionStepResult
no_step = record {
  usage = none;
  observations = none;
  branches = none;
  measure = none;
  stop_reason = none;
  context_pressure = none;
}

infixl 5 ◌>>=◌
abbrev pub ◌>>=◌ {ℓ κ} : {A : Type ℓ} {B : Type κ} → Option A → (A → Option B) → Option B
none >>= k = none
some a >>= k = k a

-- `record.key` where the object has it.
unfoldable pub property : Text → Fields → Option Value
unfolding same
property k end = none
property k (field j v fs) = if same j k then some v else property k fs

abbrev pub as_num : Value → Option ℕ
as_num (num n) = some n
as_num _ = none

abbrev pub as_str : Value → Option Text
as_str (str s) = some s
as_str _ = none

-- An optional property that is refused when it is present and of another type.
abbrev pub optional_num : Option Value → Option (Option ℕ)
optional_num none = some none
optional_num (some (num n)) = some (some n)
optional_num (some _) = none

usage_of : Value → Option Usage
unfolding property
usage_of (obj fs) = do
  input ← property (text "input") fs >>= as_num
  output ← property (text "output") fs >>= as_num
  reasoning ← optional_num (property (text "reasoning") fs)
  some (record { input = input; output = output; reasoning = reasoning })
usage_of _ = none

unfoldable pub usage_from_step_result : Fields → Option Usage
unfolding usage_of property
usage_from_step_result fs = property (text "usage") fs >>= usage_of

-- `record.pinned === true ? { pinned: true } : {}`.
abbrev pinned_of : Option Value → Option Bool
pinned_of (some (bool true)) = some true
pinned_of _ = none

unfoldable pub observation_from : Value → Option Observation
unfolding property
observation_from (obj fs) = do
  id ← property (text "id") fs >>= as_str
  content ← property (text "content") fs >>= as_str
  some (record {
    id = id;
    content = content;
    pinned = pinned_of (property (text "pinned") fs);
    tokens = property (text "tokens") fs >>= as_num;
  })
observation_from _ = none

-- A list is read whole, or refused for its first bad item.
unfoldable pub items_from : {A : Type 0} → (Value → Option A) → Items → Option (List A)
items_from read nil = some []
items_from read (cons v vs) = do a ← read v; rest ← items_from read vs; some (a ∷ rest)

abbrev pub array_from : {A : Type 0} → (Value → Option A) → Value → Option (List A)
unfolding items_from
array_from read (arr vs) = items_from read vs
array_from read _ = none

abbrev status_of : Text → Option StageStatus
unfolding same
status_of s =
    if same s (text "completed")
    then some completed
    else if same s (text "failed")
    then some failed
    else none

unfoldable pub branch_from : Value → Option BranchObservation
unfolding property usage_from_step_result same
branch_from (obj fs) = do
  id ← property (text "id") fs >>= as_str
  status ← property (text "status") fs >>= as_str >>= status_of
  some (record { id = id; status = status; usage = usage_from_step_result fs })
branch_from _ = none

stop_named : Text → Option LoopExecutionStop
unfolding same
stop_named s =
    if same s (text "converged")
    then some converged
    else if same s (text "unfixable")
    then some unfixable
    else if same s (text "stuck")
    then some stuck
    else if same s (text "timeout")
    then some timeout
    else if same s (text "ceiling")
    then some ceiling
    else if same s (text "budget-exhausted")
    then some budget_exhausted
    else if same s (text "cancelled")
    then some cancelled
    else none

unfoldable pub stop_reason_from : Value → Option LoopExecutionStop
unfolding stop_named
stop_reason_from (str s) = stop_named s
stop_reason_from _ = none

unfoldable pub stage_from : Value → Option CompactionStage
unfolding same
stage_from (str s) =
    if same s (text "mask")
    then some mask
    else if same s (text "prune")
    then some prune
    else if same s (text "summarize")
    then some summarize
    else none
stage_from _ = none

unfoldable pub context_pressure_from : Value → Option LoopContextPressure
unfolding property stage_from items_from
context_pressure_from (obj fs) = do
  count ← property (text "offloadCount") fs >>= as_num
  stages ← property (text "compactionStages") fs >>= array_from stage_from
  before ← property (text "tokensBefore") fs >>= as_num
  after ← property (text "tokensAfter") fs >>= as_num
  observed ← property (text "observationCount") fs >>= as_num
  some (record {
    offload_count = count;
    compaction_stages = stages;
    tokens_before = before;
    tokens_after = after;
    observation_count = observed;
  })
context_pressure_from _ = none

-- A step may report anything; what does not have the expected shape is left out.
unfoldable pub normalize_step_result : Value → LoopExecutionStepResult
unfolding property usage_from_step_result items_from observation_from branch_from stop_reason_from
    context_pressure_from
normalize_step_result (obj fs) = record {
  usage = usage_from_step_result fs;
  observations = property (text "observations") fs >>= array_from observation_from;
  branches = property (text "branches") fs >>= array_from branch_from;
  measure = property (text "measure") fs >>= as_num;
  stop_reason = property (text "stopReason") fs >>= stop_reason_from;
  context_pressure = property (text "contextPressure") fs >>= context_pressure_from;
}
normalize_step_result _ = no_step
