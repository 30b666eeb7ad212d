-- ===== src/Loop/Execution/Step/Encode.antt =====
-- A step result written as the object that the callers build, and read back.
use orca_ts.Base.{
  subst, ◌≡◌, ◌≢◌, refl, ap, ◌∙◌, false, Option, none, some, List, [], ◌∷◌, Text, text, arith, All,
}
use orca_ts.Model.{Usage, Value, bool, num, str, arr, obj, Items, nil, cons, Fields, end, field}
use orca_ts.Loop.Context.Compaction.{CompactionStage, mask, prune, summarize, Observation}
use orca_ts.Loop.Execution.Step.{
  as_num, array_from, LoopExecutionStop, converged, unfixable, stuck, timeout, ceiling,
  budget_exhausted, cancelled, LoopContextPressure, StageStatus, completed, failed,
  BranchObservation, LoopExecutionStepResult, property, usage_from_step_result, observation_from,
  items_from, branch_from, stop_reason_from, stage_from, context_pressure_from,
  normalize_step_result, ◌>>=◌, usage_of,
}

-- `...(v === undefined ? {} : { k: v })` before the other properties.
abbrev pub optional : {A : Type 0} → Text → (A → Value) → Option A → Fields → Fields
optional k write none rest = rest
optional k write (some v) rest = field k (write v) rest

pub usage_value : Usage → Value
usage_value u = obj (
    field (text "input") (num u.input)
      (field (text "output") (num u.output) (optional (text "reasoning") num u.reasoning end)))

pub stop_value : LoopExecutionStop → Value
stop_value converged = str (text "converged")
stop_value unfixable = str (text "unfixable")
stop_value stuck = str (text "stuck")
stop_value timeout = str (text "timeout")
stop_value ceiling = str (text "ceiling")
stop_value budget_exhausted = str (text "budget-exhausted")
stop_value cancelled = str (text "cancelled")

pub stage_value : CompactionStage → Value
stage_value mask = str (text "mask")
stage_value prune = str (text "prune")
stage_value summarize = str (text "summarize")

pub items_value : {A : Type 0} → (A → Value) → List A → Items
items_value write [] = nil
items_value write (a ∷ as') = cons (write a) (items_value write as')

pub observation_value : Observation → Value
observation_value o = obj (
    field (text "id") (str o.id) (
      field (text "content") (str o.content)
        (optional (text "pinned") bool o.pinned (optional (text "tokens") num o.tokens end))))

abbrev status_text : StageStatus → Text
status_text completed = text "completed"
status_text failed = text "failed"

pub branch_value : BranchObservation → Value
branch_value b = obj (
    field (text "id") (str b.id) (
      field (text "status") (str (status_text b.status))
        (optional (text "usage") usage_value b.usage end)))

pub pressure_value : LoopContextPressure → Value
pressure_value p = obj (
    field (text "offloadCount") (num p.offload_count) (
      field (text "compactionStages") (arr (items_value stage_value p.compaction_stages)) (
        field (text "tokensBefore") (num p.tokens_before) (
          field (text "tokensAfter") (num p.tokens_after)
            (field (text "observationCount") (num p.observation_count) end)))))

pub step_fields : LoopExecutionStepResult → Fields
step_fields s =
    (optional (text "usage") usage_value s.usage (
      optional (text "observations") (λ os. arr (items_value observation_value os)) s.observations
        (optional (text "branches") (λ bs. arr (items_value branch_value bs)) s.branches
          (optional (text "measure") num s.measure (
            optional (text "stopReason") stop_value s.stop_reason
              (optional (text "contextPressure") pressure_value s.context_pressure end))))))

pub step_value : LoopExecutionStepResult → Value
step_value s = obj (step_fields s)

usage_of_value : (u : Usage) → usage_of (usage_value u) ≡ some u
unfolding usage_of usage_value
usage_of_value u = ground arith

stop_of_value : (s : LoopExecutionStop) → stop_reason_from (stop_value s) ≡ some s
unfolding stop_reason_from stop_value
stop_of_value converged = refl
stop_of_value _ = refl

stage_of_value : (s : CompactionStage) → stage_from (stage_value s) ≡ some s
unfolding stage_from stage_value
stage_of_value mask = refl
stage_of_value _ = refl

items_of_value :
    {A : Type 0} (read : Value → Option A) (write : A → Value) (xs : List A)
    → All (λ a. read (write a) ≡ some a) xs
    → items_from read (items_value write xs) ≡ some xs
unfolding items_from items_value
items_of_value read write [] h = refl
items_of_value read write (x ∷ xs) h = ground (arith, items_of_value read write xs h.1)

-- `pinned: false` is read as no property.
abbrev pub IsPlain : Observation → Type 0
IsPlain o = o.pinned ≢ some false

observation_of_value :
    (o : Observation) → IsPlain o → observation_from (observation_value o) ≡ some o
unfolding observation_from observation_value
observation_of_value o h = ground arith

branch_of_value : (b : BranchObservation) → branch_from (branch_value b) ≡ some b
unfolding branch_from branch_value usage_from_step_result
branch_of_value b = go b.status b.usage refl refl
  where
    go :
        (s : StageStatus) (u : Option Usage)
        → b.status ≡ s
        → b.usage ≡ u
        → branch_from (branch_value b) ≡ some b
    go completed none e f = ground arith
    go completed (some u) e f = ground (arith, usage_of_value u)
    go failed none e f = ground arith
    go failed (some u) e f = ground (arith, usage_of_value u)

stages_of_value :
    (stages : List CompactionStage)
    → items_from stage_from (items_value stage_value stages) ≡ some stages
stages_of_value stages = items_of_value stage_from stage_value stages (each stages)
  where
    each : (xs : List CompactionStage) → All (λ s. stage_from (stage_value s) ≡ some s) xs
    each [] = tt
    each (x ∷ xs) = (stage_of_value x, each xs)

pressure_of_value : (p : LoopContextPressure) → context_pressure_from (pressure_value p) ≡ some p
unfolding context_pressure_from pressure_value
pressure_of_value p = ground (arith, stages_of_value p.compaction_stages)

abbrev written : {A : Type 0} → (A → Value) → Option A → Option Value
written write none = none
written write (some a) = some (write a)

observations_of_value :
    (os : List Observation)
    → All IsPlain os
    → items_from observation_from (items_value observation_value os) ≡ some os
observations_of_value os h = items_of_value observation_from observation_value os (each os h)
  where
    each :
        (xs : List Observation)
        → All IsPlain xs
        → All (λ o. observation_from (observation_value o) ≡ some o) xs
    each [] h = tt
    each (x ∷ xs) h = (observation_of_value x h.0, each xs h.1)

branches_of_value :
    (bs : List BranchObservation) → items_from branch_from (items_value branch_value bs) ≡ some bs
branches_of_value bs = items_of_value branch_from branch_value bs (each bs)
  where
    each : (xs : List BranchObservation) → All (λ b. branch_from (branch_value b) ≡ some b) xs
    each [] = tt
    each (x ∷ xs) = (branch_of_value x, each xs)

abbrev PlainObservations : Option (List Observation) → Type 0
PlainObservations none = Unit
PlainObservations (some os) = All IsPlain os

abbrev pub IsPlainStep : LoopExecutionStepResult → Type 0
IsPlainStep s = PlainObservations s.observations

written-read :
    {A : Type 0} (write : A → Value) (read : Value → Option A) (o : Option A)
    → ((a : A) → o ≡ some a → read (write a) ≡ some a)
    → (written write o >>= read) ≡ o
written-read write read none h = refl
written-read write read (some a) h = h a refl

module _ (s : LoopExecutionStepResult) where
  usage_property : property (text "usage") (step_fields s) ≡ written usage_value s.usage
  unfolding step_fields property
  usage_property = ground arith

  observations_property :
      property (text "observations") (step_fields s)
      ≡ written (λ os. arr (items_value observation_value os)) s.observations
  unfolding step_fields property
  observations_property = ground arith

  branches_property :
      property (text "branches") (step_fields s)
      ≡ written (λ bs. arr (items_value branch_value bs)) s.branches
  unfolding step_fields property
  branches_property = ground arith

  measure_property : property (text "measure") (step_fields s) ≡ written num s.measure
  unfolding step_fields property
  measure_property = ground arith

  stop_property : property (text "stopReason") (step_fields s) ≡ written stop_value s.stop_reason
  unfolding step_fields property
  stop_property = ground arith

  pressure_property :
      property (text "contextPressure") (step_fields s) ≡ written pressure_value s.context_pressure
  unfolding step_fields property
  pressure_property = ground arith

  -- A step result written as an object is read back whole, if no observation says `pinned: false`.
  pub normalize_step_result-step_value : IsPlainStep s → normalize_step_result (step_value s) ≡ s
  unfolding normalize_step_result step_value
  normalize_step_result-step_value h =
      let usage =
        ap (λ o. o >>= usage_of) usage_property
        ∙ written-read usage_value usage_of s.usage (λ u _. usage_of_value u) in
      let observations =
        ap (λ o. o >>= array_from observation_from) observations_property
        ∙ written-read _ _ s.observations
            (λ os e. observations_of_value os (subst PlainObservations e h)) in
      let branches =
        ap (λ o. o >>= array_from branch_from) branches_property
        ∙ written-read _ _ s.branches (λ bs _. branches_of_value bs) in
      let measure =
        ap (λ o. o >>= as_num) measure_property ∙ written-read num as_num s.measure (λ n _. refl) in
      let stop =
        ap (λ o. o >>= stop_reason_from) stop_property
        ∙ written-read stop_value stop_reason_from s.stop_reason (λ r _. stop_of_value r) in
      let pressure =
        ap (λ o. o >>= context_pressure_from) pressure_property
        ∙ written-read pressure_value context_pressure_from s.context_pressure
            (λ p _. pressure_of_value p) in
      λ i. record {
        usage = usage i;
        observations = observations i;
        branches = branches i;
        measure = measure i;
        stop_reason = stop i;
        context_pressure = pressure i;
      }
