-- ===== src/Loop/FanOut/Join.antt =====
-- src/loop/fanout.ts: the partial-failure gate, the choice by policy and `fanIn`.
-- `stringify` is JSON.stringify on a value whose objects have sorted keys.
use orca_ts.Base.{
  ℕ, max, Bool, true, false, Option, none, some, List, [], ◌∷◌, ◌++◌, map, Result, ok, err, ◌>>=◌,
  leb, ltb, ◌==◌, if◌then◌else◌, or_default, length, Text, text, same,
}
use orca_ts.Model.{Value, str, arr, obj, Items, nil, cons, Fields, end, field}
use orca_ts.Loop.FanOut.Branches.{BranchSummary, BranchOutcome, succeeded, failed}

pub data JoinPolicy : Type 0 where
  barrier race quorum reduce : JoinPolicy

pub data PartialFailurePolicy : Type 0 where
  fail_fast : PartialFailurePolicy
  tolerate : (min_success : ℕ) → PartialFailurePolicy

pub data FanInError : Type 0 where
  partial_failure : (succeeded failed : ℕ) (failures : List Text) → FanInError
  no_success : (failures : List Text) → FanInError
  no_quorum : (required largest_agreement : ℕ) → FanInError
  misconfigured : (reason : Text) → FanInError

-- The outcome of a branch that succeeded.
pub record Success : Type 0 where
  pub index : ℕ
  pub summary : BranchSummary
  pub elapsed_ms : ℕ

unfoldable pub successes_of : List BranchOutcome → List Success
successes_of [] = []
successes_of (succeeded i s ms ∷ os) =
    record { index = i; summary = s; elapsed_ms = ms } ∷ successes_of os
successes_of (failed i m ms ∷ os) = successes_of os

unfoldable pub failures_of : List BranchOutcome → List Text
failures_of [] = []
failures_of (succeeded i s ms ∷ os) = failures_of os
failures_of (failed i m ms ∷ os) = m ∷ failures_of os

unfoldable pub default_partial_failure : JoinPolicy → Option ℕ → PartialFailurePolicy
default_partial_failure barrier q = fail_fast
default_partial_failure quorum q = tolerate (or_default q 1)
default_partial_failure race q = tolerate 1
default_partial_failure reduce q = tolerate 1

unfoldable pub resolve_policy :
    JoinPolicy → Option PartialFailurePolicy → Option ℕ → PartialFailurePolicy
unfolding default_partial_failure
resolve_policy policy none q = default_partial_failure policy q
resolve_policy policy (some p) q = p

unfoldable pub weigh : PartialFailurePolicy → ℕ → List Text → Result (Unit {0}) FanInError
weigh fail_fast n failures =
    if ltb 0 (length failures) then err (partial_failure n (length failures) failures) else ok tt
weigh (tolerate least) n failures =
    if ltb n least then err (partial_failure n (length failures) failures) else ok tt

unfoldable pub apply_partial_failure_policy :
    JoinPolicy
    → ℕ
    → List Text
    → Option PartialFailurePolicy
    → Option ℕ
    → Result (Unit {0}) FanInError
unfolding weigh resolve_policy
apply_partial_failure_policy policy n failures on_partial_failure q =
    if n == 0
    then err (no_success failures)
    else weigh (resolve_policy policy on_partial_failure q) n failures

-- The vote: the groups by key, in a `Map<string, T[]>`.
abbrev pub Groups : Type 0
Groups = List (Text × List Success)

unfoldable pub group_of : Text → Groups → List Success
group_of k [] = []
group_of k ((j, g) ∷ m) = if same j k then g else group_of k m

unfoldable pub set_group : Text → List Success → Groups → Groups
set_group k g [] = (k, g) ∷ []
set_group k g ((j, h) ∷ m) = if same j k then (k, g) ∷ m else (j, h) ∷ set_group k g m

-- The loop of `selectQuorum`.
unfoldable pub vote :
    (Success → Text) → ℕ → List Success → Groups → ℕ → Result (List Success) FanInError
unfolding group_of set_group
vote key q [] groups largest = err (no_quorum q largest)
vote key q (o ∷ os) groups largest =
    let group = group_of (key o) groups ++ o ∷ [] in
    let rest = vote key q os (set_group (key o) group groups) (max largest (length group)) in
    if leb q (length group) then ok group else rest

unfoldable pub select_quorum :
    (Success → Text) → List Success → Option ℕ → Result (List Success) FanInError
unfolding vote
select_quorum key successes none =
    err (misconfigured (text "quorum policy requires options.quorum >= 1"))
select_quorum key successes (some q) =
    if ltb q 1
    then err (misconfigured (text "quorum policy requires options.quorum >= 1"))
    else vote key q successes [] 0

-- `reduce` without a start: the first of the fastest.
unfoldable pub fastest_from : Success → List Success → Success
fastest_from fastest [] = fastest
fastest_from fastest (next ∷ os) =
    fastest_from (if ltb next.elapsed_ms fastest.elapsed_ms then next else fastest) os

-- On an empty list `reduce` throws, which the gate rules out: `none`.
unfoldable pub select_by_policy :
    (Success → Text)
    → JoinPolicy
    → List Success
    → Option ℕ
    → Option (Result (List Success) FanInError)
unfolding fastest_from select_quorum
select_by_policy key barrier successes q = some (ok successes)
select_by_policy key reduce successes q = some (ok successes)
select_by_policy key race [] q = none
select_by_policy key race (o ∷ os) q = some (ok (fastest_from o os ∷ []))
select_by_policy key quorum successes q = some (select_quorum key successes q)

-- `sortKeys`: the fields of every object in the order of their keys, code unit by code unit.
unfoldable pub key_lt : Text → Text → Bool
key_lt [] [] = false
key_lt [] (_ ∷ _) = true
key_lt (_ ∷ _) [] = false
key_lt (a ∷ s) (b ∷ t) = if a == b then key_lt s t else ltb a b

unfoldable pub insert_field : Text → Value → Fields → Fields
insert_field k v end = field k v end
insert_field k v (field j w fs) =
    if key_lt j k then field j w (insert_field k v fs) else field k v (field j w fs)

unfoldable mutual
  pub sort_keys : Value → Value
  sort_keys (arr vs) = arr (sort_items vs)
  sort_keys (obj fs) = obj (sort_fields fs)
  sort_keys v = v

  pub sort_items : Items → Items
  sort_items nil = nil
  sort_items (cons v vs) = cons (sort_keys v) (sort_items vs)

  pub sort_fields : Fields → Fields
  sort_fields end = end
  sort_fields (field k v fs) = insert_field k (sort_keys v) (sort_fields fs)

-- The default of `agreeBy`.
abbrev pub data_or_summary : BranchSummary → Value
data_or_summary s = or_default s.payload (str s.summary)

pub record FanInOptions (S : Type 0) : Type 0 where
  pub reducer : List BranchSummary → S
  pub on_partial_failure : Option PartialFailurePolicy
  pub quorum_size : Option ℕ
  pub agree_by : Option (BranchSummary → Value)

module _ (stringify : Value → Text) {S : Type 0} (options : FanInOptions S) where
  -- `stableKey(keyOf(outcome.summary))`.
  unfoldable pub agreement_key : Success → Text
  unfolding sort_keys
  agreement_key o = stringify (sort_keys ((or_default options.agree_by data_or_summary) o.summary))

  abbrev pub reduced : Result (List Success) FanInError → Result S FanInError
  reduced chosen = chosen >>= λ os. ok (options.reducer (map (λ o. o.summary) os))

  -- The choice is made only past the gate.
  unfoldable pub join_with :
      Result (Unit {0}) FanInError
      → Option (Result (List Success) FanInError)
      → Option (Result S FanInError)
  join_with (err e) chosen = some (err e)
  join_with (ok _) none = none
  join_with (ok _) (some chosen) = some (reduced chosen)

  -- `none` is the exception of `reduce` on an empty list.
  unfoldable pub fan_in : JoinPolicy → List BranchOutcome → Option (Result S FanInError)
  unfolding apply_partial_failure_policy select_by_policy successes_of failures_of agreement_key
      join_with
  fan_in policy outcomes =
      let successes = successes_of outcomes in
      let gate =
        apply_partial_failure_policy policy (length successes) (failures_of outcomes)
          options.on_partial_failure options.quorum_size in
      join_with gate (select_by_policy agreement_key policy successes options.quorum_size)
