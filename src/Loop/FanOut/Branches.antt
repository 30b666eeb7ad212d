-- ===== src/Loop/FanOut/Branches.antt =====
-- src/loop/fanout.ts, `fanOut` and the outcome of a branch. The world `W` is what branches and the
-- clock read and change; a branch that throws returns the message. A clone is equal to its
-- original, so it is the same value here. The engine that runs the branches is an argument.
use orca_ts.Base.{
  ◌==◌, decimal, ℕ, suc, ◌-◌, ◌≤◌, ◌≡◌, refl, max, Option, List, [], ◌∷◌, ◌++◌, Result, ok, err,
  leb, ltb, if◌then◌else◌, arith, inl, inr, or_default, length, take, length-append, length-take-le,
  Bool-cases, Text, text,
}
use orca_ts.Model.{Value}

pub record BranchSummary : Type 0 where
  pub summary : Text
  pub payload : Option Value

pub data BranchOutcome : Type 0 where
  succeeded : (index : ℕ) (summary : BranchSummary) (elapsed_ms : ℕ) → BranchOutcome
  failed : (index : ℕ) (message : Text) (elapsed_ms : ℕ) → BranchOutcome

pub data FanOutError : Type 0 where
  misconfigured cancelled : (reason : Text) → FanOutError

abbrev pub truncation : Text
truncation = text "…[truncated]"

unfoldable pub condense : BranchSummary → ℕ → BranchSummary
condense s budget =
    if leb (length s.summary) budget
    then s
    else record s { summary = take (budget - length truncation) s.summary ++ truncation }

-- A condensed summary is no longer than the budget, but for the mark of truncation, which is written
-- whole whatever the budget; a summary within the budget is left as it is, and the payload always.
pub length-condense :
    (s : BranchSummary) (budget : ℕ)
    → (length (condense s budget).summary ≤ max budget (length truncation))
      × (length s.summary ≤ budget → condense s budget ≡ s)
      × ((condense s budget).payload ≡ s.payload)
unfolding condense
length-condense s budget = elim (Bool-cases (leb (length s.summary) budget)) [
  | inl short ↦ rw (short, condense) (ground arith, λ h. refl, refl)
  | inr long ↦
      rw (long, condense)
        (
          omega (
            arith,
            length-append (take (budget - 12) s.summary) truncation,
            length-take-le (budget - 12) s.summary,
          ),
          λ h. absurd (ground arith),
          refl,
        )
]

abbrev pub Branch : Type 0 → Type 0 → Type 0
Branch S W = S → W → W × Result BranchSummary Text

-- `runBoundedBranches`: with a concurrency cap, the outcomes in the order of the thunks, or the
-- message of an interruption.
abbrev pub Engine : Type 0 → Type 0
Engine W = List (W → W × BranchOutcome) → ℕ → W → W × Result (List BranchOutcome) Text

abbrev pub default_summary_budget_chars : ℕ
default_summary_budget_chars = 6000

pub record FanOutSpec (S W : Type 0) : Type 0 where
  pub state : S
  pub branches : List (Branch S W)
  pub max_concurrency : ℕ
  pub summary_budget_chars : Option ℕ

abbrev pub no_branch : FanOutError
no_branch = misconfigured (text "fanOut requires at least one branch")

unfoldable pub bad_cap : ℕ → FanOutError
unfolding decimal
bad_cap cap =
    misconfigured
      (text "fanOut maxConcurrency must be a finite integer >= 1 (got " ++ decimal cap ++ text ")")

abbrev pub interrupted : Result (List BranchOutcome) Text → Result (List BranchOutcome) FanOutError
interrupted (ok outcomes) = ok outcomes
interrupted (err message) = err (cancelled message)

module _ {S W : Type 0} (now : W → W × ℕ) where
  -- One thunk of `fanOut`.
  unfoldable pub run_branch : S → ℕ → Branch S W → ℕ → W → W × BranchOutcome
  run_branch state budget branch index w =
      let (w₁, start) = now w in
      let (w₂, r) = branch state w₁ in
      let (w₃, end) = now w₂ in
      (
        w₃,
        elim r [
          | ok s ↦ succeeded index (condense s budget) (end - start)
          | err message ↦ failed index message (end - start)
        ],
      )

  unfoldable pub number_thunks : S → ℕ → ℕ → List (Branch S W) → List (W → W × BranchOutcome)
  unfolding run_branch
  number_thunks state budget index [] = []
  number_thunks state budget index (b ∷ bs) =
      (λ w. run_branch state budget b index w) ∷ number_thunks state budget (suc index) bs

  -- The cap is a natural, so it is finite and an integer.
  unfoldable pub fan_out :
      Engine W → FanOutSpec S W → W → W × Result (List BranchOutcome) FanOutError
  unfolding number_thunks
  fan_out engine spec w =
      let budget = or_default spec.summary_budget_chars default_summary_budget_chars in
      let (w', collected) =
        engine (number_thunks spec.state budget 0 spec.branches) spec.max_concurrency w in
      if length spec.branches == 0
      then (w, err no_branch)
      else if ltb spec.max_concurrency 1
      then (w, err (bad_cap spec.max_concurrency))
      else (w', interrupted collected)

-- The engine at a cap of one: each thunk in turn.
unfoldable pub in_turn : {W : Type 0} → Engine W
in_turn [] cap w = (w, ok [])
in_turn (t ∷ ts) cap w =
    let (w₁, outcome) = t w in
    let (w₂, rest) = in_turn ts cap w₁ in
    (w₂, elim rest [ ok outcomes ↦ ok (outcome ∷ outcomes) | err message ↦ err message ])
