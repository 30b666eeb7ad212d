-- ===== src/Loop/FanOut/Spread.antt =====
-- What a fan-out brings back, whatever engine runs its branches.
use orca_ts.Loop.FanOut.Branches.{
  no_branch, bad_cap, interrupted, length-condense, condense, BranchSummary, failed, truncation,
  default_summary_budget_chars, Branch, FanOutSpec, succeeded, run_branch, fan_out, number_thunks,
  in_turn, Engine, BranchOutcome,
}
use orca_ts.Base.{
  ltb, ◌==◌, true, false, false, Text, if◌then◌else◌, Bool, subst, arith, ◌-◌, Result, ◌<◌, max,
  ◌≤◌, or_default, length, ◌≡◌, ◌∷◌, List, ℕ, refl, [], ok, err, suc,
}

abbrev index_of : BranchOutcome → ℕ
index_of (succeeded i s ms) = i
index_of (failed i m ms) = i

-- A summary within the budget, or but for the mark of truncation.
abbrev IsBrief : ℕ → BranchOutcome → Type 0
IsBrief budget (succeeded i s ms) = length s.summary ≤ max budget (length truncation)
IsBrief budget (failed i m ms) = Unit

-- The outcomes stand in the order of the branches, numbered from `n` on, each brief.
abbrev pub IsNumbered : ℕ → ℕ → List BranchOutcome → Type 0
IsNumbered budget n [] = Unit
IsNumbered budget n (o ∷ os) = (index_of o ≡ n) × IsBrief budget o × IsNumbered budget (suc n) os

interrupted-eq-ok :
    (r : Result (List BranchOutcome) Text) (os : List BranchOutcome)
    → interrupted r ≡ ok os
    → r ≡ ok os
interrupted-eq-ok (ok xs) os e = cc
interrupted-eq-ok (err m) os e = cc

-- A result that is no error has passed both guards.
both_passed :
    {W E A : Type 0} (a b : Bool) (w w' : W) (x y : E) (z : Result A E) (v : A)
    → let r : W × Result A E = if a then (w, err x) else if b then (w, err y) else (w', z) in
      r.1 ≡ ok v → (a ≡ false) × (b ≡ false) × (z ≡ ok v)
both_passed true b w w' x y z v e = cc
both_passed false true w w' x y z v e = cc
both_passed false false w w' x y z v e = (refl, refl, e)

-- The outcome that `run_branch` makes of a result.
abbrev outcome_of : ℕ → ℕ → ℕ → Result BranchSummary Text → BranchOutcome
outcome_of i budget ms r = elim r [
  | ok s ↦ succeeded i (condense s budget) ms
  | err message ↦ failed i message ms
]

outcome_of-IsBrief :
    (i budget ms : ℕ) (r : Result BranchSummary Text)
    → (index_of (outcome_of i budget ms r) ≡ i) × IsBrief budget (outcome_of i budget ms r)
outcome_of-IsBrief i budget ms (ok s) = (refl, (length-condense s budget).0)
outcome_of-IsBrief i budget ms (err m) = (refl, tt)

module _ {W : Type 0} where
  -- Each outcome is that of its thunk, run in some world.
  abbrev pub Ran : List (W → W × BranchOutcome) → List BranchOutcome → Type 0
  Ran [] [] = Unit
  Ran [] (o ∷ os) = ⊥
  Ran (t ∷ ts) [] = ⊥
  Ran (t ∷ ts) (o ∷ os) = ((w : W) × ((t w).1 ≡ o)) × Ran ts os

  -- What is relied on of an engine: it runs every thunk, and keeps the outcomes in their order.
  pub record RunsAll (engine : Engine W) : Type 0 where
    pub ran :
        (thunks : List (W → W × BranchOutcome)) (cap : ℕ) (w : W) (outcomes : List BranchOutcome)
        → (engine thunks cap w).1 ≡ ok outcomes
        → Ran thunks outcomes

  module _ {S : Type 0} (now : W → W × ℕ) where
    run_branch-IsBrief :
        (state : S) (budget : ℕ) (b : Branch S W) (i : ℕ) (w : W)
        → let o = (run_branch now state budget b i w).1 in (index_of o ≡ i) × IsBrief budget o
    unfolding run_branch
    run_branch-IsBrief state budget b i w =
        let (w₁, start) = now w in
        let (w₂, r) = b state w₁ in outcome_of-IsBrief i budget ((now w₂).1 - start) r

    Ran-IsNumbered :
        (state : S) (budget n : ℕ) (bs : List (Branch S W)) (os : List BranchOutcome)
        → Ran (number_thunks now state budget n bs) os
        → IsNumbered budget n os × (length os ≡ length bs)
    unfolding number_thunks
    Ran-IsNumbered state budget n [] [] h = (tt, refl)
    Ran-IsNumbered state budget n (b ∷ bs) (o ∷ os) ((w, e), h) =
        let (at, brief) =
          subst (λ o. (index_of o ≡ n) × IsBrief budget o) e
            (run_branch-IsBrief state budget b n w) in
        let (rest, size) = Ran-IsNumbered state budget (suc n) bs os h in
        ((at, brief, rest), omega arith)
    Ran-IsNumbered state budget n [] (o ∷ os) h = elim h [ ]
    Ran-IsNumbered state budget n (b ∷ bs) [] h = elim h [ ]

    -- A fan-out that succeeds had a branch and a cap, and brings back one outcome for each branch, in
    -- their order, with the branch's number; a summary is no longer than the budget, but for the mark
    -- of truncation. The engine is one that runs every thunk and keeps their order.
    pub fan_out-IsNumbered :
        (engine : Engine W) (spec : FanOutSpec S W) (w : W) (outcomes : List BranchOutcome)
        → RunsAll engine
        → (fan_out now engine spec w).1 ≡ ok outcomes
        → IsNumbered (or_default spec.summary_budget_chars default_summary_budget_chars) 0 outcomes
          × (length outcomes ≡ length spec.branches)
          × (0 < length outcomes)
          × (0 < spec.max_concurrency)
    unfolding fan_out
    fan_out-IsNumbered engine spec w outcomes h e =
        let budget = or_default spec.summary_budget_chars default_summary_budget_chars in
        let (some_branch, some_cap, collected) =
          both_passed (length spec.branches == 0) (ltb spec.max_concurrency 1) w
            (engine (number_thunks now spec.state budget 0 spec.branches) spec.max_concurrency w).0
            no_branch (bad_cap spec.max_concurrency) _ outcomes e in
        let (numbered, size) =
          Ran-IsNumbered spec.state budget 0 spec.branches outcomes
            (h.ran _ spec.max_concurrency w outcomes (interrupted-eq-ok _ outcomes collected)) in
        (numbered, size, ground arith, ground arith)

rest-eq-ok :
    (o : BranchOutcome) (rest : Result (List BranchOutcome) Text) (os : List BranchOutcome)
    → elim rest as (λ x. Result (List BranchOutcome) Text) [
      | ok outcomes ↦ ok (o ∷ outcomes)
      | err message ↦ err message
    ]
      ≡ ok os
    → (more : List BranchOutcome) × (rest ≡ ok more) × (o ∷ more ≡ os)
rest-eq-ok o (ok more) os e = (more, refl, cc)
rest-eq-ok o (err m) os e = cc

in_turn-Ran :
    {W : Type 0} (ts : List (W → W × BranchOutcome)) (cap : ℕ) (w : W) (os : List BranchOutcome)
    → (in_turn ts cap w).1 ≡ ok os
    → Ran ts os
unfolding in_turn
in_turn-Ran [] cap w [] e = tt
in_turn-Ran [] cap w (o ∷ os) e = cc
in_turn-Ran (t ∷ ts) cap w os e =
    let (more, r, same_list) = rest-eq-ok (t w).1 (in_turn ts cap (t w).0).1 os e in
    subst (λ l. Ran (t ∷ ts) l) same_list ((w, refl), in_turn-Ran ts cap (t w).0 more r)

pub in_turn-RunsAll : {W : Type 0} → RunsAll (in_turn {W = W})
in_turn-RunsAll = record { ran = in_turn-Ran }
