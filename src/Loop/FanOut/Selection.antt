-- ===== src/Loop/FanOut/Selection.antt =====
-- What `fanIn` folds: never nothing, and what the policy says.
use orca_ts.Base.{
  ℕ, ◌≤◌, ◌<◌, ◌≡◌, ◌≢◌, refl, ap, subst, Option, none, some, List, [], ◌∷◌, ◌++◌, map, Result, ok,
  err, ltb, ◌==◌, arith, inl, inr, length, All, All-append, Bool-cases, append_assoc, append-nil,
  Text,
}
use orca_ts.Model.{Value}
use orca_ts.Loop.FanOut.Branches.{BranchOutcome}
use orca_ts.Loop.FanOut.Join.{
  join_with, JoinPolicy, barrier, race, quorum, reduce, PartialFailurePolicy, fail_fast, tolerate,
  Success, FanInError, FanInOptions, successes_of, failures_of, apply_partial_failure_policy,
  fastest_from, select_quorum, select_by_policy, agreement_key, fan_in, weigh, resolve_policy,
}
use orca_ts.Loop.FanOut.Quorum.{IsQuorum, Verdict, select_quorum-Verdict}

-- The first of the fastest: slower branches before it, none faster after it.
pub record IsFastest (xs : List Success) (f : Success) : Type 0 where
  pub before : List Success
  pub after : List Success
  pub split : xs ≡ before ++ f ∷ after
  pub slower : All (λ o. f.elapsed_ms < o.elapsed_ms) before
  pub no_faster : All (λ o. f.elapsed_ms ≤ o.elapsed_ms) after

All-lt_trans :
    (m n : ℕ) (xs : List Success)
    → m < n
    → All (λ o. n ≤ o.elapsed_ms) xs
    → All (λ o. m < o.elapsed_ms) xs
All-lt_trans m n [] h a = tt
All-lt_trans m n (x ∷ xs) h a = (omega arith, All-lt_trans m n xs h a.1)

All-le_of_lt :
    (n : ℕ) (xs : List Success) → All (λ o. n < o.elapsed_ms) xs → All (λ o. n ≤ o.elapsed_ms) xs
All-le_of_lt n [] a = tt
All-le_of_lt n (x ∷ xs) a = (omega arith, All-le_of_lt n xs a.1)

fastest_from-IsFastest :
    (before mid os : List Success) (f : Success)
    → All (λ o. f.elapsed_ms < o.elapsed_ms) before
    → All (λ o. f.elapsed_ms ≤ o.elapsed_ms) mid
    → IsFastest (before ++ f ∷ (mid ++ os)) (fastest_from f os)
unfolding fastest_from
fastest_from-IsFastest before mid [] f b m = record {
  before = before;
  after = mid;
  split = rw append-nil refl;
  slower = b;
  no_faster = m;
}
fastest_from-IsFastest before mid (o ∷ os) f b m =
    elim (Bool-cases (ltb o.elapsed_ms f.elapsed_ms)) [
      | inl faster ↦
          let lt : o.elapsed_ms < f.elapsed_ms = ground arith in
          rw (faster, fastest_from)
            (subst (λ xs. IsFastest xs (fastest_from o os)) (append_assoc before (f ∷ mid) (o ∷ os))
              (fastest_from-IsFastest (before ++ f ∷ mid) [] os o
                (All-append _ before (f ∷ mid)
                  (All-lt_trans _ f.elapsed_ms before lt (All-le_of_lt _ before b))
                  (lt, All-lt_trans _ f.elapsed_ms mid lt m))
                tt))
      | inr slower ↦
          rw (slower, fastest_from)
            (subst (λ xs. IsFastest xs (fastest_from f os))
              (ap (λ l. before ++ f ∷ l) (append_assoc mid (o ∷ []) os))
              (fastest_from-IsFastest before (mid ++ o ∷ []) os f b
                (All-append _ mid (o ∷ []) m (ground arith, tt))))
    ]

-- What a policy chooses from the branches that succeeded.
abbrev pub IsChosen :
    (Success → Text) → Option ℕ → List Success → JoinPolicy → List Success → Type 0
IsChosen key q xs barrier chosen = chosen ≡ xs
IsChosen key q xs reduce chosen = chosen ≡ xs
IsChosen key q xs race chosen = (f : Success) × (chosen ≡ f ∷ []) × IsFastest xs f
IsChosen key q xs quorum chosen = (n : ℕ) × (q ≡ some n) × (0 < n) × IsQuorum key n xs chosen

select_quorum-IsChosen :
    (key : Success → Text) (q : Option ℕ) (xs chosen : List Success)
    → select_quorum key xs q ≡ ok chosen
    → (n : ℕ) × (q ≡ some n) × (0 < n) × IsQuorum key n xs chosen
unfolding select_quorum
select_quorum-IsChosen key none xs chosen e = cc
select_quorum-IsChosen key (some n) xs chosen e = elim (Bool-cases (ltb n 1)) [
  | inl low ↦ absurd (ground arith)
  | inr enough ↦
      let h : 0 < n = ground arith in
      (n, refl, h, subst (Verdict key n xs) e (select_quorum-Verdict key n xs h))
]

select_by_policy-IsChosen :
    (key : Success → Text) (q : Option ℕ) (xs : List Success) (policy : JoinPolicy)
    (chosen : List Success)
    → select_by_policy key policy xs q ≡ some (ok chosen)
    → IsChosen key q xs policy chosen
unfolding select_by_policy
select_by_policy-IsChosen key q xs barrier chosen e = ground arith
select_by_policy-IsChosen key q xs reduce chosen e = ground arith
select_by_policy-IsChosen key q [] race chosen e = cc
select_by_policy-IsChosen key q (x ∷ xs) race chosen e =
    (fastest_from x xs, ground arith, fastest_from-IsFastest [] [] xs x tt tt)
select_by_policy-IsChosen key q xs quorum chosen e =
    select_quorum-IsChosen key q xs chosen (ground arith)

-- What the gate has found when it lets a fan-in go on.
abbrev pub IsEnough : PartialFailurePolicy → ℕ → List Text → Type 0
IsEnough fail_fast n failures = failures ≡ []
IsEnough (tolerate least) n failures = least ≤ n

weigh-IsEnough :
    (p : PartialFailurePolicy) (n : ℕ) (failures : List Text)
    → weigh p n failures ≡ ok tt
    → IsEnough p n failures
unfolding weigh
weigh-IsEnough fail_fast n [] e = refl
weigh-IsEnough fail_fast n (f ∷ fs) e = ground arith
weigh-IsEnough (tolerate least) n failures e = ground arith

gate_passed :
    (policy : JoinPolicy) (n : ℕ) (failures : List Text) (p : Option PartialFailurePolicy)
    (q : Option ℕ)
    → apply_partial_failure_policy policy n failures p q ≡ ok tt
    → (0 < n) × IsEnough (resolve_policy policy p q) n failures
unfolding apply_partial_failure_policy
gate_passed policy n failures p q e = elim (Bool-cases (n == 0)) [
  | inl empty ↦ absurd (ground arith)
  | inr some_left ↦ (ground arith, weigh-IsEnough _ n failures (rw some_left at e))
]

chosen_nonempty :
    (key : Success → Text) (q : Option ℕ) (xs : List Success) (policy : JoinPolicy)
    (chosen : List Success)
    → 0 < length xs
    → IsChosen key q xs policy chosen
    → 0 < length chosen
chosen_nonempty key q xs barrier chosen h c = ground arith
chosen_nonempty key q xs reduce chosen h c = ground arith
chosen_nonempty key q xs race chosen h (f, e, _) = ground arith
chosen_nonempty key q xs quorum chosen h (n, e, pos, w) = omega (arith, w.size)

module _ (stringify : Value → Text) {S : Type 0} (options : FanInOptions S) where
  pub record IsFanIn (policy : JoinPolicy) (outcomes : List BranchOutcome) (state : S)
      : Type 0 where
    pub chosen : List Success
    pub picked :
        IsChosen
          (agreement_key stringify options)
          options.quorum_size
          (successes_of outcomes)
          policy
          chosen
    pub nonempty : 0 < length chosen
    pub enough :
        IsEnough
          (resolve_policy policy options.on_partial_failure options.quorum_size)
          (length (successes_of outcomes))
          (failures_of outcomes)
    pub folded : state ≡ options.reducer (map (λ o. o.summary) chosen)

  join_with-eq-ok :
      (gate : Result (Unit {0}) FanInError) (choice : Option (Result (List Success) FanInError))
      (state : S)
      → join_with stringify options gate choice ≡ some (ok state)
      → (chosen : List Success) × (gate ≡ ok tt)
        × (choice ≡ some (ok chosen))
        × (state ≡ options.reducer (map (λ o. o.summary) chosen))
  unfolding join_with
  join_with-eq-ok (err e) choice state eq = cc
  join_with-eq-ok (ok _) none state eq = cc
  join_with-eq-ok (ok _) (some (err e)) state eq = ground arith
  join_with-eq-ok (ok _) (some (ok chosen)) state eq = (chosen, refl, refl, ground arith)

  -- A fan-in that succeeds has enough successes for its partial-failure policy, and folds exactly
  -- the summaries that the join policy chooses: all, the first of the fastest, or the first quorum.
  -- The reducer never gets an empty list.
  pub fan_in-IsFanIn :
      (policy : JoinPolicy) (outcomes : List BranchOutcome) (state : S)
      → fan_in stringify options policy outcomes ≡ some (ok state)
      → IsFanIn policy outcomes state
  unfolding fan_in
  fan_in-IsFanIn policy outcomes state e =
      let xs = successes_of outcomes in
      let key = agreement_key stringify options in
      let (chosen, gate, choice, folded) = join_with-eq-ok _ _ state e in
      let (pos, enough) =
        gate_passed policy (length xs) (failures_of outcomes) options.on_partial_failure
          options.quorum_size gate in
      let picked = select_by_policy-IsChosen key options.quorum_size xs policy chosen choice in
      record {
        chosen = chosen;
        picked = picked;
        nonempty = chosen_nonempty key options.quorum_size xs policy chosen pos picked;
        enough = enough;
        folded = folded;
      }

  join_with-eq-none :
      (gate : Result (Unit {0}) FanInError) (choice : Option (Result (List Success) FanInError))
      → join_with stringify options gate choice ≡ none
      → (gate ≡ ok tt) × (choice ≡ none)
  unfolding join_with
  join_with-eq-none (err e) choice eq = cc
  join_with-eq-none (ok _) none eq = (refl, refl)
  join_with-eq-none (ok _) (some c) eq = cc

  select_by_policy-eq-none :
      (key : Success → Text) (policy : JoinPolicy) (xs : List Success) (q : Option ℕ)
      → select_by_policy key policy xs q ≡ none
      → length xs ≡ 0
  unfolding select_by_policy
  select_by_policy-eq-none key barrier xs q e = cc
  select_by_policy-eq-none key reduce xs q e = cc
  select_by_policy-eq-none key quorum xs q e = cc
  select_by_policy-eq-none key race [] q e = refl
  select_by_policy-eq-none key race (x ∷ xs) q e = cc

  -- The gate keeps `reduce` from an empty list: a fan-in always returns.
  pub fan_in_total :
      (policy : JoinPolicy) (outcomes : List BranchOutcome)
      → fan_in stringify options policy outcomes ≢ none
  unfolding fan_in
  fan_in_total policy outcomes e =
      let xs = successes_of outcomes in
      let (gate, choice) = join_with-eq-none _ _ e in
      let (pos, _) =
        gate_passed policy (length xs) (failures_of outcomes) options.on_partial_failure
          options.quorum_size gate in
      omega (
        arith,
        pos,
        select_by_policy-eq-none (agreement_key stringify options) policy xs options.quorum_size
            choice,
      )
