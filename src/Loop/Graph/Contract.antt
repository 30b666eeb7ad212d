-- ===== src/Loop/Graph/Contract.antt =====
-- src/loop/termination-contract.ts: every cycle must be declared, with a variant at its head.
use orca_ts.Loop.Graph.Analyze.{BackEdge, NodeId, CycleReport}
use orca_ts.Base.{
  if_elim, ap, sym, arith, ◌∙◌, true, false, subst, arith, true, sym, false, refl, none, ◌<◌, All,
  [], not, same, ◌==◌, get_last?, ◌≡◌, length, err, if◌then◌else◌, filter, ◌∷◌, some, ok, map, ◌++◌,
  ◌&&◌, text, Option, Bool, Result, Text, join, List, decimal,
}

pub data CycleViolationKind : Type 0 where
  unguarded_back_edge accidental_cycle : CycleViolationKind

pub record CycleViolation : Type 0 where
  pub kind : CycleViolationKind
  pub back_edge : BackEdge
  pub cycle : List NodeId

pub record TerminationContractError : Type 0 where
  pub violations : List CycleViolation
  pub message : Text

-- `closed`: the cycle with its first node again at the end, if it does not end in it.
abbrev pub close_cycle : NodeId → List NodeId → Option NodeId → List NodeId
close_cycle first cycle (some last) = if same last first then cycle else cycle ++ first ∷ []
close_cycle first cycle none = cycle ++ first ∷ []

unfoldable pub name_cycle : List NodeId → Text
unfolding join
name_cycle [] = text "(empty)"
name_cycle (first ∷ []) = first ++ text " → " ++ first
name_cycle (first ∷ second ∷ rest) =
    join (text " → ") (close_cycle first (first ∷ second ∷ rest) (get_last? (second ∷ rest)))

unfoldable pub describe_kind : CycleViolationKind → BackEdge → Text → Text
describe_kind accidental_cycle e named =
    text "accidental cycle " ++ named ++ text " — declare it as a loop back-edge or remove an edge"
describe_kind unguarded_back_edge e named =
    text "unguarded back-edge "
    ++ e.from
    ++ text " → "
    ++ e.to
    ++ text " closing cycle "
    ++ named
    ++ text " — add a preset archetype or .measure() to node \""
    ++ e.to
    ++ text "\""

abbrev pub describe : CycleViolation → Text
describe v = describe_kind v.kind v.back_edge (name_cycle v.cycle)

-- What the loop over the back-edges pushes for one of them.
unfoldable pub violations_of : (NodeId → Bool) → List BackEdge → List CycleViolation
violations_of has_variant [] = []
violations_of has_variant (e ∷ es) =
    let rest = violations_of has_variant es in
    if not e.declared
    then record { kind = accidental_cycle; back_edge = e; cycle = e.cycle } ∷ rest
    else if not (has_variant e.to)
    then record { kind = unguarded_back_edge; back_edge = e; cycle = e.cycle } ∷ rest
    else rest

unfoldable pub contract_message : List CycleViolation → Text
unfolding describe_kind name_cycle decimal join
contract_message violations =
    text "Loop graph violates termination by construction ("
    ++ decimal (length violations)
    ++ text " "
    ++ (if length violations == 1 then text "cycle" else text "cycles")
    ++ text "): "
    ++ join (text "; ") (map describe violations)
    ++ text "."

unfoldable pub report_violations : List CycleViolation → Result (Unit {0}) TerminationContractError
unfolding contract_message
report_violations [] = ok tt
report_violations (v ∷ vs) =
    err (record { violations = v ∷ vs; message = contract_message (v ∷ vs) })

unfoldable pub enforce_termination_contract :
    CycleReport → (NodeId → Bool) → Result (Unit {0}) TerminationContractError
unfolding violations_of report_violations
enforce_termination_contract report has_variant =
    report_violations (violations_of has_variant report.back_edges)

-- A back-edge that a loop may have.
abbrev pub is_lawful : (NodeId → Bool) → BackEdge → Bool
is_lawful has_variant e = e.declared && has_variant e.to

abbrev pub is_unlawful : (NodeId → Bool) → BackEdge → Bool
is_unlawful has_variant e = not (is_lawful has_variant e)

-- A violation names its edge's cycle and says what is wrong with it.
abbrev pub IsFault : (NodeId → Bool) → CycleViolationKind → BackEdge → Type 0
IsFault has_variant accidental_cycle e = e.declared ≡ false
IsFault has_variant unguarded_back_edge e = (e.declared ≡ true) × (has_variant e.to ≡ false)

abbrev pub IsAccurate : (NodeId → Bool) → CycleViolation → Type 0
IsAccurate has_variant v = IsFault has_variant v.kind v.back_edge × (v.cycle ≡ v.back_edge.cycle)

filter_found :
    {A : Type 0} (p : A → Bool) (x : A) (xs : List A)
    → p x ≡ true
    → filter p (x ∷ xs) ≡ x ∷ filter p xs
filter_found p x xs e = rw e refl

filter_passed :
    {A : Type 0} (p : A → Bool) (x : A) (xs : List A)
    → p x ≡ false
    → filter p (x ∷ xs) ≡ filter p xs
filter_passed p x xs e = rw e refl

violations_lem :
    (has_variant : NodeId → Bool) (es : List BackEdge)
    → (map (λ v. v.back_edge) (violations_of has_variant es) ≡ filter (is_unlawful has_variant) es)
      × All (IsAccurate has_variant) (violations_of has_variant es)
unfolding violations_of
violations_lem has_variant [] = (refl, tt)
violations_lem has_variant (e ∷ es) =
    let (named, right) = violations_lem has_variant es in
    let ill : BackEdge → Bool = is_unlawful has_variant in
    if_elim
      (λ vs. (map (λ v. v.back_edge) vs ≡ filter ill (e ∷ es)) × All (IsAccurate has_variant) vs)
      (not e.declared)
      (λ undeclared.
        let found : ill e ≡ true = ground arith in
        (
          ap (λ xs. e ∷ xs) named ∙ sym (filter_found ill e es found),
          ((ground arith, refl), right),
        ))
      (λ declared.
        if_elim
          (λ vs.
            (map (λ v. v.back_edge) vs ≡ filter ill (e ∷ es)) × All (IsAccurate has_variant) vs)
          (not (has_variant e.to))
          (λ bare.
            let found : ill e ≡ true = ground arith in
            (
              ap (λ xs. e ∷ xs) named ∙ sym (filter_found ill e es found),
              (((ground arith, ground arith), refl), right),
            ))
          (λ guarded.
            let passed : ill e ≡ false = ground arith in
            (named ∙ sym (filter_passed ill e es passed), right)))

-- What the contract's answer says of the back-edges.
abbrev pub Ruling :
    (NodeId → Bool) → List BackEdge → Result (Unit {0}) TerminationContractError → Type 0
Ruling has_variant es (ok _) = filter (is_unlawful has_variant) es ≡ []
Ruling has_variant es (err e) =
    (map (λ v. v.back_edge) e.violations ≡ filter (is_unlawful has_variant) es)
    × All (IsAccurate has_variant) e.violations
    × (0 < length e.violations)

report_violations-Ruling :
    (has_variant : NodeId → Bool) (es : List BackEdge) (vs : List CycleViolation)
    → violations_of has_variant es ≡ vs
    → Ruling has_variant es (report_violations vs)
unfolding report_violations
report_violations-Ruling has_variant es vs e = go vs (
    subst
      (λ vs.
        (map (λ v. v.back_edge) vs ≡ filter (is_unlawful has_variant) es)
        × All (IsAccurate has_variant) vs)
      e (violations_lem has_variant es))
  where
    go :
        (vs : List CycleViolation)
        → (map (λ v. v.back_edge) vs ≡ filter (is_unlawful has_variant) es)
          × All (IsAccurate has_variant) vs
        → Ruling has_variant es (report_violations vs)
    go [] (named, right) = sym named
    go (v ∷ vs) (named, right) = (named, right, omega arith)

-- The contract holds exactly when every back-edge is declared and its head has a variant; otherwise
-- the error names each of the other back-edges once, in their order, with its cycle and with what is
-- wrong with it.
pub enforce_termination_contract-Ruling :
    (report : CycleReport) (has_variant : NodeId → Bool)
    → Ruling has_variant report.back_edges (enforce_termination_contract report has_variant)
unfolding enforce_termination_contract
enforce_termination_contract-Ruling report has_variant =
    report_violations-Ruling has_variant report.back_edges
      (violations_of has_variant report.back_edges) refl
