-- ===== src/Loop/Context/Compaction/Shape.antt =====
-- What compaction keeps, and in which order.
use orca_ts.Base.{
  leb→le, length-map, leb, ◌/◌, min, take-append, length-reverse, subst, reverse, reverse-cons,
  reverse-reverse, ℕ, ◌+◌, ◌-◌, ◌*◌, ◌≤◌, ◌<◌, ◌≡◌, refl, sym, ap, ◌∙◌, not, List, [], ◌∷◌, ◌++◌,
  map, arith, Bool-cases, inl, inr, length, take, drop, filter, append_assoc, append-nil,
  length-append,
}
use orca_ts.Loop.Context.Compaction.{
  mask_tokens, Partition, is_full, Observation, CompactionResult, CompactionConfig, CompactionStage,
  mask, prune, summarize, total_tokens, is_pinned, collect_recent, partition, mask_observation,
  summarize_observations, assemble, squeeze, compact, tokens_of,
}

append-reverse_cons :
    (o : Observation) (rest recent : List Observation)
    → reverse (o ∷ rest) ++ recent ≡ reverse rest ++ (o ∷ recent)
append-reverse_cons o rest recent =
    ap (λ (l : List Observation). l ++ recent) (reverse-cons o rest)
    ∙ append_assoc (reverse rest) (o ∷ []) recent

-- The tail kept is an end of what was there.
pub collect_recent-suffix :
    (budget : ℕ) (newest_first recent : List Observation) (used : ℕ)
    → (older : List Observation) × (reverse newest_first ++ recent
        ≡ older ++ collect_recent budget newest_first recent used)
unfolding collect_recent
collect_recent-suffix budget [] recent used = ([], refl)
collect_recent-suffix budget (o ∷ rest) recent used =
    elim (Bool-cases (is_full budget recent (used + tokens_of o))) [
      | inl full ↦ (reverse (o ∷ rest), rw full)
      | inr more ↦
          let (older, e) = collect_recent-suffix budget rest (o ∷ recent) (used + tokens_of o) in
          (older, rw more (append-reverse_cons o rest recent ∙ e))
    ]

collect_recent-nonempty :
    (budget : ℕ) (newest_first recent : List Observation) (used : ℕ)
    → 0 < length newest_first + length recent
    → 0 < length (collect_recent budget newest_first recent used)
unfolding collect_recent
collect_recent-nonempty budget [] recent used h = omega arith
collect_recent-nonempty budget (o ∷ rest) recent used h =
    ground (arith, collect_recent-nonempty budget rest (o ∷ recent) (used + tokens_of o))

take_of_append :
    (xs older ys : List Observation) → xs ≡ older ++ ys → xs ≡ take (length xs - length ys) xs ++ ys
take_of_append xs older ys e =
    subst (λ l. l ≡ take (length l - length ys) l ++ ys) (sym e)
      (sym (
        ap (λ l. l ++ ys)
          (ap (λ n. take n (older ++ ys)) {x = length (older ++ ys) - length ys} {y = length older}
              (omega (arith, length-append older ys))
            ∙ take-append older ys)))

abbrev pub flow : List Observation → List Observation
flow = filter (λ o. not (is_pinned o))

-- The history and the recent tail are the unpinned observations cut in two.
pub partition-flow :
    (os : List Observation) (window : ℕ)
    → let p = partition os window in
      (p.pinned ≡ filter is_pinned os)
      × (flow os ≡ p.history ++ p.recent)
      × (0 < length (flow os) → 0 < length p.recent)
unfolding partition
partition-flow os window =
    let budget = window - total_tokens (filter is_pinned os) - 48 in
    let (older, e) = collect_recent-suffix budget (reverse (flow os)) [] 0 in
    let cut : flow os ≡ older ++ collect_recent budget (reverse (flow os)) [] 0 =
      sym (append-nil _ ∙ reverse-reverse _) ∙ e in
    (
      refl,
      take_of_append (flow os) older _ cut,
      λ h.
          collect_recent-nonempty budget (reverse (flow os)) [] 0
            (omega (arith, length-reverse (flow os))),
    )

-- The stages that compaction may reach, with what stands for the history in each.
pub data Replaces (history replacement : List Observation) (stages : List CompactionStage)
    : Type 0 where
  masked :
      replacement ≡ map mask_observation history
      → stages ≡ mask ∷ []
      → Replaces history replacement stages
  pruned :
      (n : ℕ)
      → 2 * n ≤ length history
      → replacement ≡ drop n (map mask_observation history)
      → stages ≡ mask ∷ prune ∷ []
      → Replaces history replacement stages
  summarized :
      replacement ≡ summarize_observations history ∷ []
      → stages ≡ mask ∷ prune ∷ summarize ∷ []
      → Replaces history replacement stages

pub record IsCompaction (os : List Observation) (r : CompactionResult) : Type 0 where
  pub history : List Observation
  pub replacement : List Observation
  pub recent : List Observation
  pub cut : flow os ≡ history ++ recent
  pub newest : 0 < length (flow os) → 0 < length recent
  pub replaced : Replaces history replacement r.stages_applied
  pub kept : r.observations ≡ filter is_pinned os ++ replacement ++ recent
  pub before : r.tokens_before ≡ total_tokens os
  pub after : r.tokens_after ≡ total_tokens r.observations

squeeze-Replaces :
    (p : Partition) (window before : ℕ)
    → (replacement : List Observation) × (stages : List CompactionStage) × (squeeze p window before
        ≡ assemble p.pinned replacement p.recent stages before)
      × Replaces p.history replacement stages
unfolding squeeze
squeeze-Replaces p window before =
    let stubs = map mask_observation p.history in
    let fixed = total_tokens p.pinned + total_tokens p.recent in
    let keep = min (length stubs) ((window - fixed) / mask_tokens) in
    let dropped = length stubs - keep in
    elim (Bool-cases (leb (fixed + total_tokens stubs) window)) [
      | inl fits ↦ (stubs, mask ∷ [], rw fits, masked refl refl)
      | inr over ↦ elim (Bool-cases (leb (2 * dropped) (length stubs))) [
        | inl few ↦ (
          drop dropped stubs,
          mask ∷ prune ∷ [],
          rw (over, few),
          pruned dropped
              (subst (λ n. 2 * dropped ≤ n) (length-map p.history mask_observation)
                (leb→le _ _ few))
              refl refl,
        )
        | inr many ↦ (
          summarize_observations p.history ∷ [],
          mask ∷ prune ∷ summarize ∷ [],
          rw (over, many),
          summarized refl refl,
        )
      ]
    ]

pub compact_under_pressure :
    (os : List Observation) (config : CompactionConfig)
    → config.working_window_tokens < total_tokens os
    → compact os config
      ≡ squeeze
          (partition os config.working_window_tokens)
          config.working_window_tokens
          (total_tokens os)
unfolding compact
compact_under_pressure os config h = ground arith

-- Under pressure, the result holds the pinned observations in their order, then what stands for the
-- history, then the newest unpinned observations, at least one if there is one, untouched. The
-- history is masked, or masked and cut by at most half from its old end, or made one summary; the
-- stages say which, and the totals count the tokens before and after.
pub compact-IsCompaction :
    (os : List Observation) (config : CompactionConfig)
    → config.working_window_tokens < total_tokens os
    → IsCompaction os (compact os config)
compact-IsCompaction os config h =
    let window = config.working_window_tokens in
    let p = partition os window in
    let (replacement, stages, e, replaces) = squeeze-Replaces p window (total_tokens os) in
    let (pinned, cut, newest) = partition-flow os window in
    subst (IsCompaction os) (sym (compact_under_pressure os config h ∙ e)) (
      unfold assemble in
      record {
        history = p.history;
        replacement = replacement;
        recent = p.recent;
        cut = cut;
        newest = newest;
        replaced = replaces;
        kept = ap (λ l. l ++ replacement ++ p.recent) pinned;
        before = refl;
        after = refl;
      })
