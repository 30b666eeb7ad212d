-- ===== src/Loop/Context/Compaction/Fit.antt =====
-- When the compacted context fits its window.
use orca_ts.Base.{
  length-map, leb→le, Bool, reverse, leb, ltb, filter, min, take, false, zero, length-append,
  length-take-le, Text, text, Bool-cases, inl, inr, suc, length, drop, ℕ, ◌+◌, ◌-◌, ◌*◌, ◌/◌, ◌≤◌,
  ◌≡◌, refl, ap, List, [], ◌∷◌, ◌++◌, map, arith,
}
use orca_ts.Loop.Context.Compaction.{
  mask_tokens, spell_history, clip, Observation, CompactionConfig, total_tokens, tokens_of,
  is_pinned, is_full, collect_recent, partition, mask_observation, summarize_observations, assemble,
  squeeze, compact, Partition,
}
use orca_ts.Loop.Context.Compaction.Shape.{compact-IsCompaction, flow, compact_under_pressure}

-- The cost of the first of some observations.
abbrev pub first_cost : List Observation → ℕ
first_cost [] = 0
first_cost (o ∷ os) = tokens_of o

total_tokens-append :
    (xs ys : List Observation) → total_tokens (xs ++ ys) ≡ total_tokens xs + total_tokens ys
unfolding total_tokens
total_tokens-append [] ys = omega arith
total_tokens-append (x ∷ xs) ys = omega (arith, total_tokens-append xs ys)

tokens_of_mask : (o : Observation) → tokens_of (mask_observation o) ≡ 2
unfolding mask_observation tokens_of
tokens_of_mask o = refl

total_tokens_of_masks :
    (n : ℕ) (os : List Observation)
    → total_tokens (drop n (map mask_observation os)) ≡ 2 * (length os - n)
unfolding total_tokens
total_tokens_of_masks zero [] = refl
total_tokens_of_masks (suc n) [] = omega arith
total_tokens_of_masks zero (o ∷ os) = omega (arith, tokens_of_mask o, total_tokens_of_masks zero os)
total_tokens_of_masks (suc n) (o ∷ os) = omega (arith, total_tokens_of_masks n os)

length-clip : (full : Text) → length (clip full) ≤ 192
unfolding clip
length-clip full = elim (Bool-cases (ltb 192 (length full))) [
  | inl long ↦
      rw long (omega (arith, length-append (take 191 full) (text "…"), length-take-le 191 full))
  | inr short ↦ rw short (ground arith)
]

tokens_of_summary : (os : List Observation) → tokens_of (summarize_observations os) ≤ 48
unfolding summarize_observations tokens_of
tokens_of_summary os = omega (arith, length-clip (spell_history os))

room :
    (budget cost used : ℕ) (recent : List Observation)
    → used ≡ total_tokens recent
    → used ≤ budget
    → (recent ≡ [] → cost ≤ budget)
    → is_full budget recent (used + cost) ≡ false
    → used + cost ≤ budget
unfolding total_tokens
room budget cost used [] e h n more = ground (arith, n refl)
room budget cost used (r ∷ recent) e h n more = ground arith

-- The tail stays within its budget, if the newest observation does.
collect_recent-le :
    (budget : ℕ) (rest recent : List Observation) (used : ℕ)
    → used ≡ total_tokens recent
    → used ≤ budget
    → (recent ≡ [] → first_cost rest ≤ budget)
    → total_tokens (collect_recent budget rest recent used) ≤ budget
unfolding collect_recent total_tokens
collect_recent-le budget [] recent used e h n = omega arith
collect_recent-le budget (o ∷ rest) recent used e h n =
    elim (Bool-cases (is_full budget recent (used + tokens_of o))) [
      | inl full ↦ rw full (omega arith)
      | inr more ↦ rw more (
          collect_recent-le budget rest (o ∷ recent) (used + tokens_of o) (omega arith)
            (room budget (tokens_of o) used recent e h n more) (λ e. cc))
    ]

-- What compaction needs to fit: room for the pinned observations, for a summary, and for the newest
-- of the others.
abbrev pub HasRoom : List Observation → ℕ → Type 0
HasRoom os window =
    total_tokens (filter is_pinned os) + 48 + first_cost (reverse (flow os)) ≤ window

partition-recent_le :
    (os : List Observation) (window : ℕ)
    → HasRoom os window
    → total_tokens (partition os window).pinned + total_tokens (partition os window).recent + 48
      ≤ window
unfolding partition total_tokens
partition-recent_le os window h =
    let pinned = total_tokens (filter is_pinned os) in
    omega (
      arith,
      collect_recent-le (window - pinned - 48) (reverse (flow os)) [] 0 refl (omega arith)
          (λ e. omega arith),
    )

mask_tokens_lem : mask_tokens ≡ 2
unfolding mask_tokens
mask_tokens_lem = refl

total_tokens-parts :
    (xs ys zs : List Observation)
    → total_tokens (xs ++ ys ++ zs) ≡ total_tokens xs + (total_tokens ys + total_tokens zs)
total_tokens-parts xs ys zs =
    omega (arith, total_tokens-append (xs ++ ys) zs, total_tokens-append xs ys)

total_tokens-one : (o : Observation) → total_tokens (o ∷ []) ≡ tokens_of o
unfolding total_tokens
total_tokens-one o = omega arith

squeeze_fits :
    (p : Partition) (window before : ℕ)
    → total_tokens p.pinned + total_tokens p.recent + 48 ≤ window
    → (squeeze p window before).tokens_after ≤ window
unfolding squeeze assemble
squeeze_fits p window before h =
    let stubs = map mask_observation p.history in
    let fixed = total_tokens p.pinned + total_tokens p.recent in
    let keep = min (length stubs) ((window - fixed) / mask_tokens) in
    let dropped = length stubs - keep in
    elim (Bool-cases (leb (fixed + total_tokens stubs) window)) [
      | inl fits ↦
          rw fits (omega (arith, leb→le _ _ fits, total_tokens-parts p.pinned stubs p.recent))
      | inr over ↦ elim (Bool-cases (leb (2 * dropped) (length stubs))) [
        | inl few ↦
            rw (over, few)
              (omega (
                arith,
                total_tokens-parts p.pinned (drop dropped stubs) p.recent,
                total_tokens_of_masks dropped p.history,
                length-map p.history mask_observation,
                ap (λ (n : ℕ). (window - fixed) / n) mask_tokens_lem,
              ))
        | inr many ↦
            rw (over, many)
              (omega (
                arith,
                total_tokens-parts p.pinned (summarize_observations p.history ∷ []) p.recent,
                total_tokens-one (summarize_observations p.history),
                tokens_of_summary p.history,
              ))
      ]
    ]

-- The compacted context fits the window if the window has room for the pinned observations, for a
-- summary of 48 tokens, and for the newest of the other observations.
pub compact_fits :
    (os : List Observation) (config : CompactionConfig)
    → HasRoom os config.working_window_tokens
    → (compact os config).tokens_after ≤ config.working_window_tokens
compact_fits os config h =
    let window = config.working_window_tokens in
    elim (Bool-cases (leb (total_tokens os) window)) [
      | inl easy ↦ unfold compact in rw (easy, compact) (leb→le _ _ easy)
      | inr tight ↦ rw (compact_under_pressure os config (ground arith)) (
          squeeze_fits (partition os window) window (total_tokens os)
            (partition-recent_le os window h))
    ]

total_tokens-filter-le :
    (p : Observation → Bool) (os : List Observation) → total_tokens (filter p os) ≤ total_tokens os
unfolding total_tokens
total_tokens-filter-le p [] = omega arith
total_tokens-filter-le p (o ∷ os) = ground (arith, total_tokens-filter-le p os)

-- Whatever the window, the pinned observations are counted in full after compaction; so a window
-- that is smaller than they are is overrun.
pub compact-pinned_le :
    (os : List Observation) (config : CompactionConfig)
    → total_tokens (filter is_pinned os) ≤ (compact os config).tokens_after
compact-pinned_le os config =
    let window = config.working_window_tokens in
    elim (Bool-cases (leb (total_tokens os) window)) [
      | inl easy ↦ unfold compact in rw (easy, compact) (total_tokens-filter-le is_pinned os)
      | inr tight ↦
          let c = compact-IsCompaction os config (ground arith) in
          omega (
            arith,
            c.after,
            ap total_tokens c.kept,
            total_tokens-parts (filter is_pinned os) c.replacement c.recent,
          )
    ]
