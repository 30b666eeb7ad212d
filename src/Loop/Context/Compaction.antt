-- ===== src/Loop/Context/Compaction.antt =====
-- src/loop/context/compaction.ts and the configuration of src/loop/context/types.ts.
-- Lengths count UTF-16 code units. Token costs and windows are naturals, so `Math.max(0, a - b)` is
-- the truncated subtraction, and `x <= y * 0.5` is `2 * x ≤ y`.
pub mod Shape
pub mod Fit
use orca_ts.Base.{
  ℕ, zero, suc, ◌+◌, ◌-◌, ◌*◌, ◌/◌, min, Bool, true, false, not, ◌&&◌, ◌||◌, Option, none, some,
  List, [], ◌∷◌, ◌++◌, map, leb, ltb, if◌then◌else◌, or_default, length, take, drop, filter, Text,
  text, join, decimal,
}
use mathlib.Core.List.{reverse}

pub record CompactionConfig : Type 0 where
  pub working_window_tokens : ℕ
  pub offload_threshold_chars : ℕ

abbrev pub default_compaction_config : CompactionConfig
default_compaction_config = record { working_window_tokens = 2000; offload_threshold_chars = 8000 }

abbrev pub chars_per_token : ℕ
chars_per_token = 4

abbrev pub summary_token_cap : ℕ
summary_token_cap = 48

abbrev pub summary_char_cap : ℕ
summary_char_cap = summary_token_cap * chars_per_token

abbrev pub mask_placeholder : Text
mask_placeholder = text "⟦masked⟧"

pub data CompactionStage : Type 0 where
  mask prune summarize : CompactionStage

pub record Observation : Type 0 where
  pub id : Text
  pub content : Text
  pub pinned : Option Bool
  pub tokens : Option ℕ

pub record CompactionResult : Type 0 where
  pub observations : List Observation
  pub stages_applied : List CompactionStage
  pub tokens_before : ℕ
  pub tokens_after : ℕ

-- `Math.ceil(text.length / CHARS_PER_TOKEN)`.
unfoldable pub estimate_tokens : Text → ℕ
estimate_tokens t = (length t + 3) / chars_per_token

abbrev pub mask_tokens : ℕ
unfolding estimate_tokens
mask_tokens = estimate_tokens mask_placeholder

unfoldable pub tokens_of : Observation → ℕ
unfolding estimate_tokens
tokens_of o = or_default o.tokens (estimate_tokens o.content)

unfoldable pub total_tokens : List Observation → ℕ
total_tokens [] = 0
total_tokens (o ∷ os) = tokens_of o + total_tokens os

-- `pinned === true`.
abbrev pub is_pinned : Observation → Bool
is_pinned o = or_default o.pinned false

-- The newest observation is always kept; after it the tail stops at its budget.
abbrev pub is_full : ℕ → List Observation → ℕ → Bool
is_full budget recent used = ltb 0 (length recent) && ltb budget used

-- The loop of `partition`, from the newest observation back: the tail kept so far, oldest first, and
-- its cost.
unfoldable pub collect_recent : ℕ → List Observation → List Observation → ℕ → List Observation
collect_recent budget [] recent used = recent
collect_recent budget (o ∷ older) recent used =
    let kept = collect_recent budget older (o ∷ recent) (used + tokens_of o) in
    if is_full budget recent (used + tokens_of o) then recent else kept

pub record Partition : Type 0 where
  pub pinned : List Observation
  pub recent : List Observation
  pub history : List Observation

unfoldable pub partition : List Observation → ℕ → Partition
unfolding collect_recent
partition observations window =
    let pinned = filter is_pinned observations in
    let flow = filter (λ o. not (is_pinned o)) observations in
    let budget = window - total_tokens pinned - summary_token_cap in
    let recent = collect_recent budget (reverse flow) [] 0 in
    record { pinned = pinned; recent = recent; history = take (length flow - length recent) flow }

unfoldable pub mask_observation : Observation → Observation
mask_observation o = record { id = o.id; content = mask_placeholder; pinned = none; tokens = none }

-- A text cut to `SUMMARY_CHAR_CAP` units, with an ellipsis for what is cut.
unfoldable pub clip : Text → Text
clip full =
    if ltb summary_char_cap (length full)
    then take (summary_char_cap - 1) full ++ text "…"
    else full

unfoldable pub spell_history : List Observation → Text
spell_history history =
    text "⟦summary of "
    ++ decimal (length history)
    ++ text " earlier observations: "
    ++ join (text ", ") (map (λ o. o.id) history)
    ++ text "⟧"

unfoldable pub summarize_observations : List Observation → Observation
summarize_observations history = record {
  id = text "compaction-summary";
  content = clip (spell_history history);
  pinned = none;
  tokens = none;
}

unfoldable pub assemble :
    List Observation
    → List Observation
    → List Observation
    → List CompactionStage
    → ℕ
    → CompactionResult
assemble pinned replacement recent stages before =
    let observations = pinned ++ replacement ++ recent in
    record {
      observations = observations;
      stages_applied = stages;
      tokens_before = before;
      tokens_after = total_tokens observations;
    }

-- The stages, on the parts of the context.
unfoldable pub squeeze : Partition → ℕ → ℕ → CompactionResult
squeeze parts window before =
    let fixed = total_tokens parts.pinned + total_tokens parts.recent in
    let masked = map mask_observation parts.history in
    let keep = min (length masked) ((window - fixed) / mask_tokens) in
    let dropped = length masked - keep in
    if leb (fixed + total_tokens masked) window
    then assemble parts.pinned masked parts.recent (mask ∷ []) before
    else if leb (2 * dropped) (length masked)
    then assemble parts.pinned (drop (length masked - keep) masked) parts.recent (mask ∷ prune ∷ [])
        before
    else assemble parts.pinned (summarize_observations parts.history ∷ []) parts.recent
        (mask ∷ prune ∷ summarize ∷ []) before

unfoldable pub compact : List Observation → CompactionConfig → CompactionResult
unfolding squeeze
compact observations config =
    let window = config.working_window_tokens in
    let before = total_tokens observations in
    if leb before window
    then record {
      observations = observations;
      stages_applied = [];
      tokens_before = before;
      tokens_after = before;
    }
    else squeeze (partition observations window) window before
