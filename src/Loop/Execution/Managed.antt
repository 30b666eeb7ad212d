-- ===== src/Loop/Execution/Managed.antt =====
-- src/loop/execution.ts, `createManagedContext` and `mergePressure`.
-- A loop without context options has no managed context: `none`.
use orca_ts.Base.{
  ℕ, ◌+◌, ◌==◌, max, Bool, true, false, ◌&&◌, Option, none, some, List, [], ◌∷◌, ◌++◌, Result, ok,
  err, if◌then◌else◌, length,
}
use orca_ts.Model.{RuntimeError}
use orca_ts.Loop.Context.Compaction.{Observation, CompactionConfig, compact}
use orca_ts.Loop.Context.Offload.{OffloadOutcome, inline, offloaded, OffloadStore, intercept}
use orca_ts.Loop.Execution.Step.{LoopContextPressure}

pub record ManagedContext : Type 0 where
  pub observations : List Observation
  pub last_pressure : Option LoopContextPressure

-- What the options fix for the life of a managed context: `config` and `offloadStore`.
pub record ContextSettings (W : Type 0) : Type 0 where
  pub config : CompactionConfig
  pub offload_store : OffloadStore W

-- The observation that takes the place of an intercepted one: the reference and the pin are kept.
abbrev pub bounded_by : Observation → OffloadOutcome → Observation
bounded_by o (inline content) = o
bounded_by o (offloaded ref pointer) = record {
  id = o.id;
  content = ref;
  pinned = o.pinned;
  tokens = none;
}

abbrev pub offload_weight : OffloadOutcome → ℕ
offload_weight (inline content) = 0
offload_weight (offloaded ref pointer) = 1

abbrev pub is_empty : {A : Type 0} → List A → Bool
is_empty [] = true
is_empty (a ∷ as') = false

pub record Intake : Type 0 where
  pub offload_count : ℕ
  pub bounded : List Observation

module _ {W : Type 0} (settings : ContextSettings W) where
  open settings use {config, offload_store}

  -- The loop of `record` over the new observations; it stops at the first failed write.
  unfoldable pub intake : List Observation → W → W × Result Intake RuntimeError
  intake [] w = (w, ok (record { offload_count = 0; bounded = [] }))
  intake (o ∷ os) w =
      let (w₁, intercepted) = intercept offload_store o.content w in
      let (w₂, rest) = intake os w₁ in
      elim intercepted [
        | err e ↦ (w₁, err e)
        | ok outcome ↦ (
          w₂,
          elim rest [
            | err e ↦ err e
            | ok more ↦ ok (record {
              offload_count = offload_weight outcome + more.offload_count;
              bounded = bounded_by o outcome ∷ more.bounded;
            })
          ],
        )
      ]

  -- The rest of `record`: compaction and the pressure that it reports.
  unfoldable pub settle_pressure :
      ManagedContext → Intake → ManagedContext × Option LoopContextPressure
  settle_pressure context taken =
      let observations = context.observations ++ taken.bounded in
      let compacted = compact observations config in
      let pressure : LoopContextPressure = record {
        offload_count = taken.offload_count;
        compaction_stages = compacted.stages_applied;
        tokens_before = compacted.tokens_before;
        tokens_after = compacted.tokens_after;
        observation_count = length compacted.observations;
      } in
      if is_empty observations
      then (record context { observations = observations }, none)
      else if taken.offload_count == 0 && is_empty compacted.stages_applied
      then (record context { observations = compacted.observations }, none)
      else (
        record { observations = compacted.observations; last_pressure = some pressure },
        some pressure,
      )

  -- The method `record`: on a failed write the context is unchanged.
  unfoldable pub record_observations :
      Option (List Observation)
      → ManagedContext
      → W
      → W × ManagedContext × Result (Option LoopContextPressure) RuntimeError
  unfolding settle_pressure intake
  record_observations none context w =
      let (context', pressure) =
        settle_pressure context (record { offload_count = 0; bounded = [] }) in
      (w, context', ok pressure)
  record_observations (some os) context w =
      let (w', taken) = intake os w in
      elim taken [
        | err e ↦ (w', context, err e)
        | ok t ↦ let (context', pressure) = settle_pressure context t in (w', context', ok pressure)
      ]

unfoldable pub merge_pressure :
    Option LoopContextPressure → Option LoopContextPressure → Option LoopContextPressure
merge_pressure none managed = managed
merge_pressure (some explicit) none = some explicit
merge_pressure (some explicit) (some managed) = some (record {
  offload_count = explicit.offload_count + managed.offload_count;
  compaction_stages = explicit.compaction_stages ++ managed.compaction_stages;
  tokens_before = max explicit.tokens_before managed.tokens_before;
  tokens_after = managed.tokens_after;
  observation_count = managed.observation_count;
})
