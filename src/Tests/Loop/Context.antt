-- ===== src/Tests/Loop/Context.antt =====
-- Compaction and offload at concrete inputs.
use orca_ts.Model.Utf8.{is_low, is_high, starts_low, is_placed, utf8_from, utf8_text}
use orca_ts.Base.{
  Bool, ℕ, ◌≤◌, ◌≡◌, refl, true, Option, none, some, List, [], ◌∷◌, ok, arith, Text, text, filter,
}
use orca_ts.Model.{Platform, FsTool, Remembers}
use orca_ts.Loop.Context.Compaction.{
  partition, tokens_of, mask_observation, assemble, Observation, CompactionConfig, mask, compact,
  is_pinned, total_tokens,
}
use orca_ts.Loop.Context.Compaction.Shape.{IsCompaction, compact-IsCompaction}
use orca_ts.Loop.Context.Compaction.Fit.{compact_fits, compact-pinned_le}
use orca_ts.Loop.Context.Offload.{
  OffloadStore, OffloadOutcome, intercept, byte_length, scratch_path, offload_ref, offloaded,
}
use orca_ts.Loop.Context.Offload.Laws.{StandsFor, intercept-StandsFor}

abbrev note : Text → Option Bool → ℕ → Observation
note id pinned tokens = record {
  id = id;
  content = text "x";
  pinned = pinned;
  tokens = some tokens;
}

abbrev context : List Observation
context =
    note (text "goal") (some true) 10
    ∷ note (text "a") none 50
    ∷ note (text "b") none 50
    ∷ note (text "c") none 20
    ∷ []

abbrev tight : CompactionConfig
tight = record { working_window_tokens = 100; offload_threshold_chars = 2 }

compact_runs : (compact context tight).stages_applied ≡ mask ∷ []
unfolding compact total_tokens partition tokens_of mask_observation assemble
compact_runs = refl

compact-IsCompaction_example : IsCompaction context (compact context tight)
unfolding total_tokens tokens_of
compact-IsCompaction_example = compact-IsCompaction context tight (omega arith)

compact_fits_example : (compact context tight).tokens_after ≤ 100
unfolding total_tokens tokens_of
compact_fits_example = compact_fits context tight (omega arith)

compact-pinned_le_example :
    total_tokens (filter is_pinned context) ≤ (compact context tight).tokens_after
compact-pinned_le_example = compact-pinned_le context tight

-- A disk that holds the last text written, as UTF-8 keeps it, and a host whose digest is the text itself.
abbrev disk : FsTool Text
disk = record {
  write_text = λ path body w. (utf8_text body, ok tt);
  read_text = λ path w. (w, ok w);
}

abbrev host : Platform
host = record { sha256_hex = λ t. t; join_path = λ parts. text "p" }

abbrev store : OffloadStore Text
store = record { root = text "r"; threshold = 2; fs_tool = disk; platform = host }

disk-Remembers : Remembers disk
disk-Remembers = record { read_back = λ path body w h. refl }

abbrev pointed : OffloadOutcome
unfolding offload_ref
pointed =
    offloaded (offload_ref (record { path = text "p"; bytes = 4 }))
      (record { path = text "p"; bytes = 4 })

intercept-StandsFor_example :
    StandsFor store (text "long") [] (intercept store (text "long") []).0 pointed
unfolding intercept pointed byte_length scratch_path
intercept-StandsFor_example = intercept-StandsFor store (text "long") [] pointed disk-Remembers refl

-- A pair of surrogates is kept, a high one alone and a low one alone are replaced.
pair_kept : utf8_text (0xd83d ∷ 0xde00 ∷ []) ≡ 0xd83d ∷ 0xde00 ∷ []
unfolding utf8_from is_placed starts_low is_high is_low
pair_kept = refl

lone_replaced : utf8_text (0xd83d ∷ b'a' ∷ 0xde00 ∷ []) ≡ 0xfffd ∷ b'a' ∷ 0xfffd ∷ []
unfolding utf8_from is_placed starts_low is_high is_low
lone_replaced = refl
