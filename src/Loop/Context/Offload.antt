-- ===== src/Loop/Context/Offload.antt =====
-- src/loop/context/offload.ts: an output above a size goes to a scratch file, and a short reference
-- stands for it. The file's mode, 0o600, is left out.
pub mod Bytes
pub mod Laws
use orca_ts.Model.Utf8.{is_low, is_high}
use orca_ts.Base.{
  ℕ, ◌+◌, Bool, true, false, ◌&&◌, Option, none, some, List, [], ◌∷◌, ◌++◌, map, Result, ok, err,
  leb, ltb, ◌==◌, if◌then◌else◌, length, take, drop, Text, text, starts_with, decimal,
}
use orca_ts.Model.{RuntimeError, Platform, FsTool}

pub record OffloadPointer : Type 0 where
  pub path : Text
  pub bytes : ℕ

pub data OffloadOutcome : Type 0 where
  inline : (content : Text) → OffloadOutcome
  offloaded : (ref : Text) (pointer : OffloadPointer) → OffloadOutcome

-- `Buffer.byteLength(output, "utf8")` over UTF-16 code units: a surrogate pair takes four bytes, a
-- surrogate that stands alone is replaced by a character of three.
unfoldable pub unit_bytes : ℕ → ℕ
unit_bytes u = if ltb u 0x80 then 1 else if ltb u 0x800 then 2 else 3

-- The first argument says whether a high surrogate, already counted as three bytes, comes before.
unfoldable pub byte_length_from : Bool → Text → ℕ
unfolding is_high is_low unit_bytes
byte_length_from after_high [] = 0
byte_length_from after_high (u ∷ us) =
    (if after_high && is_low u then 1 else unit_bytes u) + byte_length_from (is_high u) us

unfoldable pub byte_length : Text → ℕ
unfolding byte_length_from
byte_length t = byte_length_from false t

-- `replaceAll("\\", "/")`.
abbrev forward_slashes : Text → Text
forward_slashes = map (λ u. if u == b'\\' then b'/' else u)

abbrev marker : Text
marker = text "/.orca/scratch/"

-- What follows the last occurrence of the marker, if there is one.
after_marker : Text → Option Text
after_marker [] = none
after_marker (u ∷ us) = elim (after_marker us) [
  | some rest ↦ some rest
  | none ↦ if starts_with (u ∷ us) marker then some (drop (length marker) (u ∷ us)) else none
]

-- `split("/").at(-1)`.
last_part : Text → Text → Text
last_part part [] = part
last_part part (u ∷ us) = last_part (if u == b'/' then [] else part ++ u ∷ []) us

unfoldable pub offload_display_path : Text → Text
unfolding after_marker last_part starts_with
offload_display_path path =
    let normalized = forward_slashes path in
    elim (after_marker normalized) [
      | some rest ↦ text ".orca/scratch/" ++ rest
      | none ↦ last_part [] normalized
    ]

unfoldable pub offload_ref : OffloadPointer → Text
unfolding offload_display_path decimal
offload_ref pointer =
    text "⟦offloaded "
    ++ decimal pointer.bytes
    ++ text "B → "
    ++ offload_display_path pointer.path
    ++ text "⟧"

pub record OffloadStore (W : Type 0) : Type 0 where
  pub root : Text
  pub threshold : ℕ
  pub fs_tool : FsTool W
  pub platform : Platform

module _ {W : Type 0} (store : OffloadStore W) where
  open store use {root, threshold, fs_tool, platform}

  unfoldable pub scratch_path : Text → Text
  scratch_path output = platform.join_path (
      root
      ∷ text ".orca"
      ∷ text "scratch"
      ∷ (text "offload-" ++ take 16 (platform.sha256_hex output) ++ text ".txt")
      ∷ [])

  -- The method `intercept`.
  unfoldable pub intercept : Text → W → W × Result OffloadOutcome RuntimeError
  intercept output w =
      let path = scratch_path output in
      let (w', written) = fs_tool.write_text path output w in
      let pointer : OffloadPointer = record { path = path; bytes = byte_length output } in
      let outcome : Result OffloadOutcome RuntimeError = elim written [
        | err e ↦ err e
        | ok _ ↦ ok (offloaded (offload_ref pointer) pointer)
      ] in
      if leb (length output) threshold then (w, ok (inline output)) else (w', outcome)

  -- The method `resolve`.
  unfoldable pub resolve : OffloadPointer → W → W × Result Text RuntimeError
  resolve pointer w = fs_tool.read_text pointer.path w
