-- ===== src/Model.antt =====
-- src/model/schemas.ts and src/model/errors.ts: the values that the components exchange.
-- Token counts are naturals, as `TokenCountSchema` has it; a JSON number is a natural here, the negative and
-- fractional ones being left out.
pub mod Events
pub mod Utf8
use orca_ts.Model.Utf8.{utf8_text}
use orca_ts.Base.{Result, ok, ◌≡◌, ℕ, Bool, Option, none, List, Text, text}

pub data BackendTag : Type 0 where
  claude codex opencode pi : BackendTag

pub record Usage : Type 0 where
  pub input : ℕ
  pub output : ℕ
  pub reasoning : Option ℕ

-- `pos n` is n and `negsuc n` is -(n + 1).
pub data ℤ : Type 0 where
  pos : ℕ → ℤ
  negsuc : ℕ → ℤ

-- A value of type `unknown` that came from JSON.
mutual
  pub data Value : Type 0 where
    null : Value
    bool : Bool → Value
    num : ℕ → Value
    str : Text → Value
    arr : Items → Value
    obj : Fields → Value

  pub data Items : Type 0 where
    nil : Items
    cons : Value → Items → Items

  pub data Fields : Type 0 where
    end : Fields
    field : Text → Value → Fields → Fields

pub data Seam : Type 0 where
  source sink tool : Seam

pub record BackendFailureContext : Type 0 where
  pub transport : Option Text
  pub phase : Option Text
  pub artifact_path : Option Text
  pub recovery : Option Text

pub data RuntimeError : Type 0 where
  nothing_to_commit : RuntimeError
  branch_already_exists : (branch : Text) → RuntimeError
  push_rejected : (remote : Option Text) (stderr : Text) → RuntimeError
  command_failed : (command : Text) (exit_code : Option ℤ) (stdout stderr : Text) → RuntimeError
  structured_output_validation_failed : (issues : List Text) (raw : Value) → RuntimeError
  unsupported_feature : (feature reason : Text) → RuntimeError
  backend_failed :
      (backend : BackendTag) (message : Text) (context : BackendFailureContext) → RuntimeError
  typecheck_failed : (stdout stderr : Text) (exit_code : Option ℤ) → RuntimeError
  file_system_error : (path message : Text) → RuntimeError
  io_failed : (seam : Seam) (kind message : Text) → RuntimeError

abbrev pub no_context : BackendFailureContext
no_context = record { transport = none; phase = none; artifact_path = none; recovery = none }

-- The tag's own spelling, as a template literal prints it.
abbrev pub tag_name : BackendTag → Text
tag_name claude = text "claude"
tag_name codex = text "codex"
tag_name opencode = text "opencode"
tag_name pi = text "pi"

-- What the components use of the host: the digest of `node:crypto` as hexadecimal text, and
-- `path.join`.
pub record Platform : Type 0 where
  pub sha256_hex : Text → Text
  pub join_path : List Text → Text

-- The file-system tool, over the state of the world.
pub record FsTool (W : Type 0) : Type 0 where
  pub write_text : Text → Text → W → W × Result (Unit {0}) RuntimeError
  pub read_text : Text → W → W × Result Text RuntimeError

-- What is relied on: a text that was written is read back as UTF-8 keeps it, until another write to its
-- path.
pub record Remembers {W : Type 0} (fs : FsTool W) : Type 0 where
  pub read_back :
      (path body : Text) (w : W)
      → (fs.write_text path body w).1 ≡ ok tt
      → (fs.read_text path (fs.write_text path body w).0).1 ≡ ok (utf8_text body)
