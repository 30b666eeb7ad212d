-- ===== src/Loop/Context/Offload/Laws.antt =====
-- What an intercepted output can be had back as.
use orca_ts.Loop.Context.Offload.Bytes.{byte_length-utf8_text}
use orca_ts.Model.Utf8.{utf8_text_lem, utf8_text, is_well_formed}
use orca_ts.Base.{sym, ◌∙◌, true, ◌≤◌, ◌<◌, ◌≡◌, ok, Text, length, arith}
use orca_ts.Model.{Remembers}
use orca_ts.Loop.Context.Offload.{
  byte_length, offload_ref, OffloadOutcome, OffloadStore, inline, offloaded, intercept, resolve,
  scratch_path,
}

module _ {W : Type 0} (store : OffloadStore W) where
  -- What an outcome must say of the output that it stands for, in the world after interception.
  abbrev pub StandsFor : Text → W → W → OffloadOutcome → Type 0
  StandsFor output before after (inline content) =
      (content ≡ output) × (length output ≤ store.threshold) × (after ≡ before)
  StandsFor output before after (offloaded ref pointer) =
      (store.threshold < length output)
      × (pointer.path ≡ scratch_path store output)
      × (ref ≡ offload_ref pointer)
      × ((held : Text) × ((resolve store pointer after).1 ≡ ok held)
          × (byte_length held ≡ pointer.bytes)
          × (is_well_formed output ≡ true → held ≡ output))

  -- An interception that succeeds leaves an output within the threshold as it is and writes nothing.
  -- A larger output has a pointer to its scratch path, and its reference shows that pointer; resolving
  -- the pointer then gives a text of as many bytes as the pointer says, which is the output if no
  -- surrogate stands alone in it. The file system is one that reads back what it wrote, with each
  -- lone surrogate replaced by U+FFFD.
  pub intercept-StandsFor :
      (output : Text) (w : W) (o : OffloadOutcome)
      → Remembers store.fs_tool
      → (intercept store output w).1 ≡ ok o
      → StandsFor output w (intercept store output w).0 o
  unfolding intercept resolve
  intercept-StandsFor output w (inline content) remembers e = ground arith
  intercept-StandsFor output w (offloaded ref pointer) remembers e =
      let facts : (store.threshold < length output)
          × (pointer.path ≡ scratch_path store output)
          × (ref ≡ offload_ref pointer)
          × (pointer.bytes ≡ byte_length output)
          × ((resolve store pointer (intercept store output w).0).1 ≡ ok (utf8_text output)) =
        ground (arith, remembers.read_back (scratch_path store output) output w) in
      let (above, path, shown, bytes, read) = facts in
      (
        above,
        path,
        shown,
        (utf8_text output, read, byte_length-utf8_text output ∙ sym bytes, utf8_text_lem output),
      )
