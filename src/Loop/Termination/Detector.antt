-- ===== src/Loop/Termination/Detector.antt =====
-- src/loop/termination.ts, `makeFingerprintStuckDetector`.
pub mod Window
use orca_ts.Base.{
  ℕ, zero, suc, ◌+◌, ◌-◌, ◌≤◌, max, ◌≡◌, refl, Bool, true, false, Option, none, some, List, [], ◌∷◌,
  ◌++◌, arith, ltb, leb, if◌then◌else◌, or_default, length, Text, same,
}

-- The `Map<string, number>` that counts the fingerprints of the window.
abbrev pub Counts : Type 0
Counts = List (Text × ℕ)

unfoldable pub lookup : Text → Counts → Option ℕ
lookup k [] = none
lookup k ((j, n) ∷ m) = if same j k then some n else lookup k m

unfoldable pub insert : Text → ℕ → Counts → Counts
insert k n [] = (k, n) ∷ []
insert k n ((j, i) ∷ m) = if same j k then (k, n) ∷ m else (j, i) ∷ insert k n m

unfoldable pub delete : Text → Counts → Counts
delete k [] = []
delete k ((j, n) ∷ m) = if same j k then delete k m else (j, n) ∷ delete k m

-- What the closure keeps between calls.
pub record Detector : Type 0 where
  pub window_size : ℕ
  pub repeat_threshold : ℕ
  pub window : List Text
  pub counts : Counts

unfoldable pub make_detector : Option ℕ → Option ℕ → Detector
make_detector window_size repeat_threshold = record {
  window_size = max (or_default window_size 3) (or_default repeat_threshold 2);
  repeat_threshold = or_default repeat_threshold 2;
  window = [];
  counts = [];
}

-- `remaining <= 0`, where `remaining` is one less than the count.
forget : Text → Counts → Counts
unfolding lookup insert delete
forget expired counts =
    let held = or_default (lookup expired counts) 1 in
    if leb held 1 then delete expired counts else insert expired (held - 1) counts

-- `window.shift()` where the window has grown past its size.
expire : Detector → Detector
unfolding forget
expire d = elim d.window [
  | [] ↦ d
  | expired ∷ rest ↦
      if ltb d.window_size (length d.window)
      then record d { window = rest; counts = forget expired d.counts }
      else d
]

enter : Text → Detector → Detector
unfolding lookup insert
enter fingerprint d = record d {
  window = d.window ++ fingerprint ∷ [];
  counts = insert fingerprint (or_default (lookup fingerprint d.counts) 0 + 1) d.counts;
}

-- One call of the detector, on the fingerprint of the projected action if there is one.
unfoldable pub observe : Option Text → Detector → Detector × Bool
unfolding enter expire
observe none d = (d, false)
observe (some fingerprint) d =
    let d' = expire (enter fingerprint d) in
    (d', leb d'.repeat_threshold (or_default (lookup fingerprint d'.counts) 0))

unfoldable pub observe_all : List (Option Text) → Detector → Detector
observe_all [] d = d
observe_all (f ∷ fs) d = observe_all fs (observe f d).0
