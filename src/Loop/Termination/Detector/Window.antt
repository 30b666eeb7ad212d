-- ===== src/Loop/Termination/Detector/Window.antt =====
-- The detector against its description: a fingerprint is stuck when it stands often enough among
-- the last ones seen.
use orca_ts.Base.{
  drop-nil, drop-drop, append_assoc, ◌∙◌, drop-append, sym, ap₂, subst, max, leb, length-drop,
  ◌≡⟨◌⟩◌, ◌∎, inr, inl, Bool-cases, append-nil, length-append, same_refl, ap, ltb, or_default, ℕ,
  zero, suc, ◌+◌, ◌-◌, ◌≤◌, ◌≡◌, refl, Option, none, some, List, [], ◌∷◌, ◌++◌, arith,
  if◌then◌else◌, length, drop, Text, same, same_iff,
}
use orca_ts.Loop.Termination.Detector.{
  make_detector, observe_all, observe, expire, enter, forget, Counts, lookup, insert, delete,
  Detector,
}

pub count : Text → List Text → ℕ
count k [] = 0
count k (x ∷ xs) = if same x k then suc (count k xs) else count k xs

abbrev pub last : ℕ → List Text → List Text
last n xs = drop (length xs - n) xs

-- The fingerprints of the calls that projected an action.
abbrev pub projected : List (Option Text) → List Text
projected [] = []
projected (none ∷ fs) = projected fs
projected (some f ∷ fs) = f ∷ projected fs

count-cons :
    (k x : Text) (xs : List Text)
    → count k (x ∷ xs) ≡ (if same x k then suc (count k xs) else count k xs)
unfolding count
count-cons k x xs = refl

count-append : (k : Text) (xs ys : List Text) → count k (xs ++ ys) ≡ count k xs + count k ys
unfolding count
count-append k [] ys = omega arith
count-append k (x ∷ xs) ys = ground (arith, count-append k xs ys)

lookup-insert :
    (j k : Text) (n : ℕ) (m : Counts)
    → lookup j (insert k n m) ≡ (if same k j then some n else lookup j m)
unfolding lookup insert
lookup-insert j k n [] = refl
lookup-insert j k n ((i, v) ∷ m) =
    ground (arith, lookup-insert j k n m, same_iff i k, same_iff i j, same_iff k j)

lookup-delete :
    (j k : Text) (m : Counts) → lookup j (delete k m) ≡ (if same k j then none else lookup j m)
unfolding lookup delete
lookup-delete j k [] = ground arith
lookup-delete j k ((i, v) ∷ m) =
    ground (arith, lookup-delete j k m, same_iff i k, same_iff i j, same_iff k j)

-- The map holds what the window holds, as often, and nothing else.
abbrev tally : ℕ → Option ℕ
tally zero = none
tally (suc n) = some (suc n)

pub record IsTallied (d : Detector) : Type 0 where
  pub fits : length d.window ≤ d.window_size
  pub counted : (k : Text) → lookup k d.counts ≡ tally (count k d.window)

tally-get_or : (n : ℕ) → or_default (tally n) 0 ≡ n
tally-get_or zero = refl
tally-get_or (suc n) = refl

lookup-forget :
    (e k : Text) (n : ℕ) (m : Counts)
    → lookup e m ≡ tally (suc n)
    → lookup k (forget e m) ≡ (if same e k then tally n else lookup k m)
unfolding forget
lookup-forget e k zero m h = ground (arith, lookup-delete k e m)
lookup-forget e k (suc n) m h = ground (arith, lookup-insert k e (suc n) m)

lookup-enter :
    (f k : Text) (d : Detector)
    → ((j : Text) → lookup j d.counts ≡ tally (count j d.window))
    → lookup k (enter f d).counts ≡ tally (count k (enter f d).window)
unfolding enter count
lookup-enter f k d h = ground (
  arith,
  h k,
  h f,
  tally-get_or (count f d.window),
  count-append k d.window (f ∷ []),
  lookup-insert k f (or_default (lookup f d.counts) 0 + 1) d.counts,
  same_iff f k,
)

-- `window.shift()`, with the window as a value of its own.
abbrev shifted : ℕ → List Text → List Text
shifted size [] = []
shifted size (e ∷ rest) = if ltb size (suc (length rest)) then rest else e ∷ rest

expire-window : (d : Detector) → (expire d).window ≡ shifted d.window_size d.window
unfolding expire
expire-window d = ground arith

expire-settings :
    (d : Detector)
    → ((expire d).window_size ≡ d.window_size) × ((expire d).repeat_threshold ≡ d.repeat_threshold)
unfolding expire
expire-settings d = ground arith

expire-counted :
    (d : Detector) (k : Text)
    → ((j : Text) → lookup j d.counts ≡ tally (count j d.window))
    → (w : List Text) → d.window ≡ w
    → lookup k (expire d).counts ≡ tally (count k (expire d).window)
unfolding expire
expire-counted d k h [] e = rw (e, expire) (h k)
expire-counted d k h (x ∷ rest) e = ground (
  arith,
  h k,
  h x,
  ap (count x) e,
  ap (count k) e,
  count-cons x x rest,
  count-cons k x rest,
  same_refl x,
  lookup-forget x k (count x rest) d.counts,
  same_iff x k,
)

shifted_fits : (n : ℕ) (xs : List Text) → length xs ≤ suc n → length (shifted n xs) ≤ n
shifted_fits n [] h = omega arith
shifted_fits n (x ∷ xs) h = ground arith

window_of_observe :
    (f : Text) (d : Detector)
    → (observe (some f) d).0.window ≡ shifted d.window_size (d.window ++ f ∷ [])
unfolding observe enter
window_of_observe f d = expire-window (enter f d)

-- Every call keeps the window within its size and the map equal to the counts of the window.
pub observe-IsTallied : (f : Option Text) (d : Detector) → IsTallied d → IsTallied (observe f d).0
unfolding observe
observe-IsTallied none d h = h
observe-IsTallied (some f) d h = record {
  fits = ground (
    arith,
    h.fits,
    shifted_fits d.window_size (d.window ++ f ∷ []),
    window_of_observe f d,
    length-append d.window (f ∷ []),
    expire-settings (enter f d),
  );
  counted = λ k. expire-counted (enter f d) k (λ j. lookup-enter f j d h.counted) _ refl;
}

pub make_detector-IsTallied : (w t : Option ℕ) → IsTallied (make_detector w t)
unfolding make_detector lookup count
make_detector-IsTallied w t = record { fits = omega arith; counted = λ k. refl }

observe_all-IsTallied :
    (fs : List (Option Text)) (d : Detector) → IsTallied d → IsTallied (observe_all fs d)
unfolding observe_all
observe_all-IsTallied [] d h = h
observe_all-IsTallied (f ∷ fs) d h =
    observe_all-IsTallied fs (observe f d).0 (observe-IsTallied f d h)

-- The window is the end of what was projected.
shifted-eq-last : (n : ℕ) (xs : List Text) → length xs ≤ suc n → shifted n xs ≡ last n xs
shifted-eq-last n [] h = rw (sub_nil n)
  where
    sub_nil : (n : ℕ) → 0 - n ≡ 0
    sub_nil n = omega arith
shifted-eq-last n (x ∷ xs) h = elim (Bool-cases (ltb n (suc (length xs)))) [
  | inl over ↦ rw over (ap (λ k. drop k (x ∷ xs)) {x = 1} (ground arith))
  | inr within ↦ rw within (ap (λ k. drop k (x ∷ xs)) {x = 0} (ground arith))
]

last-shifted :
    (n : ℕ) (xs : List Text) (f : Text) → shifted n (last n xs ++ f ∷ []) ≡ last n (xs ++ f ∷ [])
last-shifted n xs f =
    shifted n (last n xs ++ f ∷ [])
    ≡⟨ shifted-eq-last n (last n xs ++ f ∷ [])
        (omega (arith, length-append (last n xs) (f ∷ []), length-drop (length xs - n) xs)) ⟩
      last n (last n xs ++ f ∷ [])
    ≡⟨ ap (last n) (sym (drop-append (length xs - n) xs (f ∷ []) (omega arith))) ⟩
      last n (drop (length xs - n) (xs ++ f ∷ []))
    ≡⟨ drop-drop _ (length xs - n) (xs ++ f ∷ []) ⟩
      drop (length xs - n + (length (drop (length xs - n) (xs ++ f ∷ [])) - n)) (xs ++ f ∷ [])
    ≡⟨ ap (λ k. drop k (xs ++ f ∷ []))
        (omega (arith, length-append xs (f ∷ []), length-drop (length xs - n) (xs ++ f ∷ []))) ⟩
      last n (xs ++ f ∷ []) ∎

observe-settings :
    (f : Option Text) (d : Detector)
    → ((observe f d).0.window_size ≡ d.window_size)
      × ((observe f d).0.repeat_threshold ≡ d.repeat_threshold)
unfolding observe enter
observe-settings none d = (refl, refl)
observe-settings (some f) d = expire-settings (enter f d)

observe-none : (d : Detector) → (observe none d).0 ≡ d
unfolding observe
observe-none d = refl

observe_all-settings :
    (fs : List (Option Text)) (d : Detector)
    → ((observe_all fs d).window_size ≡ d.window_size)
      × ((observe_all fs d).repeat_threshold ≡ d.repeat_threshold)
unfolding observe_all
observe_all-settings [] d = (refl, refl)
observe_all-settings (f ∷ fs) d =
    ground (arith, observe-settings f d, observe_all-settings fs (observe f d).0)

observe_all-window :
    (fs : List (Option Text)) (seen : List Text) (d : Detector)
    → d.window ≡ last d.window_size seen
    → (observe_all fs d).window ≡ last d.window_size (seen ++ projected fs)
unfolding observe_all
observe_all-window [] seen d h = rw append-nil h
observe_all-window (none ∷ fs) seen d h =
    subst (λ e. (observe_all fs e).window ≡ last d.window_size (seen ++ projected fs))
      (sym (observe-none d)) (observe_all-window fs seen d h)
observe_all-window (some f ∷ fs) seen d h =
    let d' = (observe (some f) d).0 in
    let size : d'.window_size ≡ d.window_size = (observe-settings (some f) d).0 in
    let here : d'.window ≡ last d'.window_size (seen ++ f ∷ []) =
      window_of_observe f d
      ∙ ap (λ w. shifted d.window_size (w ++ f ∷ [])) h
      ∙ last-shifted d.window_size seen f
      ∙ ap (λ n. last n (seen ++ f ∷ [])) (sym size) in
    observe_all-window fs (seen ++ f ∷ []) d' here
    ∙ ap (λ n. last n ((seen ++ f ∷ []) ++ projected fs)) size
    ∙ ap (last d.window_size) (append_assoc seen (f ∷ []) (projected fs))

verdict_of_observe :
    (f : Text) (d : Detector)
    → IsTallied d
    → (observe (some f) d).1 ≡ leb d.repeat_threshold (count f (observe (some f) d).0.window)
unfolding observe
verdict_of_observe f d h =
    let counted = (observe-IsTallied (some f) d h).counted f in
    ap₂ leb (expire-settings (enter f d)).1
      (ap (λ o. or_default o 0) counted ∙ tally-get_or (count f (expire (enter f d)).window))

make_detector_window :
    (size threshold : Option ℕ)
    → (make_detector size threshold).window ≡ last (make_detector size threshold).window_size []
unfolding make_detector
make_detector_window size threshold =
    sym (drop-nil (0 - max (or_default size 3) (or_default threshold 2)))

make_detector_settings :
    (size threshold : Option ℕ)
    → ((make_detector size threshold).window_size
        ≡ max (or_default size 3) (or_default threshold 2))
      × ((make_detector size threshold).repeat_threshold ≡ or_default threshold 2)
unfolding make_detector
make_detector_settings size threshold = (refl, refl)

-- After any history of calls, a call on an action declares it stuck exactly when its fingerprint
-- stands, this call included, at least `repeatThreshold` times among the last `windowSize`
-- fingerprints seen; the threshold defaults to 2, and the size is the larger of the threshold and
-- the size asked for, which defaults to 3.
pub observe_all-stuck :
    (size threshold : Option ℕ) (fs : List (Option Text)) (f : Text)
    → let t = or_default threshold 2 in
      let w = max (or_default size 3) t in
      (observe (some f) (observe_all fs (make_detector size threshold))).1
      ≡ leb t (count f (last w (projected fs ++ f ∷ [])))
observe_all-stuck size threshold fs f =
    let start = make_detector size threshold in
    let d = observe_all fs start in
    let settings = observe_all-settings fs start in
    let seen = observe_all-window fs [] start (make_detector_window size threshold) in
    verdict_of_observe f d (observe_all-IsTallied fs start (make_detector-IsTallied size threshold))
    ∙ ap₂ leb (settings.1 ∙ (make_detector_settings size threshold).1) (
        ap (count f) (
          window_of_observe f d
          ∙ ap₂ (λ n w. shifted n (w ++ f ∷ [])) settings.0 seen
          ∙ last-shifted start.window_size (projected fs) f
          ∙ ap (λ n. last n (projected fs ++ f ∷ [])) (make_detector_settings size threshold).0))
