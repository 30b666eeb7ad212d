-- ===== src/Cli/Args/Separator.antt =====
-- What stands after `--` is the task's, and no option's.
use orca_ts.Cli.Args.{
  unknown_flag, positional, durable_flag, version_flag, help_flag, no_typecheck, separator, no_scan,
  takes_inline, store, step, go_on, takes_next, proceed, classify, CliError, ValueOption, Scan,
  Argument, scan, assemble_args, parse_plain_args, extract_flow_args,
}
use orca_ts.Base.{
  ◌∙◌, ap₂, if_elim, ◌++◌, ◌≡◌, text, ◌∷◌, ◌>>=◌, Bool, All, Text, same, List, Option, Result, none,
  some, [], true, false, refl, ok, err,
}

-- Whether an option still waits for its value when the arguments end.
abbrev pub waits_after : Argument → (Option ValueOption → Bool) → Bool
waits_after separator rest = false
waits_after (takes_next option) rest = rest (some option)
waits_after _ rest = rest none

unfoldable pub waits : List Text → Option ValueOption → Bool
waits [] none = false
waits [] (some option) = true
waits (arg ∷ argv) (some option) = waits argv none
waits (arg ∷ argv) none = waits_after (classify arg) (waits argv)

>>=-cong :
    (r : Result Scan CliError) (k k' : Scan → Result Scan CliError)
    → ((s : Scan) → k s ≡ k' s)
    → (r >>= k) ≡ (r >>= k')
>>=-cong (ok s) k k' f = f s
>>=-cong (err e) k k' f = refl

module _ (k k' : Option ValueOption → Scan → Result Scan CliError) (b : Option ValueOption → Bool)
    (same_for : (w : Option ValueOption) (t : Scan) → b w ≡ false → k w t ≡ k' w t) where
  proceed_stored :
      (r : Result Scan CliError)
      → b none ≡ false
      → proceed k (r >>= λ t. ok (t, go_on none)) ≡ proceed k' (r >>= λ t. ok (t, go_on none))
  unfolding proceed
  proceed_stored (ok t) h = same_for none t h
  proceed_stored (err e) h = refl

  proceed_same :
      (c : Argument) (arg : Text) (s : Scan)
      → waits_after c b ≡ false
      → proceed k (step c arg s) ≡ proceed k' (step c arg s)
  unfolding proceed step
  proceed_same separator arg s h = refl
  proceed_same no_typecheck arg s h = same_for none _ h
  proceed_same help_flag arg s h = same_for none _ h
  proceed_same version_flag arg s h = same_for none _ h
  proceed_same durable_flag arg s h = same_for none _ h
  proceed_same (takes_next option) arg s h = same_for (some option) _ h
  proceed_same (takes_inline option value) arg s h = proceed_stored (store option (some value) s) h
  proceed_same positional arg s h = same_for none _ h
  proceed_same unknown_flag arg s h = same_for none _ h

scan-separator :
    (xs ys : List Text) (w : Option ValueOption) (s : Scan)
    → waits xs w ≡ false
    → scan (xs ++ text "--" ∷ ys) w s ≡ scan xs w s
unfolding scan waits same classify proceed step
scan-separator [] ys none s h = refl
scan-separator [] ys (some option) s h = cc
scan-separator (arg ∷ xs) ys (some option) s h =
    >>=-cong (store option (some arg) s) _ _ (λ t. scan-separator xs ys none t h)
scan-separator (arg ∷ xs) ys none s h =
    proceed_same (scan (xs ++ text "--" ∷ ys)) (scan xs) (waits xs)
      (λ w t k. scan-separator xs ys w t k) (classify arg) arg s h

extract_flow_args-separator :
    (xs ys : List Text)
    → All (λ a. same a (text "--") ≡ false) xs
    → extract_flow_args (xs ++ text "--" ∷ ys) ≡ ys
unfolding extract_flow_args same
extract_flow_args-separator [] ys h = refl
extract_flow_args-separator (x ∷ xs) ys (h, hs) =
    if_elim (λ l. l ≡ ys) (same x (text "--")) (λ a. absurd (cc))
      (λ b. extract_flow_args-separator xs ys hs)

assemble_with :
    (flow ys : List Text) (r : Result Scan CliError)
    → (r >>= λ s. ok (assemble_args ys s))
      ≡ ((r >>= λ s. ok (assemble_args flow s)) >>= λ a. ok (record a { flow_args = ys }))
unfolding assemble_args
assemble_with flow ys (ok s) = refl
assemble_with flow ys (err e) = refl

-- Where no option waits for its value at the end, and no argument is `--`, a `--` and what follows it
-- change nothing that the arguments mean, errors included, but the task's arguments, which are what
-- follows it.
pub parse_plain_args-separator :
    (xs ys : List Text)
    → All (λ a. same a (text "--") ≡ false) xs
    → waits xs none ≡ false
    → parse_plain_args (xs ++ text "--" ∷ ys)
      ≡ (parse_plain_args xs >>= λ a. ok (record a { flow_args = ys }))
unfolding parse_plain_args
parse_plain_args-separator xs ys h k =
    ap₂ (λ r flow. r >>= λ s. ok (assemble_args flow s)) (scan-separator xs ys none no_scan k)
      (extract_flow_args-separator xs ys h)
    ∙ assemble_with (extract_flow_args xs) ys (scan xs none no_scan)
