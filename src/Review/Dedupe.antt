-- ===== src/Review/Dedupe.antt =====
-- What the reviewers find side by side.
use orca_ts.Review.{
  review_all, issue_key, gather, ReviewerPrompt, ReviewIssue, ReviewBy, is_seen, dedupe,
  run_reviewers_parallel,
}
use orca_ts.Base.{
  Bool, ◌∙◌, subst, ok_injective, >>=-eq-ok, ◌||◌, same_refl, same_iff, arith, not, ◌&&◌, ap, ◌≡◌,
  map, if_elim, ◌∷◌, same, Text, List, [], true, false, refl, ok,
}

abbrev pub keys : List ReviewIssue → List Text
keys issues = map issue_key issues

abbrev pub IsDistinct : List Text → Type 0
IsDistinct [] = Unit
IsDistinct (k ∷ ks) = (is_seen k ks ≡ false) × IsDistinct ks

is_seen-same : (k k' : Text) (ks : List Text) → same k k' ≡ true → is_seen k ks ≡ is_seen k' ks
is_seen-same k k' ks e = ap (λ k. is_seen k ks) ((same_iff k k').0 e)

is_seen-dedupe :
    (key : Text) (seen : List Text) (issues : List ReviewIssue)
    → is_seen key (keys (dedupe seen issues))
      ≡ (is_seen key (keys issues) && not (is_seen key seen))
unfolding is_seen dedupe
is_seen-dedupe key seen [] = refl
is_seen-dedupe key seen (i ∷ is) =
    if_elim
      (λ l.
        is_seen key (keys l)
        ≡ ((same key (issue_key i) || is_seen key (keys is)) && not (is_seen key seen)))
      (is_seen (issue_key i) seen)
      (λ old. ground (arith, is_seen-dedupe key seen is, is_seen-same key (issue_key i) seen))
      (λ new.
        ground
          (arith, is_seen-dedupe key (issue_key i ∷ seen) is, is_seen-same key (issue_key i) seen))

dedupe-IsDistinct :
    (seen : List Text) (issues : List ReviewIssue) → IsDistinct (keys (dedupe seen issues))
unfolding dedupe is_seen
dedupe-IsDistinct seen [] = tt
dedupe-IsDistinct seen (i ∷ is) =
    if_elim (λ l. IsDistinct (keys l)) (is_seen (issue_key i) seen) (λ _. dedupe-IsDistinct seen is)
      (λ _. (
        ground
            (arith, is_seen-dedupe (issue_key i) (issue_key i ∷ seen) is, same_refl (issue_key i)),
        dedupe-IsDistinct (issue_key i ∷ seen) is,
      ))

and_true : (b : Bool) → (b && true) ≡ b
and_true true = refl
and_true false = refl

-- If the reviewers that run side by side find issues, none of them failed, and of all that they found
-- each key (reviewer and message) is there, and no key twice.
pub run_reviewers_parallel-IsDistinct :
    {W : Type 0} (review : ReviewBy W) (reviewers : List ReviewerPrompt) (w : W)
    (issues : List ReviewIssue)
    → (run_reviewers_parallel review reviewers w).1 ≡ ok issues
    → (found : List ReviewIssue) × (gather (review_all review reviewers w).1 ≡ ok found)
      × IsDistinct (keys issues)
      × ((key : Text) → is_seen key (keys issues) ≡ is_seen key (keys found))
unfolding run_reviewers_parallel
run_reviewers_parallel-IsDistinct review reviewers w issues e =
    let (found, gathered, deduped) = >>=-eq-ok (gather (review_all review reviewers w).1) _ e in
    let same_list : dedupe [] found ≡ issues = ok_injective _ _ deduped in
    (
      found,
      gathered,
      subst (λ l. IsDistinct (keys l)) same_list (dedupe-IsDistinct [] found),
      subst (λ l. (key : Text) → is_seen key (keys l) ≡ is_seen key (keys found)) same_list
          (λ key. is_seen-dedupe key [] found ∙ and_true _),
    )
