-- ===== src/Loop/State/Manifest/Counting.antt =====
-- The numbers of a manifest.
use orca_ts.Loop.State.Manifest.{
  Fraction, TaskManifest, measure, is_complete, ManifestTask, progress, count_pending,
}
use orca_ts.Base.{
  ◌==◌, ◌∙◌, if◌then◌else◌, ◌-◌, if_elim, ◌<◌, All, ◌≤◌, ◌↔◌, arith, ◌∷◌, not, ◌+◌, filter, length,
  ◌≡◌, ℕ, List, [], true, refl,
}

count_pending-filter :
    (n : ℕ) (tasks : List ManifestTask)
    → count_pending n tasks ≡ n + length (filter (λ t. not t.passes) tasks)
unfolding count_pending
count_pending-filter n [] = omega arith
count_pending-filter n (t ∷ ts) =
    ground (arith, count_pending-filter n ts, count_pending-filter (n + 1) ts)

filter-filter :
    (tasks : List ManifestTask)
    → length (filter (λ t. t.passes) tasks) + length (filter (λ t. not t.passes) tasks)
      ≡ length tasks
filter-filter [] = refl
filter-filter (t ∷ ts) = ground (arith, filter-filter ts)

All-pass :
    (tasks : List ManifestTask)
    → (length (filter (λ t. not t.passes) tasks) ≡ 0) ↔ All (λ t. t.passes ≡ true) tasks
All-pass [] = (λ _. tt, λ _. refl)
All-pass (t ∷ ts) =
    let (to, from) = All-pass ts in
    if_elim (λ xs. (length xs ≡ 0) ↔ ((t.passes ≡ true) × All (λ t. t.passes ≡ true) ts))
      (not t.passes) (λ failing. (λ h. absurd (omega arith), λ (h, hs). absurd (ground arith)))
      (λ passing. (λ h. (ground arith, to h), λ (h, hs). from hs))

Fraction_lem :
    (total passed : ℕ)
    → passed ≤ total
    → let r : Fraction =
        if total == 0
        then record { over = 1; under = 1 }
        else record { over = passed; under = total } in
      (r.over ≤ r.under) × (0 < r.under) × ((passed ≡ total) ↔ (r.over ≡ r.under))
Fraction_lem total passed h =
    if_elim
      (λ (r : Fraction).
        (r.over ≤ r.under) × (0 < r.under) × ((passed ≡ total) ↔ (r.over ≡ r.under)))
      (total == 0) (λ zero. (omega arith, omega arith, (λ _. refl, λ _. ground arith)))
      (λ positive. (h, ground arith, (λ e. e, λ e. e)))

-- Progress and termination read one number: what is pending and what passed are the tasks that do not
-- and that do pass; the ratio is a fraction of at most 1 over a positive number; the manifest is
-- complete exactly when every task passes, and exactly when the ratio is 1.
pub progress-IsCounted :
    (m : TaskManifest)
    → let p = progress m in
      (p.pending ≡ length (filter (λ t. not t.passes) m.tasks))
      × (p.passed ≡ length (filter (λ t. t.passes) m.tasks))
      × (p.ratio.over ≤ p.ratio.under)
      × (0 < p.ratio.under)
      × ((is_complete m ≡ true) ↔ All (λ t. t.passes ≡ true) m.tasks)
      × ((is_complete m ≡ true) ↔ (p.ratio.over ≡ p.ratio.under))
unfolding progress is_complete measure
progress-IsCounted m =
    let pending = count_pending-filter 0 m.tasks in
    let whole = filter-filter m.tasks in
    let (to, from) = All-pass m.tasks in
    let (proper, positive, one) =
      Fraction_lem (length m.tasks) (length m.tasks - measure m) (omega arith) in
    let (there, back) = one in
    (
      pending ∙ omega arith,
      omega arith,
      proper,
      positive,
      (λ h. to (ground arith), λ h. let none_left = from h in ground arith),
      (λ h. there (ground arith), λ h. let equal = back h in ground arith),
    )
