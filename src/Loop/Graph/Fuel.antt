-- ===== src/Loop/Graph/Fuel.antt =====
-- The search ends: every visit turns a white node grey.
use orca_ts.Base.{
  inr, [], same_iff, inl, ◌∙◌, same, Bool-cases, ap, same_refl, ◌∷◌, arith, ◌<◌, ◌≤◌, false, filter,
  length, true, ℕ, All, ◌≡◌, List, Bool, Option, refl, zero, suc, some, none, and_then,
}
use orca_ts.Loop.Graph.Analyze.{
  report_cycle, set_color, visit_all, visit, enter_node, leave_node, each_neighbour, step_to,
  visit_white, Color, Search, has, NodeId, white, black, grey,
}

abbrev pub is_white : Option Color → Bool
is_white (some white) = true
is_white _ = false

abbrev pub whites : List NodeId → Search → ℕ
whites order s = length (filter (λ v. is_white (s.color v)) order)

-- No node turns white.
abbrev pub Fades : Search → Search → Type 0
Fades s t = (v : NodeId) → is_white (t.color v) ≡ true → is_white (s.color v) ≡ true

length-filter_mono :
    {A : Type 0} (p q : A → Bool) (xs : List A)
    → ((x : A) → p x ≡ true → q x ≡ true)
    → length (filter p xs) ≤ length (filter q xs)
length-filter_mono p q [] f = omega arith
length-filter_mono p q (x ∷ xs) f = ground (arith, length-filter_mono p q xs f, f x)

length-filter_lt :
    (p q : NodeId → Bool) (xs : List NodeId) (u : NodeId)
    → ((x : NodeId) → p x ≡ true → q x ≡ true)
    → has xs u ≡ true
    → p u ≡ false
    → q u ≡ true
    → length (filter p xs) < length (filter q xs)
unfolding has
length-filter_lt p q [] u f h n y = cc
length-filter_lt p q (x ∷ xs) u f h n y = elim (Bool-cases (same x u)) [
  | inl here ↦
      let e : x ≡ u = (same_iff x u).0 here in
      let px : p x ≡ false = ap p e ∙ n in
      let qx : q x ≡ true = ap q e ∙ y in rw (px, qx) (omega (arith, length-filter_mono p q xs f))
  | inr there ↦
      let rest = length-filter_lt p q xs u f (ground arith) n y in ground (arith, rest, f x)
]

module _ (adj : NodeId → List NodeId) (order : List NodeId)
    (inside : (u : NodeId) → All (λ v. has order v ≡ true) (adj u)) where
  abbrev Ends : (Search → Option Search) → Search → Type 0
  Ends run s = (t : Search) × (run s ≡ some t) × Fades s t

  abbrev Total : ℕ → (NodeId → Search → Option Search) → Type 0
  Total fuel go =
      (v : NodeId) (s : Search)
      → has order v ≡ true
      → s.color v ≡ some white
      → whites order s ≤ fuel
      → Ends (go v) s

  step_to-Total :
      (fuel : ℕ) (go : NodeId → Search → Option Search) (u v : NodeId) (c : Option Color)
      (s : Search)
      → Total fuel go
      → s.color v ≡ c
      → has order v ≡ true
      → whites order s ≤ fuel
      → Ends (step_to go u v c) s
  unfolding step_to report_cycle
  step_to-Total fuel go u v (some white) s total e k h = total v s k e h
  step_to-Total fuel go u v (some grey) s total e k h = (report_cycle u v s, refl, λ v w. w)
  step_to-Total fuel go u v (some black) s total e k h = (s, refl, λ v w. w)
  step_to-Total fuel go u v none s total e k h = (s, refl, λ v w. w)

  each_neighbour-Total :
      (fuel : ℕ) (go : NodeId → Search → Option Search) (u : NodeId) (vs : List NodeId) (s : Search)
      → Total fuel go
      → All (λ v. has order v ≡ true) vs
      → whites order s ≤ fuel
      → Ends (each_neighbour go u vs) s
  unfolding each_neighbour
  each_neighbour-Total fuel go u [] s total ks h = (s, refl, λ v w. w)
  each_neighbour-Total fuel go u (v ∷ vs) s total (k, ks) h =
      let (m, p, f) = step_to-Total fuel go u v (s.color v) s total refl k h in
      let fewer : whites order m ≤ whites order s = length-filter_mono _ _ order f in
      let (t, q, g) = each_neighbour-Total fuel go u vs m total ks (omega arith) in
      (t, ap (λ o. and_then o (each_neighbour go u vs)) p ∙ q, λ x w. f x (g x w))

  enter_node-whites :
      (u : NodeId) (s : Search)
      → has order u ≡ true
      → s.color u ≡ some white
      → (whites order (enter_node u s) < whites order s) × Fades s (enter_node u s)
  unfolding enter_node set_color
  enter_node-whites u s k e =
      let fades : Fades s (enter_node u s) = λ v w. ground arith in
      (
        length-filter_lt _ _ order u fades k (ground (arith, same_refl u)) (ground (arith, e)),
        fades,
      )

  leave_node-Fades : (u : NodeId) (s : Search) → Fades s (leave_node u s)
  unfolding leave_node set_color
  leave_node-Fades u s v w = ground arith

  pub visit-Total : (fuel : ℕ) → Total fuel (visit adj fuel)
  unfolding visit
  visit-Total zero u s k e h = let (fewer, _) = enter_node-whites u s k e in absurd (omega arith)
  visit-Total (suc fuel) u s k e h =
      let (fewer, f) = enter_node-whites u s k e in
      let (m, p, g) =
        each_neighbour-Total fuel (visit adj fuel) u (adj u) (enter_node u s) (visit-Total fuel)
          (inside u) (omega arith) in
      (
        leave_node u m,
        ap (λ o. and_then o (λ t. some (leave_node u t))) p,
        λ x w. f x (g x (leave_node-Fades u m x w)),
      )

  visit_white_total :
      (fuel : ℕ) (n : NodeId) (c : Option Color) (s : Search)
      → s.color n ≡ c
      → has order n ≡ true
      → whites order s ≤ fuel
      → Ends (visit_white adj fuel n c) s
  unfolding visit_white
  visit_white_total fuel n (some white) s e k h = visit-Total fuel n s k e h
  visit_white_total fuel n (some grey) s e k h = (s, refl, λ v w. w)
  visit_white_total fuel n (some black) s e k h = (s, refl, λ v w. w)
  visit_white_total fuel n none s e k h = (s, refl, λ v w. w)

  pub visit_all_total :
      (fuel : ℕ) (ns : List NodeId) (s : Search)
      → All (λ n. has order n ≡ true) ns
      → whites order s ≤ fuel
      → (t : Search) × (visit_all adj fuel ns s ≡ some t)
  unfolding visit_all
  visit_all_total fuel [] s ks h = (s, refl)
  visit_all_total fuel (n ∷ ns) s (k, ks) h =
      let (m, p, f) = visit_white_total fuel n (s.color n) s refl k h in
      let fewer : whites order m ≤ whites order s = length-filter_mono _ _ order f in
      let (t, q) = visit_all_total fuel ns m ks (omega arith) in
      (t, ap (λ o. and_then o (visit_all adj fuel ns)) p ∙ q)
