-- ===== src/Loop/Graph/Topology.antt =====
-- The order in which the search finishes nodes.
use orca_ts.Loop.Graph.Analyze.{
  white, black, grey, set_color, leave_node, enter_node, found_cycle, black, Color, grey, step_to,
  report_cycle, each_neighbour, visit, Search, BackEdge, has, NodeId,
}
use orca_ts.Base.{
  zero, suc, and_then-eq-some, append_assoc, sym, none, append-nil, suc, ◌&&◌, some, ◌≢◌, same_refl,
  subst, ℕ, Option, same, arith, [], any, ◌||◌, true, ◌∷◌, ◌++◌, All, ◌≡◌, List, Bool, refl,
}

-- Whether a back-edge from one node to another was reported.
abbrev pub flagged : List BackEdge → NodeId → NodeId → Bool
flagged es u v = any (λ e. same e.from u && same e.to v) es

pub has-append : (xs ys : List NodeId) (v : NodeId) → has (xs ++ ys) v ≡ (has xs v || has ys v)
unfolding has
has-append [] ys v = refl
has-append (x ∷ xs) ys v = ground (arith, has-append xs ys v)

flagged-append :
    (es fs : List BackEdge) (u v : NodeId)
    → flagged (es ++ fs) u v ≡ (flagged es u v || flagged fs u v)
flagged-append [] fs u v = refl
flagged-append (e ∷ es) fs u v = ground (arith, flagged-append es fs u v)

-- An edge whose end is finished, or that was reported.
abbrev pub settled : List NodeId → List BackEdge → NodeId → NodeId → Bool
settled before acc u v = has before v || flagged acc u v

module _ (adj : NodeId → List NodeId) where
  abbrev pub IsSettled : List NodeId → List BackEdge → NodeId → Type 0
  IsSettled before acc u = All (λ v. settled before acc u v ≡ true) (adj u)

  -- Each node of a list stands after all its neighbours, but for the edges that were reported.
  abbrev pub IsOrdered : List BackEdge → List NodeId → List NodeId → Type 0
  IsOrdered acc before [] = Unit
  IsOrdered acc before (u ∷ us) = IsSettled before acc u × IsOrdered acc (before ++ u ∷ []) us

  IsOrdered-append :
      (acc : List BackEdge) (before us : List NodeId) (u : NodeId)
      → IsOrdered acc before us
      → IsSettled (before ++ us) acc u
      → IsOrdered acc before (us ++ u ∷ [])
  IsOrdered-append acc before [] u h k = (subst (λ b. IsSettled b acc u) (append-nil before) k, tt)
  IsOrdered-append acc before (x ∷ us) u (h, hs) k = (
    h,
    IsOrdered-append acc (before ++ x ∷ []) us u hs
        (subst (λ b. IsSettled b acc u) (sym (append_assoc before (x ∷ []) us)) k),
  )

pub All-imp :
    {A : Type 0} (p q : A → Bool) (xs : List A)
    → ((x : A) → p x ≡ true → q x ≡ true)
    → All (λ x. p x ≡ true) xs
    → All (λ x. q x ≡ true) xs
All-imp p q [] f h = tt
All-imp p q (x ∷ xs) f (h, hs) = (f x h, All-imp p q xs f hs)

pub some_injective : {A : Type 0} (x y : A) → some x ≡ some y → x ≡ y
some_injective x y e = cc

abbrev pub Subset : (NodeId → Bool) → (NodeId → Bool) → Type 0
Subset p q = (v : NodeId) → p v ≡ true → q v ≡ true

IsOrdered-mono :
    (adj : NodeId → List NodeId) (acc acc' : List BackEdge) (before us : List NodeId)
    → ((u : NodeId) → Subset (flagged acc u) (flagged acc' u))
    → IsOrdered adj acc before us
    → IsOrdered adj acc' before us
IsOrdered-mono adj acc acc' before [] f h = tt
IsOrdered-mono adj acc acc' before (u ∷ us) f (h, hs) = (
  All-imp (settled before acc u) (settled before acc' u) (adj u) (λ v k. ground (arith, f u v)) h,
  IsOrdered-mono adj acc acc' (before ++ u ∷ []) us f hs,
)

module _ (adj : NodeId → List NodeId) (known : NodeId → Bool)
    (inside : (u : NodeId) → All (λ v. known v ≡ true) (adj u)) where
  -- Every known node has a colour, a black one is finished, and the finished nodes are in order.
  pub record IsSearch (s : Search) : Type 0 where
    pub colored : (v : NodeId) → known v ≡ true → s.color v ≢ none
    pub finished : (v : NodeId) → s.color v ≡ some black → has s.postorder v ≡ true
    pub ordered : IsOrdered adj s.accidental [] s.postorder

  -- What a search only adds to, and the grey nodes, of which it leaves none.
  pub record Extends (s t : Search) : Type 0 where
    pub keeps : Subset (has s.postorder) (has t.postorder)
    pub reports : (u : NodeId) → Subset (flagged s.accidental u) (flagged t.accidental u)
    pub greys : (v : NodeId) → t.color v ≡ some grey → s.color v ≡ some grey

  pub Extends-refl : (s : Search) → Extends s s
  Extends-refl s = record { keeps = λ v h. h; reports = λ u v h. h; greys = λ v h. h }

  pub Extends-trans : (s t r : Search) → Extends s t → Extends t r → Extends s r
  Extends-trans s t r f g = record {
    keeps = λ v h. g.keeps v (f.keeps v h);
    reports = λ u v h. g.reports u v (f.reports u v h);
    greys = λ v h. f.greys v (g.greys v h);
  }

  abbrev pub Finishes : NodeId → Search → Search → Type 0
  Finishes v s t = IsSearch t × (has t.postorder v ≡ true) × Extends s t

  abbrev Settles : NodeId → List NodeId → Search → Search → Type 0
  Settles u vs s t =
      IsSearch t × All (λ v. settled t.postorder t.accidental u v ≡ true) vs × Extends s t

  abbrev pub Sound : (NodeId → Search → Option Search) → Type 0
  Sound go = (v : NodeId) (s t : Search) → IsSearch s → go v s ≡ some t → Finishes v s t

  report_cycle-Settles :
      (u v : NodeId) (s : Search) → IsSearch s → Settles u (v ∷ []) s (report_cycle u v s)
  unfolding report_cycle found_cycle
  report_cycle-Settles u v s h =
      let more : (w : NodeId)
          → Subset (flagged s.accidental w) (flagged (report_cycle u v s).accidental w) =
        λ w x k. ground (arith, flagged-append s.accidental (found_cycle u v s ∷ []) w x) in
      (
        record {
          colored = h.colored;
          finished = h.finished;
          ordered = IsOrdered-mono adj _ _ [] s.postorder more h.ordered;
        },
        (
          ground (
            arith,
            flagged-append s.accidental (found_cycle u v s ∷ []) u v,
            same_refl u,
            same_refl v,
          ),
          tt,
        ),
        record { keeps = λ x k. k; reports = more; greys = λ x k. k },
      )

  step_to-Settles :
      (go : NodeId → Search → Option Search) (u v : NodeId) (c : Option Color) (s t : Search)
      → Sound go
      → s.color v ≡ c
      → known v ≡ true
      → IsSearch s
      → step_to go u v c s ≡ some t
      → Settles u (v ∷ []) s t
  unfolding step_to
  step_to-Settles go u v (some white) s t sound e k h r =
      let (g, f, x) = sound v s t h r in (g, (ground (arith, f), tt), x)
  step_to-Settles go u v (some grey) s t sound e k h r =
      subst (λ t. Settles u (v ∷ []) s t) (some_injective (report_cycle u v s) t r)
        (report_cycle-Settles u v s h)
  step_to-Settles go u v (some black) s t sound e k h r =
      subst (λ t. Settles u (v ∷ []) s t) (some_injective s t r)
        (h, (ground (arith, h.finished v e), tt), Extends-refl s)
  step_to-Settles go u v none s t sound e k h r = absurd (h.colored v k e)

  each_neighbour-Settles :
      (go : NodeId → Search → Option Search) (u : NodeId) (vs : List NodeId) (s t : Search)
      → Sound go
      → All (λ v. known v ≡ true) vs
      → IsSearch s
      → each_neighbour go u vs s ≡ some t
      → Settles u vs s t
  unfolding each_neighbour
  each_neighbour-Settles go u [] s t sound ks h r =
      subst (λ t. Settles u [] s t) (some_injective s t r) (h, tt, Extends-refl s)
  each_neighbour-Settles go u (v ∷ vs) s t sound (k, ks) h r =
      let (m, p, q) = and_then-eq-some _ _ t r in
      let (h', (d, _), x) = step_to-Settles go u v (s.color v) s m sound refl k h p in
      let (h'', ds, y) = each_neighbour-Settles go u vs m t sound ks h' q in
      (h'', (ground (arith, d, y.keeps v, y.reports u v), ds), Extends-trans s m t x y)

  enter_node-IsSearch : (u : NodeId) (s : Search) → IsSearch s → IsSearch (enter_node u s)
  unfolding enter_node set_color
  enter_node-IsSearch u s h = record {
    colored = λ v k e. ground (arith, h.colored v k);
    finished = λ v e. ground (arith, h.finished v);
    ordered = h.ordered;
  }

  leave_node-Finishes :
      (u : NodeId) (s m : Search)
      → Settles u (adj u) (enter_node u s) m
      → Finishes u s (leave_node u m)
  unfolding enter_node leave_node set_color has
  leave_node-Finishes u s m (h, ds, x) = (
    record {
      colored = λ v k e. ground (arith, h.colored v k);
      finished = λ v e. ground (arith, h.finished v, has-append m.postorder (u ∷ []) v);
      ordered = IsOrdered-append adj m.accidental [] m.postorder u h.ordered ds;
    },
    ground (arith, has-append m.postorder (u ∷ []) u, same_refl u),
    record {
      keeps = λ v k. ground (arith, has-append m.postorder (u ∷ []) v, x.keeps v k);
      reports = λ w v k. x.reports w v k;
      greys = λ v k. ground (arith, x.greys v);
    },
  )

  pub visit-Finishes : (fuel : ℕ) → Sound (visit adj fuel)
  unfolding visit
  visit-Finishes zero u s t h r = cc
  visit-Finishes (suc fuel) u s t h r =
      let (m, p, q) = and_then-eq-some _ _ t r in
      let below =
        each_neighbour-Settles (visit adj fuel) u (adj u) (enter_node u s) m (visit-Finishes fuel)
          (inside u) (enter_node-IsSearch u s h) p in
      subst (λ t. Finishes u s t) (some_injective (leave_node u m) t q)
        (leave_node-Finishes u s m below)
