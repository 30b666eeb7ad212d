-- ===== src/Loop/Graph/Search.antt =====
-- The search over a whole graph.
use orca_ts.Loop.Graph.Fuel.{is_white, visit_all_total}
use orca_ts.Loop.Graph.Topology.{
  Extends-trans, Extends-refl, some_injective, visit-Finishes, Finishes, All-imp, has-append,
  Extends, IsOrdered, IsSearch,
}
use orca_ts.Base.{
  length-filter-le, subst, same_refl, arith, if_elim, Option, ◌≢◌, map, ◌∷◌, filter, ◌≤◌, length,
  true, ◌++◌, All, if◌then◌else◌, ℕ, ◌≡◌, Bool, List, refl, [], some, none, and_then-eq-some,
}
use orca_ts.Loop.Graph.Analyze.{
  start_search, Color, visit_white, Search, visit_all, endpoints, adjacency, GraphInput, Edge,
  forward_edges, has, see_all, search_graph, universe, NodeId, white, black, grey,
}

has-see_all :
    (order ns : List NodeId) (v : NodeId) → has order v ≡ true → has (see_all order ns) v ≡ true
unfolding see_all has
has-see_all order [] v h = h
has-see_all order (n ∷ ns) v h = has-see_all (if has order n then order else order ++ n ∷ []) ns v (
    if_elim (λ o. has o v ≡ true) (has order n) (λ old. h)
      (λ new. ground (arith, has-append order (n ∷ []) v)))

has_added :
    (order : List NodeId) (n : NodeId)
    → has (if has order n then order else order ++ n ∷ []) n ≡ true
unfolding has
has_added order n =
    if_elim (λ o. has o n ≡ true) (has order n) (λ old. old)
      (λ new. ground (arith, has-append order (n ∷ []) n, same_refl n))

All-see_all : (order ns : List NodeId) → All (λ n. has (see_all order ns) n ≡ true) ns
unfolding see_all
All-see_all order [] = tt
All-see_all order (n ∷ ns) =
    let order' = if has order n then order else order ++ n ∷ [] in
    (has-see_all order' ns n (has_added order n), All-see_all order' ns)

All-has : (ns : List NodeId) → All (λ n. has ns n ≡ true) ns
unfolding has
All-has [] = tt
All-has (n ∷ ns) = (
  ground (arith, same_refl n),
  All-imp (has ns) (has (n ∷ ns)) ns (λ v h. ground arith) (All-has ns),
)

All-endpoints-filter :
    (P : NodeId → Type 0) (p : Edge → Bool) (es : List Edge)
    → All P (endpoints es)
    → All P (endpoints (filter p es))
All-endpoints-filter P p [] h = tt
All-endpoints-filter P p (e ∷ es) (a, (b, h)) =
    if_elim (λ l. All P (endpoints l)) (p e) (λ kept. (a, (b, All-endpoints-filter P p es h)))
      (λ dropped. All-endpoints-filter P p es h)

All-map-to :
    (P : NodeId → Type 0) (es : List Edge) → All P (endpoints es) → All P (map (λ e. e.to) es)
All-map-to P [] h = tt
All-map-to P (e ∷ es) (a, (b, h)) = (b, All-map-to P es h)

adjacency_inside :
    (input : GraphInput) (u : NodeId)
    → All (λ v. has (universe input) v ≡ true) (adjacency (forward_edges input) u)
unfolding universe forward_edges adjacency
adjacency_inside input u = All-map-to _ _ (
    All-endpoints-filter _ _ (forward_edges input) (
      All-endpoints-filter _ _ input.edges
        (All-see_all (see_all [] input.nodes) (endpoints input.edges))))

module _ (adj : NodeId → List NodeId) (known : NodeId → Bool)
    (inside : (u : NodeId) → All (λ v. known v ≡ true) (adj u)) where
  abbrev IsResting : Search → Type 0
  IsResting s = (v : NodeId) → s.color v ≢ some grey

  visit_white-Finishes :
      (fuel : ℕ) (n : NodeId) (c : Option Color) (s t : Search)
      → s.color n ≡ c
      → known n ≡ true
      → IsSearch adj known inside s
      → IsResting s
      → visit_white adj fuel n c s ≡ some t
      → Finishes adj known inside n s t
  unfolding visit_white
  visit_white-Finishes fuel n (some white) s t e k h q r =
      visit-Finishes adj known inside fuel n s t h r
  visit_white-Finishes fuel n (some grey) s t e k h q r = absurd (q n e)
  visit_white-Finishes fuel n (some black) s t e k h q r =
      subst (λ t. Finishes adj known inside n s t) (some_injective s t r)
        (h, h.finished n e, Extends-refl adj known inside s)
  visit_white-Finishes fuel n none s t e k h q r = absurd (h.colored n k e)

  visit_all-Finishes :
      (fuel : ℕ) (ns : List NodeId) (s t : Search)
      → All (λ n. known n ≡ true) ns
      → IsSearch adj known inside s
      → IsResting s
      → visit_all adj fuel ns s ≡ some t
      → IsSearch adj known inside t
        × All (λ n. has t.postorder n ≡ true) ns
        × Extends adj known inside s t
  unfolding visit_all
  visit_all-Finishes fuel [] s t ks h q r =
      subst (λ t. IsSearch adj known inside t × Unit × Extends adj known inside s t)
        (some_injective s t r) (h, tt, Extends-refl adj known inside s)
  visit_all-Finishes fuel (n ∷ ns) s t (k, ks) h q r =
      let (m, p, p') = and_then-eq-some _ _ t r in
      let (h', d, x) = visit_white-Finishes fuel n (s.color n) s m refl k h q p in
      let (h'', ds, y) = visit_all-Finishes fuel ns m t ks h' (λ v g. q v (x.greys v g)) p' in
      (h'', (y.keeps n d, ds), Extends-trans adj known inside s m t x y)

-- With as much fuel as there are nodes the search ends; it finishes every node, and each after all
-- its forward neighbours, but for the edges that it reports as closing an accidental cycle. So the
-- reverse of the order is topological where none is reported.
pub search_graph-IsOrdered :
    (input : GraphInput) (fuel : ℕ)
    → length (universe input) ≤ fuel
    → (t : Search) × (search_graph input fuel ≡ some t)
      × IsOrdered (adjacency (forward_edges input)) t.accidental [] t.postorder
      × All (λ n. has t.postorder n ≡ true) (universe input)
unfolding search_graph has
search_graph-IsOrdered input fuel enough =
    let order = universe input in
    let adj = adjacency (forward_edges input) in
    let inside = adjacency_inside input in
    let (t, e) =
      visit_all_total adj order inside fuel order (start_search order) (All-has order)
        (omega (arith, length-filter-le (λ v. is_white ((start_search order).color v)) order)) in
    let (h, done, _) =
      visit_all-Finishes adj (has order) inside fuel order (start_search order) t (All-has order)
        (record {
          colored = λ v k e. ground arith;
          finished = λ v e. absurd (ground arith);
          ordered = tt;
        })
        (λ v e. ground arith) e in
    (t, e, h.ordered, done)
