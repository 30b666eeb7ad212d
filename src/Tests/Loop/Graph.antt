-- ===== src/Tests/Loop/Graph.antt =====
-- Graphs at concrete inputs.
use orca_ts.Loop.Graph.Search.{search_graph-IsOrdered}
use orca_ts.Loop.Graph.Topology.{IsOrdered}
use orca_ts.Loop.Graph.Contract.{
  enforce_termination_contract-Ruling, enforce_termination_contract, Ruling,
}
use orca_ts.Loop.Graph.Analyze.{
  forward_edges, adjacency, has, see_all, Edge, BackEdge, Search, CycleReport, GraphInput,
  search_graph, universe,
}
use orca_ts.Base.{
  arith, ◌≤◌, All, length, false, ◌≡◌, same, text, and_then, true, ◌∷◌, Text, refl, [], some,
}

abbrev edge : Text → Text → Edge
edge a b = record { from = a; to = b }

-- a → b → c → a, with the last edge declared, and b → a, which is not.
abbrev knot : GraphInput
knot = record {
  nodes = text "a" ∷ text "b" ∷ text "c" ∷ [];
  edges =
      edge (text "a") (text "b")
      ∷ edge (text "b") (text "c")
      ∷ edge (text "c") (text "a")
      ∷ edge (text "b") (text "a")
      ∷ [];
  declared_back_edges = edge (text "c") (text "a") ∷ [];
}

abbrev fold_back : BackEdge
fold_back = record {
  from = text "b";
  to = text "a";
  declared = false;
  cycle = text "a" ∷ text "b" ∷ text "a" ∷ [];
}

knot_is_found : and_then (search_graph knot 3) (λ s. some s.accidental) ≡ some (fold_back ∷ [])
unfolding search_graph same
knot_is_found = refl

universe_size : length (universe knot) ≤ 3
unfolding universe same see_all has
universe_size = omega arith

search_graph-IsOrdered_example :
    (t : Search) × (search_graph knot 3 ≡ some t)
    × IsOrdered (adjacency (forward_edges knot)) t.accidental [] t.postorder
    × All (λ n. has t.postorder n ≡ true) (universe knot)
search_graph-IsOrdered_example = search_graph-IsOrdered knot 3 universe_size

abbrev report : CycleReport
report = record { traversal = []; topo_order = []; back_edges = fold_back ∷ [] }

enforce_termination_contract-Ruling_example :
    Ruling (λ n. true) (fold_back ∷ []) (enforce_termination_contract report (λ n. true))
enforce_termination_contract-Ruling_example = enforce_termination_contract-Ruling report (λ n. true)
