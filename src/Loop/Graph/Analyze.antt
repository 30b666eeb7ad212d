-- ===== src/Loop/Graph/Analyze.antt =====
-- src/loop/graph/types.ts and analyze.ts: the three-colour search over the forward edges. A map from
-- nodes is a function, `none` where the key is missing; a set is a list.
use orca_ts.Base.{
  and_then, zero, suc, not, drop, ◌&&◌, suc, ◌||◌, ◌-◌, any, map, [], ◌∷◌, filter, false, same,
  none, or_default, length, some, ℕ, Bool, ◌++◌, take, if◌then◌else◌, List, Text, Option,
}

abbrev pub NodeId : Type 0
NodeId = Text

pub record Edge : Type 0 where
  pub from : NodeId
  pub to : NodeId

pub record BackEdge : Type 0 where
  pub from : NodeId
  pub to : NodeId
  pub declared : Bool
  pub cycle : List NodeId

pub record GraphInput : Type 0 where
  pub nodes : List NodeId
  pub edges : List Edge
  pub declared_back_edges : List Edge

pub record CycleReport : Type 0 where
  pub traversal : List NodeId
  pub topo_order : List NodeId
  pub back_edges : List BackEdge

pub data Color : Type 0 where
  white grey black : Color

unfoldable pub has : List NodeId → NodeId → Bool
has [] n = false
has (m ∷ ms) n = same m n || has ms n

-- `see`, over a list.
unfoldable pub see_all : List NodeId → List NodeId → List NodeId
unfolding has
see_all order [] = order
see_all order (n ∷ ns) = see_all (if has order n then order else order ++ n ∷ []) ns

abbrev pub endpoints : List Edge → List NodeId
endpoints [] = []
endpoints (e ∷ es) = e.from ∷ e.to ∷ endpoints es

unfoldable pub universe : GraphInput → List NodeId
unfolding see_all
universe input = see_all (see_all [] input.nodes) (endpoints input.edges)

-- Whether an edge is among the declared ones: equal keys are equal pairs, a node having no U+0000.
abbrev pub is_declared : List Edge → Edge → Bool
is_declared ds e = any (λ d. same d.from e.from && same d.to e.to) ds

unfoldable pub forward_edges : GraphInput → List Edge
forward_edges input = filter (λ e. not (is_declared input.declared_back_edges e)) input.edges

-- `adj.get(n) ?? []`.
unfoldable pub adjacency : List Edge → NodeId → List NodeId
adjacency es n = map (λ e. e.to) (filter (λ e. same e.from n) es)

abbrev pub Colors : Type 0
Colors = NodeId → Option Color

unfoldable pub set_color : NodeId → Color → Colors → Colors
set_color n c colors = λ m. if same n m then some c else colors m

-- What `visit` writes to.
pub record Search : Type 0 where
  pub color : Colors
  pub traversal : List NodeId
  pub postorder : List NodeId
  pub accidental : List BackEdge
  pub stack : List NodeId

-- `stack.slice(stack.indexOf(v))`; a node that is not there has index -1, which slices the last one.
unfoldable pub slice_from : NodeId → List NodeId → Option (List NodeId)
slice_from v [] = none
slice_from v (n ∷ ns) = if same n v then some (n ∷ ns) else slice_from v ns

unfoldable pub stack_from : NodeId → List NodeId → List NodeId
unfolding slice_from
stack_from v stack = or_default (slice_from v stack) (drop (length stack - 1) stack)

unfoldable pub enter_node : NodeId → Search → Search
unfolding set_color
enter_node u s = record s {
  color = set_color u grey s.color;
  stack = s.stack ++ u ∷ [];
  traversal = s.traversal ++ u ∷ [];
}

unfoldable pub leave_node : NodeId → Search → Search
unfolding set_color
leave_node u s = record s {
  stack = take (length s.stack - 1) s.stack;
  color = set_color u black s.color;
  postorder = s.postorder ++ u ∷ [];
}

unfoldable pub found_cycle : NodeId → NodeId → Search → BackEdge
unfolding stack_from
found_cycle u v s = record {
  from = u;
  to = v;
  declared = false;
  cycle = stack_from v s.stack ++ v ∷ [];
}

-- The branch on a grey neighbour.
unfoldable pub report_cycle : NodeId → NodeId → Search → Search
unfolding found_cycle
report_cycle u v s = record s { accidental = s.accidental ++ found_cycle u v s ∷ [] }

-- One neighbour, of a colour.
unfoldable pub step_to :
    (NodeId → Search → Option Search) → NodeId → NodeId → Option Color → Search → Option Search
unfolding report_cycle
step_to go u v (some white) s = go v s
step_to go u v (some grey) s = some (report_cycle u v s)
step_to go u v (some black) s = some s
step_to go u v none s = some s

-- The loop over the neighbours of `u`.
unfoldable pub each_neighbour :
    (NodeId → Search → Option Search) → NodeId → List NodeId → Search → Option Search
unfolding step_to
each_neighbour go u [] s = some s
each_neighbour go u (v ∷ vs) s = and_then (step_to go u v (s.color v) s) (each_neighbour go u vs)

-- `visit`; `none` means that the fuel ran out.
unfoldable pub visit : (NodeId → List NodeId) → ℕ → NodeId → Search → Option Search
unfolding each_neighbour enter_node leave_node
visit adj zero u s = none
visit adj (suc fuel) u s =
    and_then (each_neighbour (visit adj fuel) u (adj u) (enter_node u s))
      (λ t. some (leave_node u t))

unfoldable pub visit_white :
    (NodeId → List NodeId) → ℕ → NodeId → Option Color → Search → Option Search
unfolding visit
visit_white adj fuel n (some white) s = visit adj fuel n s
visit_white adj fuel n (some grey) s = some s
visit_white adj fuel n (some black) s = some s
visit_white adj fuel n none s = some s

-- The loop over the node universe.
unfoldable pub visit_all : (NodeId → List NodeId) → ℕ → List NodeId → Search → Option Search
unfolding visit_white
visit_all adj fuel [] s = some s
visit_all adj fuel (n ∷ ns) s =
    and_then (visit_white adj fuel n (s.color n) s) (visit_all adj fuel ns)

abbrev pub start_search : List NodeId → Search
start_search order = record {
  color = λ n. if has order n then some white else none;
  traversal = [];
  postorder = [];
  accidental = [];
  stack = [];
}

unfoldable pub search_graph : GraphInput → ℕ → Option Search
unfolding visit_all universe forward_edges adjacency has
search_graph input fuel =
    visit_all (adjacency (forward_edges input)) fuel (universe input)
      (start_search (universe input))
