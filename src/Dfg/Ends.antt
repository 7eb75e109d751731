-- ===== src/Dfg/Ends.antt =====
-- The ends of the edges as the port tables show them, and how the two halves of `addEdge` and
-- `delEdge` change them. A port belongs to a node or to the graph itself.
pub mod Add
pub mod Del
pub mod Whole
use fdra.Prelude.{
  ℕ, Bool, true, false, not, Option, none, some, List, [], ◌∷◌, ◌≡◌, refl, ◌==◌, ==_iff, ◌||◌, ◌&&◌,
  inl, inr, arith, is_some, if◌then◌else◌, Bool-cases, Option-cases, nat_key, pair_key, pair_eq,
  pair_eq_iff,
}
use fdra.Prelude.Map
use fdra.Prelude.Set
use fdra.Prelude.Table
use fdra.Prelude.Table
use fdra.Graph.Edge.{GraphEdge}
use fdra.Graph.Node
use fdra.Graph.Ports
use fdra.Dfg.Node.{DfgNode}
use fdra.Dfg.Store.{Dfg, node, add_edge_src, add_edge_dst, del_edge_src, del_edge_dst}

-- Edge `i` leaves port `p` of node `n`.
unfoldable pub has_src_edge : Dfg → ℕ → ℕ → ℕ → Bool
unfolding node Ports.input_edge Node.output_edge
has_src_edge g n p i =
    if n == g.id
    then Set.count i (Ports.input_edge p g.graph)
    else elim (node n g) [ none ↦ false | some x ↦ Set.count i (Node.output_edge p x.graph_node) ]

-- Port `p` of node `n` leads to the port `d` of a node.
unfoldable pub has_src_pair : Dfg → ℕ → ℕ → ℕ × ℕ → Bool
unfolding node Ports.input Node.output
has_src_pair g n p d =
    if n == g.id
    then Set.count d (Ports.input p g.graph)
    else elim (node n g) [ none ↦ false | some x ↦ Set.count d (Node.output p x.graph_node) ]

-- The edge that enters port `p` of node `n`, and the port where it comes from.
unfoldable pub dst_edge : Dfg → ℕ → ℕ → Option ℕ
unfolding node Ports.output_edge Node.input_edge
dst_edge g n p =
    if n == g.id
    then Ports.output_edge p g.graph
    else elim (node n g) [ none ↦ none | some x ↦ Node.input_edge p x.graph_node ]

unfoldable pub dst_pair : Dfg → ℕ → ℕ → Option (ℕ × ℕ)
unfolding node
dst_pair g n p =
    if n == g.id
    then Map.lookup p g.graph.outputs
    else elim (node n g) [ none ↦ none | some x ↦ Map.lookup p x.graph_node.inputs ]
