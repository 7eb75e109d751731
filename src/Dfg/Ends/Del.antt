-- ===== src/Dfg/Ends/Del.antt =====
-- The effect of `delEdge` on the ends of the edges.
use fdra.Prelude.{
  ℕ, not, none, some, ◌≡◌, ◌==◌, ◌&&◌, inl, inr, arith, if◌then◌else◌, is_some, Option-cases,
  nat_key, pair_key,
}
use fdra.Prelude.Map
use fdra.Prelude.Table
use fdra.Graph.Edge.{GraphEdge}
use fdra.Graph.Node
use fdra.Graph.Node.{GraphNode}
use fdra.Dfg.Node.{DfgNode}
use fdra.Dfg.Store.{Dfg, node, del_edge_src, del_edge_dst}
use fdra.Dfg.Ends.{has_src_edge, has_src_pair, dst_edge, dst_pair}

module _ (k : ℕ) (e : GraphEdge) (g g' : Dfg) (done : del_edge_src k e g ≡ some g') where
  abbrev old_src : DfgNode → GraphNode
  old_src x =
      Node.del_output e.src_port_idx (e.dst_id, e.dst_port_idx)
        (record (x.graph_node) {
          output_edges = Table.erase e.src_port_idx k x.graph_node.output_edges;
        })

  pub src-Dels :
      (n p i c q : ℕ)
      → (has_src_edge g' n p i
          ≡ (not (e.src_id == n && (e.src_port_idx == p && k == i)) && has_src_edge g n p i))
        × (has_src_pair g' n p (c, q) ≡ (
            not (e.src_id == n && (e.src_port_idx == p && (e.dst_id == c && e.dst_port_idx == q)))
            && has_src_pair g n p (c, q)))
        × (dst_edge g' n p ≡ dst_edge g n p)
        × (dst_pair g' n p ≡ dst_pair g n p)
        × (is_some (node n g') ≡ is_some (node n g))
        × (g'.edges ≡ g.edges)
        × (g'.id ≡ g.id)
  unfolding del_edge_src has_src_edge has_src_pair dst_edge dst_pair
  src-Dels n p i c q = elim (Option-cases (Map.lookup e.src_id g.nodes)) [
    | inl absent ↦ (
      ground (arith, Table.count-erase p e.src_port_idx i k g.graph.input_edges),
      ground (
        arith,
        Table.count-erase p e.src_port_idx (c, q) (e.dst_id, e.dst_port_idx) g.graph.inputs,
      ),
      ground (arith),
      ground (arith),
      ground arith,
      ground arith,
      ground arith,
    )
    | inr (x, found) ↦
        let stored = Map.lookup-insert n e.src_id (record x { graph_node = old_src x }) g.nodes in
        (
          ground (
            arith,
            stored,
            Table.count-erase p e.src_port_idx i k g.graph.input_edges,
            Table.count-erase p e.src_port_idx i k x.graph_node.output_edges,
          ),
          ground (
            arith,
            stored,
            Table.count-erase p e.src_port_idx (c, q) (e.dst_id, e.dst_port_idx) g.graph.inputs,
            Table.count-erase p e.src_port_idx (c, q) (e.dst_id, e.dst_port_idx)
                x.graph_node.outputs,
          ),
          ground (arith, stored),
          ground (arith, stored),
          ground (arith, stored),
          ground arith,
          ground arith,
        )
  ]

module _ (e : GraphEdge) (g g' : Dfg) (done : del_edge_dst e g ≡ some g') where
  abbrev old_dst : DfgNode → GraphNode
  old_dst x = Node.del_input e.dst_port_idx (Node.del_input_edge e.dst_port_idx x.graph_node)

  pub dst-Dels :
      (n p i c q : ℕ)
      → (has_src_edge g' n p i ≡ has_src_edge g n p i)
        × (has_src_pair g' n p (c, q) ≡ has_src_pair g n p (c, q))
        × (dst_edge g' n p
            ≡ (if e.dst_id == n && e.dst_port_idx == p then none else dst_edge g n p))
        × (dst_pair g' n p
            ≡ (if e.dst_id == n && e.dst_port_idx == p then none else dst_pair g n p))
        × (is_some (node n g') ≡ is_some (node n g))
        × (g'.edges ≡ g.edges)
        × (g'.id ≡ g.id)
  unfolding del_edge_dst has_src_edge has_src_pair dst_edge dst_pair
  dst-Dels n p i c q = elim (Option-cases (Map.lookup e.dst_id g.nodes)) [
    | inl absent ↦ (
      ground (arith),
      ground (arith),
      ground (arith, Map.lookup-erase p e.dst_port_idx g.graph.output_edges),
      ground (arith, Map.lookup-erase p e.dst_port_idx g.graph.outputs),
      ground arith,
      ground arith,
      ground arith,
    )
    | inr (x, found) ↦
        let stored = Map.lookup-insert n e.dst_id (record x { graph_node = old_dst x }) g.nodes in
        (
          ground (arith, stored),
          ground (arith, stored),
          ground (
            arith,
            stored,
            Map.lookup-erase p e.dst_port_idx g.graph.output_edges,
            Map.lookup-erase p e.dst_port_idx x.graph_node.input_edges,
          ),
          ground (
            arith,
            stored,
            Map.lookup-erase p e.dst_port_idx g.graph.outputs,
            Map.lookup-erase p e.dst_port_idx x.graph_node.inputs,
          ),
          ground (arith, stored),
          ground arith,
          ground arith,
        )
  ]
