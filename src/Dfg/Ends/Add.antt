-- ===== src/Dfg/Ends/Add.antt =====
-- The effect of `addEdge` on the ends of the edges.
use fdra.Prelude.{
  ℕ, some, ◌≡◌, ◌==◌, ◌||◌, ◌&&◌, inl, inr, arith, if◌then◌else◌, is_some, Option-cases, nat_key,
  pair_key,
}
use fdra.Prelude.Map
use fdra.Prelude.Table
use fdra.Graph.Edge.{GraphEdge}
use fdra.Graph.Node
use fdra.Graph.Node.{GraphNode}
use fdra.Dfg.Node.{DfgNode}
use fdra.Dfg.Store.{Dfg, node, add_edge_src, add_edge_dst}
use fdra.Dfg.Ends.{has_src_edge, has_src_pair, dst_edge, dst_pair}

module _ (e : GraphEdge) (g g' : Dfg) (done : add_edge_src e g ≡ some g') where
  abbrev new_src : DfgNode → GraphNode
  new_src x =
      Node.add_output_edge e.src_port_idx e.id
        (Node.add_output e.src_port_idx (e.dst_id, e.dst_port_idx) x.graph_node)

  pub src-Adds :
      (n p i c q : ℕ)
      → (has_src_edge g' n p i
          ≡ ((e.src_id == n && (e.src_port_idx == p && e.id == i)) || has_src_edge g n p i))
        × (has_src_pair g' n p (c, q) ≡ (
            (e.src_id == n && (e.src_port_idx == p && (e.dst_id == c && e.dst_port_idx == q)))
            || has_src_pair g n p (c, q)))
        × (dst_edge g' n p ≡ dst_edge g n p)
        × (dst_pair g' n p ≡ dst_pair g n p)
        × (is_some (node n g') ≡ is_some (node n g))
        × (g'.edges ≡ g.edges)
        × (g'.id ≡ g.id)
  unfolding add_edge_src has_src_edge has_src_pair dst_edge dst_pair
  src-Adds n p i c q = elim (Option-cases (Map.lookup e.src_id g.nodes)) [
    | inl absent ↦ (
      ground (arith, Table.count-emplace p e.src_port_idx i e.id g.graph.input_edges),
      ground (
        arith,
        Table.count-emplace p e.src_port_idx (c, q) (e.dst_id, e.dst_port_idx) g.graph.inputs,
      ),
      ground (arith),
      ground (arith),
      ground arith,
      ground arith,
      ground arith,
    )
    | inr (x, found) ↦
        let stored = Map.lookup-insert n e.src_id (record x { graph_node = new_src x }) g.nodes in
        (
          ground (
            arith,
            stored,
            Table.count-emplace p e.src_port_idx i e.id g.graph.input_edges,
            Table.count-emplace p e.src_port_idx i e.id x.graph_node.output_edges,
          ),
          ground (
            arith,
            stored,
            Table.count-emplace p e.src_port_idx (c, q) (e.dst_id, e.dst_port_idx) g.graph.inputs,
            Table.count-emplace p e.src_port_idx (c, q) (e.dst_id, e.dst_port_idx)
                x.graph_node.outputs,
          ),
          ground (arith, stored),
          ground (arith, stored),
          ground (arith, stored),
          ground arith,
          ground arith,
        )
  ]

module _ (e : GraphEdge) (g g' : Dfg) (done : add_edge_dst e g ≡ some g') where
  abbrev new_dst : DfgNode → GraphNode
  new_dst x =
      Node.add_input_edge e.dst_port_idx e.id
        (Node.add_input e.dst_port_idx (e.src_id, e.src_port_idx) x.graph_node)

  pub dst-Adds :
      (n p i c q : ℕ)
      → (has_src_edge g' n p i ≡ has_src_edge g n p i)
        × (has_src_pair g' n p (c, q) ≡ has_src_pair g n p (c, q))
        × (dst_edge g' n p
            ≡ (if e.dst_id == n && e.dst_port_idx == p then some e.id else dst_edge g n p))
        × (dst_pair g' n p ≡ (
            if e.dst_id == n && e.dst_port_idx == p
            then some (e.src_id, e.src_port_idx)
            else dst_pair g n p))
        × (is_some (node n g') ≡ is_some (node n g))
        × (g'.edges ≡ g.edges)
        × (g'.id ≡ g.id)
  unfolding add_edge_dst has_src_edge has_src_pair dst_edge dst_pair
  dst-Adds n p i c q = elim (Option-cases (Map.lookup e.dst_id g.nodes)) [
    | inl absent ↦ (
      ground (arith),
      ground (arith),
      ground (arith, Map.lookup-insert p e.dst_port_idx e.id g.graph.output_edges),
      ground (arith, Map.lookup-insert p e.dst_port_idx (e.src_id, e.src_port_idx) g.graph.outputs),
      ground arith,
      ground arith,
      ground arith,
    )
    | inr (x, found) ↦
        let stored = Map.lookup-insert n e.dst_id (record x { graph_node = new_dst x }) g.nodes in
        (
          ground (arith, stored),
          ground (arith, stored),
          ground (
            arith,
            stored,
            Map.lookup-insert p e.dst_port_idx e.id g.graph.output_edges,
            Map.lookup-insert p e.dst_port_idx e.id x.graph_node.input_edges,
          ),
          ground (
            arith,
            stored,
            Map.lookup-insert p e.dst_port_idx (e.src_id, e.src_port_idx) g.graph.outputs,
            Map.lookup-insert p e.dst_port_idx (e.src_id, e.src_port_idx) x.graph_node.inputs,
          ),
          ground (arith, stored),
          ground arith,
          ground arith,
        )
  ]
