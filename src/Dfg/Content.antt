-- ===== src/Dfg/Content.antt =====
-- dfg/dfg.cpp, `addEdge` and `delEdge`: what they leave as it is. They write to port tables only: all
-- other members of every node and of the graph stay.
use fdra.Prelude.{
  ℕ, Option, none, some, [], ◌≡◌, refl, sym, ap, ◌∙◌, ◌==◌, inl, inr, arith, Bool-cases, nat_key,
}
use mathlib.Core.Path.{subst}
use fdra.Prelude.Options.{>>=-eq-some}
use fdra.Prelude.Map
use fdra.Prelude.Map.{Map}
use fdra.Graph.Edge.{GraphEdge}
use fdra.Graph.Node
use fdra.Graph.Node.{GraphNode}
use fdra.Graph.Ports
use fdra.Graph.Ports.{Graph}
use fdra.Dfg.Node.{DfgNode}
use fdra.Dfg.Store.{
  Dfg, node, edge, add_edge, del_edge, add_edge_src, add_edge_dst, del_edge_src, del_edge_dst,
}

-- A node without its port tables.
abbrev pub content : DfgNode → DfgNode
content n = record n {
  graph_node = record (n.graph_node) {
    inputs = [];
    outputs = [];
    input_edges = [];
    output_edges = [];
  };
}

abbrev pub content_at : Option DfgNode → Option DfgNode
content_at none = none
content_at (some n) = some (content n)

-- The graph's own members without its port tables.
abbrev pub own_content : Graph → Graph
own_content g = record g { inputs = []; outputs = []; input_edges = []; output_edges = [] }

-- The members of the graph beside its nodes and edges.
pub record SameOwn (g g' : Dfg) : Type 0 where
  pub own : own_content g'.graph ≡ own_content g.graph
  pub io_nodes : g'.io_nodes ≡ g.io_nodes
  pub topo_nodes : g'.topo_nodes ≡ g.topo_nodes

-- Two graphs differ in edges and port tables only.
pub record SameContents (g g' : Dfg) : Type 0 where
  pub nodes : (i : ℕ) → content_at (node i g') ≡ content_at (node i g)
  pub rest : SameOwn g g'

pub SameOwn-trans : (a b c : Dfg) → SameOwn a b → SameOwn b c → SameOwn a c
SameOwn-trans a b c s t = record {
  own = t.own ∙ s.own;
  io_nodes = t.io_nodes ∙ s.io_nodes;
  topo_nodes = t.topo_nodes ∙ s.topo_nodes;
}

pub SameOwn-refl : (g : Dfg) → SameOwn g g
SameOwn-refl g = record { own = refl; io_nodes = refl; topo_nodes = refl }

pub SameContents-trans : (a b c : Dfg) → SameContents a b → SameContents b c → SameContents a c
SameContents-trans a b c s t = record {
  nodes = λ i. t.nodes i ∙ s.nodes i;
  rest = SameOwn-trans a b c s.rest t.rest;
}

edges-SameContents : (g : Dfg) (es : Map ℕ GraphEdge) → SameContents g (record g { edges = es })
unfolding node
edges-SameContents g es = record {
  nodes = λ i. refl;
  rest = record { own = refl; io_nodes = refl; topo_nodes = refl };
}

own-SameContents :
    (g : Dfg) (p : Graph)
    → own_content p ≡ own_content g.graph
    → SameContents g (record g { graph = p })
unfolding node
own-SameContents g p same = record {
  nodes = λ i. refl;
  rest = record { own = same; io_nodes = refl; topo_nodes = refl };
}

node-SameContents :
    (g : Dfg) (id : ℕ) (n n' : DfgNode)
    → Map.lookup id g.nodes ≡ some n
    → content n' ≡ content n
    → SameContents g (record g { nodes = Map.insert id n' g.nodes })
unfolding node
node-SameContents g id n n' there same = record {
  nodes = λ i. elim (Bool-cases (id == i)) [
    | inl own ↦
        let at : id ≡ i = ground arith in
        let now : Map.lookup i (Map.insert id n' g.nodes) ≡ some n' =
          Map.lookup-insert i id n' g.nodes ∙ rw own refl in
        let was : Map.lookup i g.nodes ≡ some n =
          subst (λ k. Map.lookup k g.nodes ≡ some n) at there in
        ap content_at now ∙ ap some same ∙ sym (ap content_at was)
    | inr other ↦
        let now : Map.lookup i (Map.insert id n' g.nodes) ≡ Map.lookup i g.nodes =
          Map.lookup-insert i id n' g.nodes ∙ rw other refl in
        ap content_at now
  ];
  rest = record { own = refl; io_nodes = refl; topo_nodes = refl };
}

add_edge_src-SameContents :
    (e : GraphEdge) (g g' : Dfg) → add_edge_src e g ≡ some g' → SameContents g g'
unfolding add_edge_src node Ports.add_input_edge Ports.add_input Node.add_output_edge
    Node.add_output
add_edge_src-SameContents e g g' done = elim (Bool-cases (e.src_id == g.id)) [
  | inl own ↦
      let p =
        Ports.add_input_edge e.src_port_idx e.id
          (Ports.add_input e.src_port_idx (e.dst_id, e.dst_port_idx) g.graph) in
      let same : record g { graph = p } ≡ g' = ground (arith, own) in
      subst (SameContents g) same (own-SameContents g p refl)
  | inr other ↦
      let (n, there, last) = >>=-eq-some (Map.lookup e.src_id g.nodes) _ (rw other at done) in
      let n' = record n {
        graph_node =
            Node.add_output_edge e.src_port_idx e.id
              (Node.add_output e.src_port_idx (e.dst_id, e.dst_port_idx) n.graph_node);
      } in
      let same : record g { nodes = Map.insert e.src_id n' g.nodes } ≡ g' = ground (arith, last) in
      subst (SameContents g) same (node-SameContents g e.src_id n n' there refl)
]

add_edge_dst-SameContents :
    (e : GraphEdge) (g g' : Dfg) → add_edge_dst e g ≡ some g' → SameContents g g'
unfolding add_edge_dst node Ports.add_output_edge Ports.add_output Node.add_input_edge
    Node.add_input
add_edge_dst-SameContents e g g' done = elim (Bool-cases (e.dst_id == g.id)) [
  | inl own ↦
      let p =
        Ports.add_output_edge e.dst_port_idx e.id
          (Ports.add_output e.dst_port_idx (e.src_id, e.src_port_idx) g.graph) in
      let same : record g { graph = p } ≡ g' = ground (arith, own) in
      subst (SameContents g) same (own-SameContents g p refl)
  | inr other ↦
      let (n, there, last) = >>=-eq-some (Map.lookup e.dst_id g.nodes) _ (rw other at done) in
      let n' = record n {
        graph_node =
            Node.add_input_edge e.dst_port_idx e.id
              (Node.add_input e.dst_port_idx (e.src_id, e.src_port_idx) n.graph_node);
      } in
      let same : record g { nodes = Map.insert e.dst_id n' g.nodes } ≡ g' = ground (arith, last) in
      subst (SameContents g) same (node-SameContents g e.dst_id n n' there refl)
]

pub add_edge-SameContents :
    (e : GraphEdge) (g g' : Dfg) → add_edge e g ≡ some g' → SameContents g g'
unfolding add_edge
add_edge-SameContents e g g' done =
    let g0 = record g { edges = Map.insert e.id e g.edges } in
    let (h, first, second) = >>=-eq-some (add_edge_src e g0) (add_edge_dst e) done in
    SameContents-trans g g0 g' (edges-SameContents g (Map.insert e.id e g.edges)) (
      SameContents-trans g0 h g' (add_edge_src-SameContents e g0 h first)
        (add_edge_dst-SameContents e h g' second))

del_output_edge-content :
    (n : DfgNode) (port id : ℕ) (pair : ℕ × ℕ) (p : GraphNode)
    → Node.del_output_edge port id n.graph_node ≡ some p
    → content (record n { graph_node = Node.del_output port pair p }) ≡ content n
unfolding Node.del_output_edge Node.del_output
del_output_edge-content n port id pair p done = ground (arith, done)

del_edge_src-SameContents :
    (k : ℕ) (e : GraphEdge) (g g' : Dfg) → del_edge_src k e g ≡ some g' → SameContents g g'
unfolding del_edge_src node Ports.del_input_edge Ports.del_input
del_edge_src-SameContents k e g g' done = elim (Bool-cases (e.src_id == g.id)) [
  | inl own ↦
      let p =
        Ports.del_input e.src_port_idx (e.dst_id, e.dst_port_idx)
          (Ports.del_input_edge e.src_port_idx k g.graph) in
      let same : record g { graph = p } ≡ g' = ground (arith, own) in
      subst (SameContents g) same (own-SameContents g p refl)
  | inr other ↦
      let (n, there, next) = >>=-eq-some (Map.lookup e.src_id g.nodes) _ (rw other at done) in
      let (p, taken, last) =
        >>=-eq-some (Node.del_output_edge e.src_port_idx k n.graph_node) _ next in
      let pair : ℕ × ℕ = (e.dst_id, e.dst_port_idx) in
      let n' = record n { graph_node = Node.del_output e.src_port_idx pair p } in
      let same : record g { nodes = Map.insert e.src_id n' g.nodes } ≡ g' = ground (arith, last) in
      subst (SameContents g) same (
        node-SameContents g e.src_id n n' there
          (del_output_edge-content n e.src_port_idx k pair p taken))
]

del_edge_dst-SameContents :
    (e : GraphEdge) (g g' : Dfg) → del_edge_dst e g ≡ some g' → SameContents g g'
unfolding del_edge_dst node Ports.del_output_edge Ports.del_output Node.del_input_edge
    Node.del_input
del_edge_dst-SameContents e g g' done = elim (Bool-cases (e.dst_id == g.id)) [
  | inl own ↦
      let p = Ports.del_output e.dst_port_idx (Ports.del_output_edge e.dst_port_idx g.graph) in
      let same : record g { graph = p } ≡ g' = ground (arith, own) in
      subst (SameContents g) same (own-SameContents g p refl)
  | inr other ↦
      let (n, there, last) = >>=-eq-some (Map.lookup e.dst_id g.nodes) _ (rw other at done) in
      let n' = record n {
        graph_node =
            Node.del_input e.dst_port_idx (Node.del_input_edge e.dst_port_idx n.graph_node);
      } in
      let same : record g { nodes = Map.insert e.dst_id n' g.nodes } ≡ g' = ground (arith, last) in
      subst (SameContents g) same (node-SameContents g e.dst_id n n' there refl)
]

pub del_edge-SameContents : (k : ℕ) (g g' : Dfg) → del_edge k g ≡ some g' → SameContents g g'
unfolding del_edge
del_edge-SameContents k g g' done =
    let (e, found, next) = >>=-eq-some (edge k g) _ done in
    let (h, first, next') = >>=-eq-some (del_edge_src k e g) _ next in
    let (h', second, last) = >>=-eq-some (del_edge_dst e h) _ next' in
    let same : record h' { edges = Map.erase k h'.edges } ≡ g' = ground (arith, last) in
    SameContents-trans g h g' (del_edge_src-SameContents k e g h first) (
      SameContents-trans h h' g' (del_edge_dst-SameContents e h h' second)
        (subst (SameContents h') same (edges-SameContents h' (Map.erase k h'.edges))))
