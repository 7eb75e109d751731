-- ===== src/Adg/Store.antt =====
-- adg/adg.h and adg.cpp: the graph owns its nodes and edges. `none` is a failed assertion.
use fdra.Prelude.{ℕ, Option, some, List, ◌==◌, if◌then◌else◌, nat_key, pair_key}
use fdra.Prelude.Options.{◌>>=◌}
use fdra.Prelude.Map
use fdra.Prelude.Map.{Map}
use fdra.Graph.Edge.{GraphEdge}
use fdra.Graph.Node as GraphNode
use fdra.Graph.Ports
use fdra.Graph.Ports.{Graph}
use fdra.Adg.Node.{Node, base, set_base}

pub record Adg : Type 0 where
  pub graph : Graph
  pub open graph use *
  pub num_gpe_nodes : ℕ
  pub num_iob_nodes : ℕ
  pub cfg_data_width : ℕ
  pub cfg_addr_width : ℕ
  pub cfg_blk_offset : ℕ
  pub cfg_spad_data_width : ℕ
  pub cfg_spad_size : ℕ
  pub iob_ag_nest_levels : ℕ
  pub iob_spad_bank_size : ℕ
  pub iob_to_spad_banks : Map ℕ (List ℕ)
  pub nodes : Map ℕ Node
  pub edges : Map ℕ GraphEdge

unfoldable pub node : ℕ → Adg → Option Node
node id g = Map.lookup id g.nodes

unfoldable pub edge : ℕ → Adg → Option GraphEdge
edge id g = Map.lookup id g.edges

unfoldable pub add_node : ℕ → Node → Adg → Adg
add_node id n g = record g { nodes = Map.insert id n g.nodes }

pub set_iob_to_spad_banks : ℕ → List ℕ → Adg → Adg
set_iob_to_spad_banks iob banks g = record g {
  iob_to_spad_banks = Map.insert iob banks g.iob_to_spad_banks;
}

-- The write through a pointer to the graph-node part of a node of the graph.
abbrev set_node : ℕ → Node → GraphNode.GraphNode → Adg → Adg
set_node id n p g = record g {
  nodes = Map.insert id (set_base (record (base n) { graph_node = p }) n) g.nodes;
}

-- The two halves of `addEdge`: the source end, then the destination end.
unfoldable pub add_edge_src : GraphEdge → Adg → Option Adg
unfolding node Ports.add_input GraphNode.add_output
add_edge_src e g =
    let pair : ℕ × ℕ = (e.dst_id, e.dst_port_idx) in
    if e.src_id == g.id
    then some (record g { graph = Ports.add_input e.src_port_idx pair g.graph })
    else do
      src ← node e.src_id g
      some
          (set_node e.src_id src (GraphNode.add_output e.src_port_idx pair (base src).graph_node) g)

unfoldable pub add_edge_dst : GraphEdge → Adg → Option Adg
unfolding node Ports.add_output GraphNode.add_input
add_edge_dst e g =
    let pair : ℕ × ℕ = (e.src_id, e.src_port_idx) in
    if e.dst_id == g.id
    then some (record g { graph = Ports.add_output e.dst_port_idx pair g.graph })
    else do
      dst ← node e.dst_id g
      some (set_node e.dst_id dst (GraphNode.add_input e.dst_port_idx pair (base dst).graph_node) g)

-- The edge is stored under the identifier that the caller gives.
unfoldable pub add_edge : ℕ → GraphEdge → Adg → Option Adg
add_edge id e g = do
  g' ← add_edge_src e (record g { edges = Map.insert id e g.edges })
  add_edge_dst e g'

unfoldable pub del_node : ℕ → Adg → Adg
del_node id g = record g { nodes = Map.erase id g.nodes }

-- The port tables of the ends keep the deleted edge.
unfoldable pub del_edge : ℕ → Adg → Adg
del_edge id g = record g { edges = Map.erase id g.edges }
