-- ===== src/Dfg/Store.antt =====
-- dfg/dfg.h and dfg.cpp: the graph owns its nodes and edges, and keeps the port tables of both ends
-- of an edge in step with the edge. A pointer to a node or an edge is its identifier. `none` is a
-- failed assertion or the use of a null pointer.
use fdra.Prelude.{
  ℕ, Bool, Option, none, some, List, [], ◌∷◌, ◌==◌, ◌||◌, if◌then◌else◌, nat_key, pair_key,
}
use fdra.Prelude.Options.{◌>>=◌}
use fdra.Prelude.Map
use fdra.Prelude.Map.{Map}
use fdra.Prelude.Set
use fdra.Prelude.Set.{Set}
use fdra.Graph.Edge.{GraphEdge}
use fdra.Graph.Node
use fdra.Graph.Node.{GraphNode}
use fdra.Graph.Ports
use fdra.Graph.Ports.{Graph}
use fdra.Dfg.Node.{DfgNode}
use Prim.Native.String.{String}
use text.Mathlib.Text.{◌==◌ as str_eq}

pub record Dfg : Type 0 where
  pub graph : Graph
  pub open graph use *
  pub nodes : Map ℕ DfgNode
  pub edges : Map ℕ GraphEdge
  pub io_nodes : Set ℕ
  pub topo_nodes : List ℕ

unfoldable pub node : ℕ → Dfg → Option DfgNode
node id g = Map.lookup id g.nodes

unfoldable pub edge : ℕ → Dfg → Option GraphEdge
edge id g = Map.lookup id g.edges

unfoldable pub add_node : DfgNode → Dfg → Dfg
add_node n g = record g { nodes = Map.insert n.id n g.nodes }

unfoldable pub add_io_node : ℕ → Dfg → Dfg
add_io_node id g = record g { io_nodes = Set.emplace id g.io_nodes }

unfoldable pub del_io_node : ℕ → Dfg → Dfg
del_io_node id g = record g { io_nodes = Set.erase id g.io_nodes }

unfoldable pub is_io_node : ℕ → Dfg → Bool
is_io_node id g = Set.count id g.io_nodes

-- The write through a pointer to the graph-node part of a node of the graph.
abbrev set_node : ℕ → DfgNode → GraphNode → Dfg → Dfg
set_node id n p g = record g { nodes = Map.insert id (record n { graph_node = p }) g.nodes }

-- The first half of `addEdge`: the source is an input port of the graph or a port of a node.
unfoldable pub add_edge_src : GraphEdge → Dfg → Option Dfg
unfolding node Ports.add_input_edge Ports.add_input Node.add_output_edge Node.add_output
add_edge_src e g =
    let pair : ℕ × ℕ = (e.dst_id, e.dst_port_idx) in
    if e.src_id == g.id
    then some (record g {
      graph =
          Ports.add_input_edge e.src_port_idx e.id (Ports.add_input e.src_port_idx pair g.graph);
    })
    else do
      src ← node e.src_id g
      some (
          set_node e.src_id src
            (Node.add_output_edge e.src_port_idx e.id
              (Node.add_output e.src_port_idx pair src.graph_node))
            g)

-- The second half: the destination is an output port of the graph or a port of a node.
unfoldable pub add_edge_dst : GraphEdge → Dfg → Option Dfg
unfolding node Ports.add_output_edge Ports.add_output Node.add_input_edge Node.add_input
add_edge_dst e g =
    let pair : ℕ × ℕ = (e.src_id, e.src_port_idx) in
    if e.dst_id == g.id
    then some (record g {
      graph =
          Ports.add_output_edge e.dst_port_idx e.id (Ports.add_output e.dst_port_idx pair g.graph);
    })
    else do
      dst ← node e.dst_id g
      some (
          set_node e.dst_id dst
            (Node.add_input_edge e.dst_port_idx e.id
              (Node.add_input e.dst_port_idx pair dst.graph_node))
            g)

unfoldable pub add_edge : GraphEdge → Dfg → Option Dfg
add_edge e g = do
  g' ← add_edge_src e (record g { edges = Map.insert e.id e g.edges })
  add_edge_dst e g'

-- The first half of `delEdge`.
unfoldable pub del_edge_src : ℕ → GraphEdge → Dfg → Option Dfg
unfolding node Ports.del_input_edge Ports.del_input Node.del_output_edge Node.del_output
del_edge_src id e g =
    let pair : ℕ × ℕ = (e.dst_id, e.dst_port_idx) in
    if e.src_id == g.id
    then some (record g {
      graph = Ports.del_input e.src_port_idx pair (Ports.del_input_edge e.src_port_idx id g.graph);
    })
    else do
      src ← node e.src_id g
      p ← Node.del_output_edge e.src_port_idx id src.graph_node
      some (set_node e.src_id src (Node.del_output e.src_port_idx pair p) g)

-- The second half.
unfoldable pub del_edge_dst : GraphEdge → Dfg → Option Dfg
unfolding node Ports.del_output_edge Ports.del_output Node.del_input_edge Node.del_input
del_edge_dst e g =
    if e.dst_id == g.id
    then some (record g {
      graph = Ports.del_output e.dst_port_idx (Ports.del_output_edge e.dst_port_idx g.graph);
    })
    else do
      dst ← node e.dst_id g
      some (
          set_node e.dst_id dst
            (Node.del_input e.dst_port_idx (Node.del_input_edge e.dst_port_idx dst.graph_node)) g)

unfoldable pub del_edge : ℕ → Dfg → Option Dfg
unfolding edge
del_edge id g = do
  e ← edge id g
  g' ← del_edge_src id e g
  g'' ← del_edge_dst e g'
  some (record g'' { edges = Map.erase id g''.edges })

-- `_nodes[ioNodeId]` of an identifier that has no node is a null pointer, and reading its operation
-- is a fault.
abbrev pub operation_in : String → String → DfgNode → Bool
operation_in a b n = str_eq n.operation a || str_eq n.operation b

-- The loop over the input and output nodes, which fills `found`.
unfoldable pub select_io : String → String → Dfg → List ℕ → Set ℕ → Option (Set ℕ)
unfolding node
select_io a b g [] found = some found
select_io a b g (i ∷ ids) found = do
  n ← node i g
  select_io a b g ids (if operation_in a b n then Set.emplace i found else found)

unfoldable pub get_in_nodes : Dfg → Option (Set ℕ)
get_in_nodes g = select_io "INPUT" "LOAD" g g.io_nodes []

unfoldable pub get_out_nodes : Dfg → Option (Set ℕ)
get_out_nodes g = select_io "OUTPUT" "STORE" g g.io_nodes []

-- `operator=`: the copy of a node is an input or output node exactly if its identifier is in
-- `_ioNodes`; a node there that is no such node is a null pointer.
abbrev pub copy_node : Dfg → ℕ → DfgNode → Option DfgNode
copy_node that id n =
    if Set.count id that.io_nodes
    then elim n.io [ none ↦ none | some _ ↦ some n ]
    else some (record n { io = none })

unfoldable pub copy_nodes : Dfg → Map ℕ DfgNode → Map ℕ DfgNode → Option (Map ℕ DfgNode)
copy_nodes that [] copies = some copies
copy_nodes that ((id, n) ∷ rest) copies = do
  n' ← copy_node that id n
  copy_nodes that rest (Map.insert id n' copies)

unfoldable pub copy_edges : Map ℕ GraphEdge → Map ℕ GraphEdge → Map ℕ GraphEdge
copy_edges [] copies = copies
copy_edges ((id, e) ∷ rest) copies = copy_edges rest (Map.insert id e copies)

-- What the target held before is overwritten, but for its nodes and edges of other identifiers.
unfoldable pub assign : Dfg → Dfg → Option Dfg
unfolding copy_nodes copy_edges
assign this that = do
  nodes' ← copy_nodes that that.nodes this.nodes
  some (record {
    graph = that.graph;
    nodes = nodes';
    edges = copy_edges that.edges this.edges;
    io_nodes = that.io_nodes;
    topo_nodes = that.topo_nodes;
  })
