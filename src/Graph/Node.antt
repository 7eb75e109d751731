-- ===== src/Graph/Node.antt =====
-- graph/graph_node.h and graph_node.cpp: a node with the tables of its ports. An input port has one
-- edge, an output port a set of edges.
use fdra.Prelude.{ℕ, Option, none, some, [], if◌then◌else◌, length}
use fdra.Prelude.Map
use fdra.Prelude.Map.{Map}
use fdra.Prelude.Set
use fdra.Prelude.Set.{Set}
use Prim.Native.String.{String}
use fdra.Prelude.{nat_key, pair_key}

pub record GraphNode : Type 0 where
  pub id : ℕ
  pub name : String
  pub type : String
  pub bit_width : ℕ
  pub inputs : Map ℕ (ℕ × ℕ)
  pub outputs : Map ℕ (Set (ℕ × ℕ))
  pub input_edges : Map ℕ ℕ
  pub output_edges : Map ℕ (Set ℕ)

unfoldable pub num_inputs : GraphNode → ℕ
num_inputs n = length n.inputs

unfoldable pub num_outputs : GraphNode → ℕ
num_outputs n = length n.outputs

-- A port that has no entry reads as port 0 of node 0: `return {}` is the pair of zeros.
unfoldable pub input : ℕ → GraphNode → ℕ × ℕ
input index n = Map.get_or index (0, 0) n.inputs

unfoldable pub output : ℕ → GraphNode → Set (ℕ × ℕ)
output index n = Map.get_or index [] n.outputs

unfoldable pub add_input : ℕ → ℕ × ℕ → GraphNode → GraphNode
add_input index node n = record n { inputs = Map.insert index node n.inputs }

unfoldable pub add_output : ℕ → ℕ × ℕ → GraphNode → GraphNode
add_output index node n = record n { outputs = Map.update index [] (Set.emplace node) n.outputs }

unfoldable pub del_input : ℕ → GraphNode → GraphNode
del_input index n = record n { inputs = Map.erase index n.inputs }

-- The entry of the port stays, with one member fewer; it is made if there was none.
unfoldable pub del_output : ℕ → ℕ × ℕ → GraphNode → GraphNode
del_output index node n = record n { outputs = Map.update index [] (Set.erase node) n.outputs }

-- The overload `delOutput(int index)`.
unfoldable pub del_output_port : ℕ → GraphNode → GraphNode
del_output_port index n = record n { outputs = Map.erase index n.outputs }

unfoldable pub input_edge : ℕ → GraphNode → Option ℕ
input_edge index n = Map.lookup index n.input_edges

unfoldable pub output_edge : ℕ → GraphNode → Set ℕ
output_edge index n = Map.get_or index [] n.output_edges

unfoldable pub add_input_edge : ℕ → ℕ → GraphNode → GraphNode
add_input_edge index edge_id n = record n { input_edges = Map.insert index edge_id n.input_edges }

unfoldable pub add_output_edge : ℕ → ℕ → GraphNode → GraphNode
add_output_edge index edge_id n = record n {
  output_edges = Map.update index [] (Set.emplace edge_id) n.output_edges;
}

unfoldable pub del_input_edge : ℕ → GraphNode → GraphNode
del_input_edge index n = record n { input_edges = Map.erase index n.input_edges }

-- `none` is the failed assertion that the port has an entry.
unfoldable pub del_output_edge : ℕ → ℕ → GraphNode → Option GraphNode
del_output_edge index edge_id n =
    if Map.count index n.output_edges
    then some (record n { output_edges = Map.update index [] (Set.erase edge_id) n.output_edges })
    else none

-- The overload `delOutputEdge(int index)`.
unfoldable pub del_output_edge_port : ℕ → GraphNode → GraphNode
del_output_edge_port index n = record n { output_edges = Map.erase index n.output_edges }
