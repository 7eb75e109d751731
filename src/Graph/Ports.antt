-- ===== src/Graph/Ports.antt =====
-- graph/graph.h and graph.cpp: the graph's own ports. Seen from inside, an input of the graph is a
-- source, so it has a set of edges, and an output of the graph has one edge.
use fdra.Prelude.{ℕ, Option, [], length, nat_key, pair_key}
use fdra.Prelude.Map
use fdra.Prelude.Map.{Map}
use fdra.Prelude.Set
use fdra.Prelude.Set.{Set}
use Prim.Native.String.{String}

pub record Graph : Type 0 where
  pub id : ℕ
  pub bit_width : ℕ
  pub input_names : Map ℕ String
  pub output_names : Map ℕ String
  pub inputs : Map ℕ (Set (ℕ × ℕ))
  pub outputs : Map ℕ (ℕ × ℕ)
  pub input_edges : Map ℕ (Set ℕ)
  pub output_edges : Map ℕ ℕ

unfoldable pub num_inputs : Graph → ℕ
num_inputs g = length g.inputs

unfoldable pub num_outputs : Graph → ℕ
num_outputs g = length g.outputs

pub set_input_name : ℕ → String → Graph → Graph
set_input_name index name g = record g { input_names = Map.insert index name g.input_names }

pub input_name : ℕ → Graph → String
input_name index g = Map.get_or index "" g.input_names

pub set_output_name : ℕ → String → Graph → Graph
set_output_name index name g = record g { output_names = Map.insert index name g.output_names }

pub output_name : ℕ → Graph → String
output_name index g = Map.get_or index "" g.output_names

unfoldable pub input : ℕ → Graph → Set (ℕ × ℕ)
input index g = Map.get_or index [] g.inputs

-- A port that has no entry reads as port 0 of node 0: `return {}` is the pair of zeros.
unfoldable pub output : ℕ → Graph → ℕ × ℕ
output index g = Map.get_or index (0, 0) g.outputs

unfoldable pub add_input : ℕ → ℕ × ℕ → Graph → Graph
add_input index node g = record g { inputs = Map.update index [] (Set.emplace node) g.inputs }

unfoldable pub add_output : ℕ → ℕ × ℕ → Graph → Graph
add_output index node g = record g { outputs = Map.insert index node g.outputs }

unfoldable pub del_input : ℕ → ℕ × ℕ → Graph → Graph
del_input index node g = record g { inputs = Map.update index [] (Set.erase node) g.inputs }

-- The overload `delInput(int index)`.
unfoldable pub del_input_port : ℕ → Graph → Graph
del_input_port index g = record g { inputs = Map.erase index g.inputs }

unfoldable pub del_output : ℕ → Graph → Graph
del_output index g = record g { outputs = Map.erase index g.outputs }

unfoldable pub input_edge : ℕ → Graph → Set ℕ
input_edge index g = Map.get_or index [] g.input_edges

unfoldable pub output_edge : ℕ → Graph → Option ℕ
output_edge index g = Map.lookup index g.output_edges

unfoldable pub add_input_edge : ℕ → ℕ → Graph → Graph
add_input_edge index edge_id g = record g {
  input_edges = Map.update index [] (Set.emplace edge_id) g.input_edges;
}

unfoldable pub add_output_edge : ℕ → ℕ → Graph → Graph
add_output_edge index edge_id g = record g {
  output_edges = Map.insert index edge_id g.output_edges;
}

-- Unlike its counterpart on a node, this deletion asserts nothing.
unfoldable pub del_input_edge : ℕ → ℕ → Graph → Graph
del_input_edge index edge_id g = record g {
  input_edges = Map.update index [] (Set.erase edge_id) g.input_edges;
}

-- The overload `delInputEdge(int index)`.
unfoldable pub del_input_edge_port : ℕ → Graph → Graph
del_input_edge_port index g = record g { input_edges = Map.erase index g.input_edges }

unfoldable pub del_output_edge : ℕ → Graph → Graph
del_output_edge index g = record g { output_edges = Map.erase index g.output_edges }
