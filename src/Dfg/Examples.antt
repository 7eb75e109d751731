-- ===== src/Dfg/Examples.antt =====
-- A data-flow graph of three nodes, an input, an addition and an output, on which the theorems about
-- the graph are used.
use fdra.Prelude.{
  ℕ, zero, suc, false, Option, none, some, [], ◌∷◌, ◌≡◌, ◌≢◌, refl, or_else, nat_key, arith,
  if◌then◌else◌, ◌==◌, inr,
}
use mathlib.Core.Path.{subst}
use fdra.Prelude.Int.{pos}
use fdra.Prelude.Outcome.{done, out_of_fuel}
use fdra.Graph.Edge.{GraphEdge}
use fdra.Dfg.Node.{DfgNode, DfgIoNode}
use fdra.Dfg.Store.{
  Dfg, node, edge, add_edge, add_edge_src, add_edge_dst, del_edge, get_out_nodes, select_io,
}
use fdra.Dfg.Ends.{has_src_edge, has_src_pair, dst_edge, dst_pair}
use fdra.Dfg.Consistent.{IsConsistent}
use fdra.Dfg.Consistent.Keep.{add_edge-IsConsistent}
use fdra.Dfg.Content.{SameContents}
use fdra.Dfg.Consistent.Delete.{del_edge_safe, del_edge-add_edge, SameEnds}
use fdra.Dfg.Topo.{topo_sort_nodes}
use fdra.Dfg.Topo.Fuel.{IsKeyed, topo_sort_terminates}
use fdra.Dfg.Topo.Search.{IsAcyclic, AllBelow}
use fdra.Dfg.Topo.Sorted.{IsTopological, topo_sort_nodes-IsTopological}
use Prim.Native.String.{String}

abbrev io_part : DfgIoNode
io_part = record {
  mem_ref_name = "a";
  mem_offset = 0;
  reduced_mem_offset = 0;
  mem_size = 64;
  pattern = [];
}

abbrev plain_node : ℕ → String → DfgNode
plain_node id op = record {
  graph_node = record {
    id = id;
    name = op;
    type = op;
    bit_width = 32;
    inputs = [];
    outputs = [];
    input_edges = [];
    output_edges = [];
  };
  operation = op;
  op_latency = pos 1;
  commutative = false;
  imm = 0;
  imm_idx = none;
  accumulative = false;
  is_acc_first = false;
  init_val = 0;
  cycles = 1;
  interval = 1;
  repeats = 1;
  io = none;
}

abbrev bare : Dfg
bare = record {
  graph = record {
    id = 9;
    bit_width = 32;
    input_names = [];
    output_names = [];
    inputs = [];
    outputs = [];
    input_edges = [];
    output_edges = [];
  };
  nodes =
      (0, record (plain_node 0 "INPUT") { io = some io_part })
      ∷ (1, plain_node 1 "ADD")
      ∷ (2, record (plain_node 2 "OUTPUT") { io = some io_part })
      ∷ [];
  edges = [];
  io_nodes = 0 ∷ 2 ∷ [];
  topo_nodes = [];
}

abbrev load_edge : GraphEdge
load_edge = record { id = 0; src_port_idx = 0; dst_port_idx = 0; src_id = 0; dst_id = 1 }

abbrev store_edge : GraphEdge
store_edge = record { id = 1; src_port_idx = 0; dst_port_idx = 0; src_id = 1; dst_id = 2 }

abbrev half : Dfg
half = or_else bare (add_edge load_edge bare)

abbrev whole : Dfg
whole = or_else bare (add_edge store_edge half)

half_made : add_edge load_edge bare ≡ some half
unfolding add_edge add_edge_src add_edge_dst
half_made = refl

whole_made : add_edge store_edge half ≡ some whole
unfolding add_edge add_edge_src add_edge_dst
whole_made = refl

bare-IsConsistent : IsConsistent bare
unfolding edge has_src_edge has_src_pair dst_edge dst_pair
bare-IsConsistent = record {
  keyed = λ i e h. ground arith;
  src_edge = λ i e h. ground arith;
  src_pair = λ i e h. ground arith;
  in_edge = λ i e h. ground arith;
  in_pair = λ i e h. ground arith;
  src_edge_only = λ n p i h. absurd (ground arith);
  src_pair_only = λ n p c q h. absurd (ground arith);
  in_edge_only = λ c q i h. absurd (ground arith);
  in_pair_only = λ c q n p h. absurd (ground arith);
}

load_fresh : edge 0 bare ≡ none
unfolding edge
load_fresh = refl

load_free : dst_edge bare 1 0 ≡ none
unfolding dst_edge
load_free = refl

add_edge-IsConsistent_example : IsConsistent half
add_edge-IsConsistent_example =
    add_edge-IsConsistent load_edge bare half bare-IsConsistent load_fresh load_free half_made

load_found : edge 0 half ≡ some load_edge
unfolding edge add_edge add_edge_src add_edge_dst
load_found = refl

del_edge_safe_example :
    (g' : Dfg) × (del_edge 0 half ≡ some g')
    × IsConsistent g'
    × ((i : ℕ) → edge i g' ≡ (if 0 == i then none else edge i half))
del_edge_safe_example =
    del_edge_safe 0 load_edge half
      (add_edge-IsConsistent load_edge bare half bare-IsConsistent load_fresh load_free half_made)
      load_found

del_edge-add_edge_example :
    (g' : Dfg) × (del_edge 0 half ≡ some g')
    × ((n p i c q : ℕ) → SameEnds bare g' n p i c q)
    × SameContents bare g'
del_edge-add_edge_example =
    del_edge-add_edge load_edge bare half bare-IsConsistent load_fresh load_free half_made

whole-IsKeyed : IsKeyed whole
unfolding node add_edge add_edge_src add_edge_dst
whole-IsKeyed zero n h = ground arith
whole-IsKeyed (suc zero) n h = ground arith
whole-IsKeyed (suc (suc zero)) n h = ground arith
whole-IsKeyed (suc (suc (suc id))) n h = absurd (ground arith)

topo_sort_terminates_example : topo_sort_nodes whole ≢ out_of_fuel
topo_sort_terminates_example = topo_sort_terminates whole whole-IsKeyed

outs_found : get_out_nodes whole ≡ some (2 ∷ [])
unfolding get_out_nodes select_io add_edge add_edge_src add_edge_dst
outs_found = refl

-- A node of the graph whose inputs are all from below, read through its lookup.
abbrev InputsBelow : ℕ → Option DfgNode → Type 0
InputsBelow r none = Unit {0}
InputsBelow r (some n) = AllBelow whole (λ id. id) r n.inputs

whole-IsAcyclic : IsAcyclic whole (λ id. id)
unfolding node add_edge add_edge_src add_edge_dst
whole-IsAcyclic zero n h = subst (InputsBelow 0) h tt
whole-IsAcyclic (suc zero) n h = subst (InputsBelow 1) h (inr (omega arith, refl), tt)
whole-IsAcyclic (suc (suc zero)) n h = subst (InputsBelow 2) h (inr (omega arith, refl), tt)
whole-IsAcyclic (suc (suc (suc id))) n h = absurd (ground arith)

topo_sort_nodes-IsTopological_example :
    (g' : Dfg) × (topo_sort_nodes whole ≡ done g')
    × IsTopological whole (λ id. id) whole-IsKeyed whole-IsAcyclic (2 ∷ []) g'
topo_sort_nodes-IsTopological_example =
    topo_sort_nodes-IsTopological whole (λ id. id) whole-IsKeyed whole-IsAcyclic (2 ∷ []) outs_found
