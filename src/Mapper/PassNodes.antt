-- ===== src/Mapper/PassNodes.antt =====
-- mapper/mapping.cpp, `insertPassDfgNodes`: on each edge that lacks delay, as far as units are left, a
-- node that only passes its value on is put, in a copy of the graph.
pub mod Made
pub mod Split
pub mod Loop
pub mod Whole
mod Examples
use fdra.Prelude.{
  ℕ, zero, suc, ◌+◌, ◌-◌, ◌/◌, ◌%◌, Bool, true, false, Option, none, some, List, [], ◌∷◌, ◌==◌,
  if◌then◌else◌, ltb, length, nat_key,
}
use fdra.Prelude.Int.{pos, ltb_ℤ}
use fdra.Prelude.Options.{◌>>=◌}
use fdra.Prelude.Map.{Map}
use fdra.Graph.Edge.{GraphEdge}
use fdra.Operations.{OpTable}
use fdra.Dfg.Node.{DfgNode, set_operation}
use fdra.Dfg.Store as DfgStore
use fdra.Dfg.Store.{Dfg}
use fdra.Adg.Store.{Adg}
use fdra.Mapper.Mapping.{Mapping}
use fdra.Mapper.Timing.{edge_attr}
use fdra.Mapper.IoScheduler.Task.{sort_by}
use Prim.Native.String as Text
use Prim.Native.String.{String}

-- `std::to_string`, by its digits.
abbrev digit : ℕ → String
digit n = Text.slice "0123456789" n (suc n)

abbrev digits : ℕ → ℕ → String
digits zero n = ""
digits (suc fuel) n =
    let front = digits fuel (n / 10) in
    if ltb n 10 then digit n else Text.◌++◌ front (digit (n % 10))

-- `new DFGNode()` with its identifier and name. The members that have no value at first are 0 here.
abbrev pub new_node : ℕ → DfgNode
new_node id = record {
  graph_node = record {
    id = id;
    name = Text.◌++◌ "pass" (digits (suc id) id);
    type = "";
    bit_width = 0;
    inputs = [];
    outputs = [];
    input_edges = [];
    output_edges = [];
  };
  operation = "";
  op_latency = pos 1;
  commutative = false;
  imm = 0;
  imm_idx = none;
  accumulative = false;
  is_acc_first = false;
  init_val = 0;
  cycles = 0;
  interval = 0;
  repeats = 0;
  io = none;
}

-- The copy of the graph, `maxNodeId` and `maxEdgeId`.
pub record Insertion : Type 0 where
  pub dfg : Dfg
  pub max_node_id : ℕ
  pub max_edge_id : ℕ

-- The edge into the new node, and the edge out of it.
abbrev pub edge_in : GraphEdge → Insertion → GraphEdge
edge_in e s = record {
  id = suc s.max_edge_id;
  src_port_idx = e.src_port_idx;
  dst_port_idx = 0;
  src_id = e.src_id;
  dst_id = suc s.max_node_id;
}

abbrev pub edge_out : GraphEdge → Insertion → GraphEdge
edge_out e s = record {
  id = suc (suc s.max_edge_id);
  src_port_idx = 0;
  dst_port_idx = e.dst_port_idx;
  src_id = suc s.max_node_id;
  dst_id = e.dst_id;
}

-- The loop body. The operation may be none that the table has.
unfoldable pub insert_pass : OpTable → ℕ → Insertion → Option Insertion
insert_pass table id s = do
  e ← DfgStore.edge id s.dfg
  without ← DfgStore.del_edge id s.dfg
  node ← set_operation table "PASS" (new_node (suc s.max_node_id))
  half ← DfgStore.add_edge (edge_in e s) (DfgStore.add_node node without)
  whole ← DfgStore.add_edge (edge_out e s) half
  some (record {
    dfg = whole;
    max_node_id = suc s.max_node_id;
    max_edge_id = suc (suc s.max_edge_id);
  })

-- The loop over the edges; the second argument is `numAvail - n`.
unfoldable pub insert_passes : OpTable → ℕ → List ℕ → Insertion → Option Insertion
insert_passes table left [] s = some s
insert_passes table zero (id ∷ ids) s = some s
insert_passes table (suc left) (id ∷ ids) s = do
  s' ← insert_pass table id s
  insert_passes table left ids s'

-- The key of the last entry, `rbegin()->first`; `none` is an empty map.
abbrev pub last_key {ℓ} : {V : Type ℓ} → Map ℕ V → Option ℕ
last_key [] = none
last_key ((k, v) ∷ m) = elim (last_key m) [ none ↦ some k | some last ↦ some last ]

-- `numAvail`, or 0 where it is negative.
abbrev pub num_avail : Adg → Dfg → ℕ
num_avail adg dfg = (adg.num_gpe_nodes + length dfg.io_nodes) - length dfg.nodes

-- The edges in their order; `_vioDfgEdges` keeps the order of the sort.
abbrev pub sorted_vio : ℕ → Mapping → Mapping
sorted_vio avail m = record m {
  vio_dfg_edges =
      if ltb avail (length m.vio_dfg_edges)
      then sort_by (λ a b. ltb_ℤ (edge_attr b m).vio (edge_attr a m).vio) m.vio_dfg_edges
      else m.vio_dfg_edges;
}

unfoldable pub insert_into : OpTable → ℕ → Dfg → Dfg → Mapping → Option (Bool × Dfg × Mapping)
insert_into table avail dfg new_dfg m = do
  copy ← DfgStore.assign new_dfg dfg
  max_node ← last_key copy.nodes
  max_edge ← last_key copy.edges
  let m' = sorted_vio avail m in
      do
        s ←
            insert_passes table avail m'.vio_dfg_edges
              (record { dfg = copy; max_node_id = max_node; max_edge_id = max_edge })
        some (true, s.dfg, m')

unfoldable pub insert_pass_dfg_nodes :
    OpTable → Adg → Dfg → Dfg → Mapping → Option (Bool × Dfg × Mapping)
insert_pass_dfg_nodes table adg dfg new_dfg m =
    let avail = num_avail adg dfg in
    if avail == 0 then some (false, new_dfg, m) else insert_into table avail dfg new_dfg m
