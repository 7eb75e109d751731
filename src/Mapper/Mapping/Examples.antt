-- ===== src/Mapper/Mapping/Examples.antt =====
-- A unit that feeds another one through an interconnect block, and a node with a routed edge, on which
-- the theorems about routes are used.
use fdra.Prelude.{
  not, ◌||◌, ℕ, true, false, Option, none, some, [], ◌∷◌, ◌≡◌, ◌≢◌, ◌<◌, ◌↔◌, length, refl, nat_key,
  arith, ◌==◌, Bool-cases, inl, inr,
}
use mathlib.Core.Path.{subst}
use fdra.Prelude.Int.{pos}
use fdra.Prelude.Map.{Map}
use fdra.Prelude.Set
use fdra.Prelude.Set.{Set}
use fdra.Prelude.Outcome.{Outcome, out_of_fuel}
use fdra.Graph.Edge.{GraphEdge}
use fdra.Adg.Node.{AdgNode, FuNode, GibNode, gpe, gib, is_in_out_connected, any_equal}
use fdra.Adg.Store.{Adg}
use fdra.Dfg.Node.{DfgNode}
use fdra.Dfg.Store as DfgStore
use fdra.Dfg.Store.{Dfg}
use fdra.Mapper.Mapping.{
  Mapping, AdgNodeAttr, mapped_adg_node, mapped_dfg_node, is_adg_node_in_port_used,
  is_adg_node_out_port_used,
}
use fdra.Mapper.Mapping.Route.{
  check_edges, choose_used, choose, push_link, update_node, pass_through, route_dfg_edge_pass,
}
use fdra.Mapper.Mapping.Operands.{avail_dst_ports}
use fdra.Mapper.Mapping.Operands.Offers.{Allowed, IsOpenAt, avail_dst_ports-offers}
use fdra.Mapper.Mapping.Pass.Accepted.{
  IsPassed, joins_in, joins_way, route_dfg_edge_pass-Compatible,
}
use fdra.Mapper.Mapping.Placed.{IsPlacement}
use fdra.Mapper.Mapping.Unroute.{AllHeld, IsHeld}
use fdra.Mapper.Mapping.Unmap.{AllUnrouted, AllStored, unmap_dfg_node, unmap_dfg_node_safe}
use fdra.Mapper.Mapping.Search.{Quest, Search, Found, search, enough, start_search}
use fdra.Mapper.Mapping.Search.Fuel.{search_terminates}
use Prim.Native.String.{String}

abbrev pub unit_at : ℕ → String → Map ℕ (ℕ × ℕ) → Map ℕ (Set (ℕ × ℕ)) → AdgNode
unit_at id type ins outs = record {
  graph_node = record {
    id = id;
    name = type;
    type = type;
    bit_width = 32;
    inputs = ins;
    outputs = outs;
    input_edges = [];
    output_edges = [];
  };
  cfg_blk_idx = 0;
  x = 0;
  y = 0;
  config_infos = [];
}

abbrev pub adder : AdgNode → FuNode
adder n = record {
  adg_node = n;
  max_delay = 4;
  num_operands = 1;
  operations = "ADD" ∷ [];
  operand_ports = (0 ∷ []) ∷ [];
  cfg_id_map = [];
}

abbrev pub switch : GibNode
switch = record {
  adg_node = unit_at 2 "GIB" ((0, (1, 0)) ∷ []) ((0, (3, 0) ∷ []) ∷ []);
  track_reged = false;
  out_regs = [];
  outs_to_ins = (0, 0 ∷ []) ∷ [];
  ins_to_outs = (0, 0 ∷ []) ∷ [];
}

abbrev pub chain : Adg
chain = record {
  graph = record {
    id = 0;
    bit_width = 32;
    input_names = [];
    output_names = [];
    inputs = [];
    outputs = [];
    input_edges = [];
    output_edges = [];
  };
  num_gpe_nodes = 2;
  num_iob_nodes = 0;
  cfg_data_width = 32;
  cfg_addr_width = 16;
  cfg_blk_offset = 0;
  cfg_spad_data_width = 64;
  cfg_spad_size = 512;
  iob_ag_nest_levels = 3;
  iob_spad_bank_size = 1024;
  iob_to_spad_banks = [];
  nodes =
      (1, gpe (adder (unit_at 1 "GPE" [] ((0, (2, 0) ∷ []) ∷ []))) 0)
      ∷ (2, gib switch)
      ∷ (3, gpe (adder (unit_at 3 "GPE" ((0, (2, 0)) ∷ []) [])) 0)
      ∷ [];
  edges = [];
}

abbrev pub edge_of : ℕ → GraphEdge
edge_of id = record { id = id; src_port_idx = 0; dst_port_idx = 0; src_id = 6; dst_id = 7 }

abbrev pub nothing_mapped : Mapping
nothing_mapped = record {
  total_violation = pos 0;
  max_violation = pos 0;
  max_lat = pos 0;
  max_lat_node_id = 0;
  num_node_mapped = 0;
  dfg_node_attrs = [];
  dfg_edge_attrs = [];
  adg_node_attrs = [];
  fu_delay_attrs = [];
  vio_dfg_edges = [];
}

abbrev chain_quest : Quest
chain_quest = record {
  edge = edge_of 1;
  src = some 1;
  op = "ADD";
  dst = 3;
  dst_port_range = 0 ∷ [];
}

search_terminates_example :
    search (enough chain) chain nothing_mapped chain_quest (start_search 3) ≢ out_of_fuel
search_terminates_example = search_terminates chain nothing_mapped chain_quest

-- Node 6 on unit 1, and its edge 1 routed through the block.
abbrev one_routed : Mapping
one_routed = record nothing_mapped {
  num_node_mapped = 1;
  dfg_node_attrs =
      (6, record { min_lat = pos 0; max_lat = pos 0; lat = pos 0; adg_node = some 1 }) ∷ [];
  adg_node_attrs =
      (1, record { dfg_node = some 6; dfg_edge_pass = []; in_port_used = []; out_port_used = [] })
      ∷ (
        2,
        record {
          dfg_node = none;
          dfg_edge_pass = record { src_port = some 0; dst_port = some 0; edge = edge_of 1 } ∷ [];
          in_port_used = (some 0, true) ∷ [];
          out_port_used = (some 0, true) ∷ [];
        },
      )
      ∷ [];
  dfg_edge_attrs =
      (
        1,
        record {
          lat = pos 0;
          delay = pos 0;
          vio = pos 0;
          edge_links = record { src_port = some 0; dst_port = some 0; adg_node = 2 } ∷ [];
        },
      )
      ∷ [];
}

one_routed-IsPlacement : IsPlacement one_routed
unfolding mapped_adg_node mapped_dfg_node
one_routed-IsPlacement = record {
  forth = λ d a h. ground arith;
  back = λ d a h. ground arith;
  counted = refl;
  sorted = (omega arith, tt);
}

abbrev HeldAt : Option AdgNodeAttr → Type 0
HeldAt none = Unit {0}
HeldAt (some attr) = IsHeld attr

one_routed-AllHeld : AllHeld one_routed.adg_node_attrs
one_routed-AllHeld a attr h = elim (Bool-cases (1 == a)) [
  | inl at_1 ↦ subst HeldAt (rw at_1 at h) tt
  | inr not_1 ↦ elim (Bool-cases (2 == a)) [
    | inl at_2 ↦ subst HeldAt (rw (not_1, at_2) at h) (refl, refl, tt)
    | inr not_2 ↦ absurd (ground arith)
  ]
]

abbrev pub one_node : DfgNode
one_node = record {
  graph_node = record {
    id = 6;
    name = "add";
    type = "ADD";
    bit_width = 32;
    inputs = [];
    outputs = (0, (7, 0) ∷ []) ∷ [];
    input_edges = [];
    output_edges = (0, 1 ∷ []) ∷ [];
  };
  operation = "ADD";
  op_latency = pos 1;
  commutative = true;
  imm = 0;
  imm_idx = none;
  accumulative = false;
  is_acc_first = false;
  init_val = 0;
  cycles = 1;
  interval = 1;
  repeats = 1;
  io = none;
}

abbrev one_dfg : Dfg
one_dfg = record {
  graph = record chain.graph { id = 9 };
  nodes = (6, one_node) ∷ [];
  edges = (1, edge_of 1) ∷ [];
  io_nodes = [];
  topo_nodes = [];
}

outs_stored : AllStored one_dfg (1 ∷ [])
unfolding DfgStore.edge
outs_stored = ((edge_of 1, refl, refl), tt)

unmap_dfg_node_safe_example :
    (m' : Mapping) × (unmap_dfg_node one_dfg one_node one_routed ≡ some m')
    × IsPlacement m'
    × AllHeld m'.adg_node_attrs
    × AllUnrouted [] m'
    × AllUnrouted (1 ∷ []) m'
    × (mapped_adg_node 6 m' ≡ none)
unmap_dfg_node_safe_example =
    unmap_dfg_node_safe one_dfg one_node one_routed tt outs_stored one_routed-IsPlacement
      one_routed-AllHeld

abbrev chain_result : Outcome (Option (Search × Found))
chain_result = search (enough chain) chain nothing_mapped chain_quest (start_search 3)

abbrev block_attr : AdgNodeAttr
block_attr = record {
  dfg_node = none;
  dfg_edge_pass = record { src_port = some 0; dst_port = some 0; edge = edge_of 1 } ∷ [];
  in_port_used = (some 0, true) ∷ [];
  out_port_used = (some 0, true) ∷ [];
}

-- A second edge from the same source is accepted beside the first.
abbrev two_routed : Mapping
two_routed =
    update_node 2 (pass_through (edge_of 2) (some 0) (some 0))
      (push_link 2 (record { src_port = some 0; dst_port = some 0; adg_node = 2 }) one_routed)

accepted :
    route_dfg_edge_pass (edge_of 2) 2 switch (some 0) (some 0) false one_routed ≡ some two_routed
unfolding route_dfg_edge_pass choose check_edges choose_used is_in_out_connected any_equal
    is_adg_node_in_port_used is_adg_node_out_port_used
accepted = refl

route_dfg_edge_pass-Compatible_example :
    (is_in_out_connected 0 0 switch ≡ true)
    × ((not (is_adg_node_in_port_used 2 (some 0) one_routed)
          || joins_in (edge_of 2) (some 0) block_attr.dfg_edge_pass)
        ≡ true)
    × ((not (is_adg_node_out_port_used 2 (some 0) one_routed)
          || joins_way (edge_of 2) (some 0) (some 0) block_attr.dfg_edge_pass)
        ≡ true)
    × IsPassed (edge_of 2) 2 0 0 false block_attr one_routed two_routed
route_dfg_edge_pass-Compatible_example =
    route_dfg_edge_pass-Compatible (edge_of 2) 2 switch 0 0 false one_routed two_routed block_attr
      refl (tt, tt) (refl, refl, tt) accepted

abbrev ordered_node : DfgNode
ordered_node = record one_node { commutative = false }

abbrev last_unit : FuNode
last_unit = adder (unit_at 3 "GPE" ((0, (2, 0)) ∷ []) [])

has_operand :
    (ope : ℕ) → Allowed ordered_node (edge_of 1) ope → ope < length last_unit.operand_ports
has_operand ope own = omega (arith, own)

avail_dst_ports-offers_example :
    (ports : Set ℕ) × (avail_dst_ports nothing_mapped ordered_node last_unit (edge_of 1)
      ≡ some ports)
    × ((p : ℕ)
        → (Set.count p ports ≡ true) ↔ (
            (ope : ℕ) × Allowed ordered_node (edge_of 1) ope
            × IsOpenAt nothing_mapped last_unit p ope))
avail_dst_ports-offers_example =
    avail_dst_ports-offers nothing_mapped ordered_node last_unit (edge_of 1) has_operand
