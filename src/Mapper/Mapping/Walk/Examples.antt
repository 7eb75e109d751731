-- ===== src/Mapper/Mapping/Walk/Examples.antt =====
-- An edge routed through the block of the small architecture, alone and beside another edge of the same
-- source, on which the theorems about routing are used.
use fdra.Prelude.{
  true, false, ◌==◌, Bool-cases, inl, inr, Option, none, some, List, [], ◌∷◌, ◌≡◌, refl, nat_key,
  arith,
}
use mathlib.Core.Path.{subst}
use mathlib.Core.Option.{some-injective}
use fdra.Prelude.Outcome.{Outcome, done, fault, out_of_fuel}
use fdra.Dfg.Node.{DfgNode, num_inputs, has_imm}
use fdra.Dfg.Store as DfgStore
use fdra.Dfg.Store.{Dfg}
use fdra.Adg.Node as AdgNode
use fdra.Adg.Node.{operand_inputs, out2ins, is_in_out_connected, any_equal, op_capable}
use fdra.Adg.Store as AdgStore
use fdra.Graph.Node as GraphNode
use fdra.Mapper.Mapping.{
  Mapping, EdgeLinkAttr, AdgNodeAttr, new_adg_node, new_dfg_edge, is_adg_node_in_port_used,
  is_adg_node_out_port_used,
}
use fdra.Mapper.Mapping.Route.{route_dfg_edge_pass, choose, choose_used, check_edges, first_out}
use fdra.Mapper.Mapping.Operands.{avail_dst_ports, op_idxs, select_ports, operand_used}
use fdra.Mapper.Mapping.Search.{
  search, scan_inputs, judge, in_port_idxs, open_inputs, check_passing,
}
use fdra.Mapper.Mapping.Examples.{chain, edge_of, nothing_mapped, one_node}
use fdra.Mapper.Mapping.Walk.{
  walk, reuse_links, record_path, route_dfg_edge_from_dst, route_dfg_edge, links_of,
}
use fdra.Mapper.Mapping.Walk.Judged.{is_router}
use fdra.Mapper.Mapping.Walk.Lead.{AllLead}
use fdra.Mapper.Mapping.Unroute.{AllHeld, IsHeld}
use fdra.Mapper.Mapping.Walk.Held.{IsAllMarked, route_dfg_edge-AllHeld}
use fdra.Mapper.Mapping.Walk.Whole.{Delivers, route_dfg_edge-IsRoute}

abbrev pub sink_node : DfgNode
sink_node = record one_node {
  graph_node = record one_node.graph_node {
    id = 7;
    inputs = (0, (6, 0)) ∷ [];
    outputs = [];
    input_edges = (0, 1) ∷ [];
    output_edges = [];
  };
}

abbrev pub two_dfg : Dfg
two_dfg = record {
  graph = record chain.graph { id = 9 };
  nodes = (6, one_node) ∷ (7, sink_node) ∷ [];
  edges = (1, edge_of 1) ∷ [];
  io_nodes = [];
  topo_nodes = [];
}

abbrev routed_links : Outcome (Option Mapping) → List EdgeLinkAttr
routed_links (done (some m)) = links_of 1 m
routed_links (done none) = []
routed_links fault = []
routed_links out_of_fuel = []

chain_routed :
    routed_links (route_dfg_edge two_dfg chain (edge_of 1) 1 3 nothing_mapped)
    ≡ record { src_port = none; dst_port = some 0; adg_node = 1 }
      ∷ record { src_port = some 0; dst_port = some 0; adg_node = 2 }
      ∷ record { src_port = some 0; dst_port = none; adg_node = 3 }
      ∷ []
unfolding route_dfg_edge route_dfg_edge_from_dst record_path walk search scan_inputs judge
    in_port_idxs open_inputs route_dfg_edge_pass choose choose_used check_edges first_out
    avail_dst_ports op_idxs select_ports operand_used num_inputs has_imm operand_inputs out2ins
    is_in_out_connected any_equal op_capable DfgStore.node AdgStore.node GraphNode.input
    is_adg_node_in_port_used is_adg_node_out_port_used
chain_routed = refl

nothing-AllLead : AllLead chain (λ d. 1) nothing_mapped
nothing-AllLead a attr h = absurd (ground arith)

pub unit_3-ends : (n : AdgNode.Node) → AdgStore.node 3 chain ≡ some n → is_router n ≡ false
unfolding AdgStore.node
unit_3-ends n h = subst (λ x. is_router x ≡ false) (some-injective _ _ h) refl

route_dfg_edge-IsRoute_example :
    Delivers two_dfg chain
      (λ d. 1)
      (edge_of 1)
      3
      nothing_mapped
      unit_3-ends
      nothing-AllLead
      refl
      (route_dfg_edge two_dfg chain (edge_of 1) 1 3 nothing_mapped)
route_dfg_edge-IsRoute_example =
    route_dfg_edge-IsRoute two_dfg chain (λ d. 1) (edge_of 1) 3 nothing_mapped unit_3-ends
      nothing-AllLead refl

abbrev mapping_of : Outcome (Option Mapping) → Mapping
mapping_of (done (some m)) = m
mapping_of (done none) = nothing_mapped
mapping_of fault = nothing_mapped
mapping_of out_of_fuel = nothing_mapped

-- Another edge of the same source is routed as far as the block already.
abbrev shared : Mapping
shared = record nothing_mapped {
  adg_node_attrs =
      (1, record new_adg_node { out_port_used = (some 0, true) ∷ [] })
      ∷ (
        2,
        record new_adg_node {
          dfg_edge_pass = record { src_port = some 0; dst_port = some 0; edge = edge_of 2 } ∷ [];
          in_port_used = (some 0, true) ∷ [];
          out_port_used = (some 0, true) ∷ [];
        },
      )
      ∷ [];
  dfg_edge_attrs =
      (
        2,
        record new_dfg_edge {
          edge_links =
              record { src_port = none; dst_port = some 0; adg_node = 1 }
              ∷ record { src_port = some 0; dst_port = some 0; adg_node = 2 }
              ∷ [];
        },
      )
      ∷ [];
}

abbrev shared_mapping : Mapping
shared_mapping = mapping_of (route_dfg_edge two_dfg chain (edge_of 1) 1 3 shared)

shared_answers : route_dfg_edge two_dfg chain (edge_of 1) 1 3 shared ≡ done (some shared_mapping)
unfolding route_dfg_edge route_dfg_edge_from_dst record_path walk search scan_inputs judge
    in_port_idxs open_inputs route_dfg_edge_pass choose choose_used check_edges first_out
    avail_dst_ports op_idxs select_ports operand_used num_inputs has_imm operand_inputs out2ins
    is_in_out_connected any_equal op_capable DfgStore.node AdgStore.node GraphNode.input
    is_adg_node_in_port_used is_adg_node_out_port_used check_passing
shared_answers = refl

-- Computed: the edge takes over the links of the other one, and goes on to the destination.
shared_links :
    routed_links (done (some shared_mapping))
    ≡ record { src_port = none; dst_port = some 0; adg_node = 1 }
      ∷ record { src_port = some 0; dst_port = some 0; adg_node = 2 }
      ∷ record { src_port = some 0; dst_port = none; adg_node = 3 }
      ∷ []
unfolding route_dfg_edge route_dfg_edge_from_dst record_path walk search scan_inputs judge
    in_port_idxs open_inputs route_dfg_edge_pass choose choose_used check_edges first_out
    avail_dst_ports op_idxs select_ports operand_used num_inputs has_imm operand_inputs out2ins
    is_in_out_connected any_equal op_capable DfgStore.node AdgStore.node GraphNode.input
    is_adg_node_in_port_used is_adg_node_out_port_used check_passing reuse_links
shared_links = refl

-- A node with its ports, read through its lookup.
abbrev HeldAt : Option AdgNodeAttr → Type 0
HeldAt none = Unit {0}
HeldAt (some attr) = IsHeld attr

shared-AllHeld : AllHeld shared.adg_node_attrs
shared-AllHeld a attr h = elim (Bool-cases (1 == a)) [
  | inl at_1 ↦ subst HeldAt (rw at_1 at h) tt
  | inr not_1 ↦ elim (Bool-cases (2 == a)) [
    | inl at_2 ↦ subst HeldAt (rw (not_1, at_2) at h) (refl, refl, tt)
    | inr not_2 ↦ absurd (cc (rw (not_1, not_2) at h))
  ]
]

shared-IsAllMarked : IsAllMarked shared
shared-IsAllMarked x = elim (Bool-cases (2 == x)) [
  | inl own ↦ rw own ((tt, refl), ((refl, refl), tt))
  | inr other ↦ rw other tt
]

route_dfg_edge-AllHeld_example : AllHeld shared_mapping.adg_node_attrs
route_dfg_edge-AllHeld_example =
    route_dfg_edge-AllHeld two_dfg chain (edge_of 1) 1 3 shared shared_mapping shared-AllHeld
      shared-IsAllMarked shared_answers
