-- ===== src/Mapper/Mapping/MapNode/Examples.antt =====
-- A node mapped next to one that is placed, on which the theorem about mapping a node is used.
use fdra.Prelude.{
  ℕ, Bool, true, false, List, Option, none, some, [], ◌∷◌, ◌≡◌, refl, sym, ap, ◌∙◌, nat_key, arith,
  ◌==◌, if◌then◌else◌, Bool-cases, inl, inr,
}
use mathlib.Core.Path.{subst}
use mathlib.Core.Option.{some-injective}
use fdra.Prelude.Int.{pos}
use fdra.Prelude.Set
use fdra.Prelude.Outcome.{Outcome, done, fault, out_of_fuel}
use fdra.Graph.Node as GraphNode
use fdra.Dfg.Node.{num_inputs, has_imm}
use fdra.Dfg.Store as DfgStore
use fdra.Adg.Node.{operand_inputs, out2ins, is_in_out_connected, any_equal, op_capable}
use fdra.Adg.Store as AdgStore
use fdra.Mapper.Mapping.{
  Mapping, AdgNodeAttr, EdgeLinkAttr, mapped_adg_node, mapped_dfg_node, map_dfg_node_no_route,
  is_adg_node_in_port_used, is_adg_node_out_port_used,
}
use fdra.Mapper.Mapping.Placed.{IsPlacement}
use fdra.Mapper.Mapping.Examples.{chain, edge_of, nothing_mapped, one_node}
use fdra.Mapper.Mapping.Walk.{walk, record_path, route_dfg_edge_from_dst, route_dfg_edge, links_of}
use fdra.Mapper.Mapping.Route.{route_dfg_edge_pass, choose, choose_used, check_edges, first_out}
use fdra.Mapper.Mapping.Operands.{avail_dst_ports, op_idxs, select_ports, operand_used}
use fdra.Mapper.Mapping.Search.{search, scan_inputs, judge, in_port_idxs, open_inputs}
use fdra.Mapper.Mapping.Walk.Judged.{is_router}
use fdra.Mapper.Mapping.Walk.Lead.{AllLeadOut, AllLead}
use fdra.Mapper.Mapping.Walk.Examples.{sink_node, two_dfg, unit_3-ends}
use fdra.Mapper.Mapping.MapNode.{map_dfg_node, route_edges, route_outputs, attempt, conclude}
use fdra.Mapper.Mapping.MapNode.Edges.{IsEnd, AllKeyed, AllReady}
use fdra.Mapper.Mapping.MapNode.Whole.{Maps, map_dfg_node_atomic}

-- Node 6 on unit 1, and no edge routed.
abbrev one_placed : Mapping
one_placed = record nothing_mapped {
  num_node_mapped = 1;
  dfg_node_attrs =
      (6, record { min_lat = pos 0; max_lat = pos 0; lat = pos 0; adg_node = some 1 }) ∷ [];
  adg_node_attrs =
      (1, record { dfg_node = some 6; dfg_edge_pass = []; in_port_used = []; out_port_used = [] })
      ∷ [];
}

abbrev units : ℕ → ℕ
units d = if d == 6 then 1 else 3

one_placed-IsPlacement : IsPlacement one_placed
unfolding mapped_adg_node mapped_dfg_node
one_placed-IsPlacement = record {
  forth = λ d a h. ground arith;
  back = λ d a h. ground arith;
  counted = refl;
  sorted = (omega arith, tt);
}

abbrev LeadsAt : ℕ → Option AdgNodeAttr → Type 0
LeadsAt a none = Unit {0}
LeadsAt a (some attr) = AllLeadOut chain units (λ id. links_of id one_placed) a attr.dfg_edge_pass

one_placed-AllLead : AllLead chain units one_placed
one_placed-AllLead a attr h = elim (Bool-cases (1 == a)) [
  | inl at_1 ↦ subst (LeadsAt a) (rw at_1 at h) tt
  | inr not_1 ↦ absurd (ground arith)
]

unit_1-IsEnd : IsEnd chain 1
unfolding AdgStore.node
unit_1-IsEnd n h = subst (λ x. is_router x ≡ false) (some-injective _ _ h) refl

two_dfg-AllKeyed : AllKeyed two_dfg
unfolding DfgStore.node
two_dfg-AllKeyed i n h = elim (Bool-cases (6 == i)) [
  | inl is_6 ↦
      let e : one_node ≡ n = some-injective _ _ (rw is_6 at h) in
      let at_6 : 6 ≡ i = ground arith in sym (ap (λ x. x.id) e) ∙ at_6
  | inr not_6 ↦ elim (Bool-cases (7 == i)) [
    | inl is_7 ↦
        let e : sink_node ≡ n = some-injective _ _ (rw (not_6, is_7) at h) in
        let at_7 : 7 ≡ i = ground arith in sym (ap (λ x. x.id) e) ∙ at_7
    | inr not_7 ↦ absurd (ground arith)
  ]
]

known_units : (d u : ℕ) → mapped_adg_node d one_placed ≡ some u → (units d ≡ u) × IsEnd chain u
unfolding mapped_adg_node
known_units d u h =
    let on_1 : 1 ≡ u = ground arith in (ground arith, subst (IsEnd chain) on_1 unit_1-IsEnd)

ins_ready :
    AllReady two_dfg chain units 3 one_placed two_dfg-AllKeyed known_units unit_3-ends true (1 ∷ [])
unfolding DfgStore.edge
ins_ready = ((edge_of 1, refl, refl, λ e. absurd (cc e), refl), refl, tt)

no_outs : (id : ℕ) → Set.count id [] ≡ true → Set.count id (1 ∷ []) ≡ false
no_outs id there = absurd (cc there)

unplaced_7 : mapped_adg_node 7 one_placed ≡ none
unfolding mapped_adg_node
unplaced_7 = refl

free_3 : mapped_dfg_node 3 one_placed ≡ none
unfolding mapped_dfg_node
free_3 = refl

map_dfg_node_atomic_example :
    Maps two_dfg chain units sink_node 3 one_placed two_dfg-AllKeyed known_units unit_3-ends
      ins_ready tt no_outs one_placed-AllLead one_placed-IsPlacement unplaced_7 free_3
      (map_dfg_node two_dfg chain sink_node 3 one_placed)
map_dfg_node_atomic_example =
    map_dfg_node_atomic two_dfg chain units sink_node 3 one_placed two_dfg-AllKeyed known_units
      unit_3-ends ins_ready tt no_outs one_placed-AllLead one_placed-IsPlacement unplaced_7 free_3

abbrev answer : Outcome (Bool × Mapping) → Option (Bool × Option ℕ × List EdgeLinkAttr)
answer (done (ok, m)) = some (ok, mapped_adg_node 7 m, links_of 1 m)
answer fault = none
answer out_of_fuel = none

-- Computed: the node is placed, and the edge runs through the block.
sink_mapped :
    answer (map_dfg_node two_dfg chain sink_node 3 one_placed)
    ≡ some (
      true,
      some 3,
      record { src_port = none; dst_port = some 0; adg_node = 1 }
          ∷ record { src_port = some 0; dst_port = some 0; adg_node = 2 }
          ∷ record { src_port = some 0; dst_port = none; adg_node = 3 }
          ∷ [],
    )
unfolding map_dfg_node route_edges route_outputs attempt conclude map_dfg_node_no_route
    route_dfg_edge route_dfg_edge_from_dst record_path walk search scan_inputs judge in_port_idxs
    open_inputs route_dfg_edge_pass choose choose_used check_edges first_out avail_dst_ports op_idxs
    select_ports operand_used num_inputs has_imm operand_inputs out2ins is_in_out_connected
    any_equal op_capable DfgStore.node DfgStore.edge AdgStore.node GraphNode.input
    is_adg_node_in_port_used is_adg_node_out_port_used mapped_adg_node
sink_mapped = refl
