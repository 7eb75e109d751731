-- ===== src/Mapper/Examples.antt =====
-- A mapping with one placed node and one edge, on which the theorems about mappings are used.
use fdra.Prelude.{
  or_else, ℕ, true, false, none, some, [], ◌∷◌, ◌≡◌, ◌≢◌, refl, nat_key, Option, Bool-cases, inl,
  inr, ◌==◌, arith,
}
use mathlib.Core.Path.{subst}
use fdra.Prelude.Int.{pos}
use fdra.Prelude.Map
use fdra.Graph.Edge.{GraphEdge}
use fdra.Mapper.Mapping.{
  Mapping, AdgNodeAttr, reset, map_dfg_node_no_route, unmap_dfg_node_no_unroute, is_routed,
  mapped_adg_node, mapped_dfg_node, routed_edge_links,
}
use fdra.Mapper.Mapping.Placed.{
  IsPlacement, reset-IsPlacement, map_dfg_node_no_route-IsPlacement,
  unmap_dfg_node_no_unroute-IsPlacement, IsUndone, unmap-map,
}
use fdra.Mapper.Mapping.Unroute.{unroute_dfg_edge, IsHeld, AllHeld}
use fdra.Mapper.Mapping.Unroute.Whole.{IsFreed, unroute_dfg_edge-AllHeld}

abbrev used_before : Mapping
used_before = record {
  total_violation = pos 0;
  max_violation = pos 0;
  max_lat = pos 0;
  max_lat_node_id = 0;
  num_node_mapped = 3;
  dfg_node_attrs = [];
  dfg_edge_attrs = [];
  adg_node_attrs = [];
  fu_delay_attrs = [];
  vio_dfg_edges = [];
}

abbrev empty_mapping : Mapping
empty_mapping = record used_before { num_node_mapped = 0 }

empty-IsPlacement : IsPlacement empty_mapping
unfolding reset
empty-IsPlacement = reset-IsPlacement used_before

abbrev placed_one : Mapping
placed_one = map_dfg_node_no_route 5 2 empty_mapping

unplaced : mapped_adg_node 5 empty_mapping ≡ none
unfolding mapped_adg_node
unplaced = refl

free_unit : mapped_dfg_node 2 empty_mapping ≡ none
unfolding mapped_dfg_node
free_unit = refl

map_dfg_node_no_route-IsPlacement_example : IsPlacement placed_one
map_dfg_node_no_route-IsPlacement_example =
    map_dfg_node_no_route-IsPlacement 5 2 empty_mapping empty-IsPlacement unplaced free_unit

unmap_dfg_node_no_unroute-IsPlacement_example : IsPlacement (unmap_dfg_node_no_unroute 5 placed_one)
unmap_dfg_node_no_unroute-IsPlacement_example =
    unmap_dfg_node_no_unroute-IsPlacement 5 placed_one
      (map_dfg_node_no_route-IsPlacement 5 2 empty_mapping empty-IsPlacement unplaced free_unit)

unmap-map_example : IsUndone 5 2 empty_mapping (unmap_dfg_node_no_unroute 5 placed_one)
unmap-map_example = unmap-map 5 2 empty_mapping unplaced free_unit

abbrev passing_edge : ℕ → GraphEdge
passing_edge id = record { id = id; src_port_idx = 0; dst_port_idx = 0; src_id = 0; dst_id = id }

-- Edges 1 and 2 fan out in block 4, from input port 0.
abbrev routed_two : Mapping
routed_two = record empty_mapping {
  adg_node_attrs =
      (
        4,
        record {
          dfg_node = none;
          dfg_edge_pass =
              record { src_port = some 0; dst_port = some 1; edge = passing_edge 1 }
              ∷ record { src_port = some 0; dst_port = some 2; edge = passing_edge 2 }
              ∷ [];
          in_port_used = (some 0, true) ∷ [];
          out_port_used = (some 1, true) ∷ (some 2, true) ∷ [];
        },
      )
      ∷ [];
  dfg_edge_attrs =
      (
        1,
        record {
          lat = pos 0;
          delay = pos 0;
          vio = pos 0;
          edge_links = record { src_port = some 0; dst_port = some 1; adg_node = 4 } ∷ [];
        },
      )
      ∷ [];
}

abbrev HeldAt : Option AdgNodeAttr → Type 0
HeldAt none = Unit {0}
HeldAt (some attr) = IsHeld attr

routed_two-AllHeld : AllHeld routed_two.adg_node_attrs
routed_two-AllHeld a attr h = elim (Bool-cases (4 == a)) [
  | inl same ↦ subst HeldAt (rw same at h) (refl, refl, (refl, refl, tt))
  | inr other ↦ absurd (ground arith)
]

unroute_dfg_edge-AllHeld_example :
    AllHeld (unroute_dfg_edge 1 routed_two).adg_node_attrs
    × (is_routed 1 (unroute_dfg_edge 1 routed_two) ≡ false)
    × ((other : ℕ)
        → other ≢ 1
        → Map.lookup other (unroute_dfg_edge 1 routed_two).dfg_edge_attrs
          ≡ Map.lookup other routed_two.dfg_edge_attrs)
    × ((a : ℕ)
        → IsFreed 1
            (or_else [] (routed_edge_links 1 routed_two))
            a
            routed_two.adg_node_attrs
            (unroute_dfg_edge 1 routed_two).adg_node_attrs)
unroute_dfg_edge-AllHeld_example = unroute_dfg_edge-AllHeld 1 routed_two routed_two-AllHeld
