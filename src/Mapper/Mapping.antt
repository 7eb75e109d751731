-- ===== src/Mapper/Mapping.antt =====
-- mapper/mapping.h and mapping.cpp: the state of a mapping, and the placement of nodes. A pointer to
-- a node of either graph is its identifier, the null pointer is `none`, and an edge of the data-flow
-- graph is known by its identifier.
pub mod Placed
pub mod Route
pub mod Pass
pub mod Operands
pub mod Search
pub mod Walk
pub mod Unroute
pub mod Unmap
pub mod MapNode
pub mod Examples
use fdra.Prelude.{
  ℕ, ◌+◌, ◌-◌, Bool, true, false, not, Option, none, some, List, [], ◌∷◌, ◌==◌, if◌then◌else◌,
  length, is_some, nat_key, max,
}
use fdra.Prelude.Int.{ℤ, pos}
use fdra.Prelude.Map
use fdra.Prelude.Map.{Map}
use fdra.Graph.Edge.{GraphEdge}
use fdra.Dfg.Store.{Dfg}
use fdra.Mapper.Port.{Port, port_key}

pub record DfgNodeAttr : Type 0 where
  pub min_lat : ℤ
  pub max_lat : ℤ
  pub lat : ℤ
  pub adg_node : Option ℕ

pub record EdgeLinkAttr : Type 0 where
  pub src_port : Port
  pub dst_port : Port
  pub adg_node : ℕ

pub record DfgEdgeAttr : Type 0 where
  pub lat : ℤ
  pub delay : ℤ
  pub vio : ℤ
  pub edge_links : List EdgeLinkAttr

pub record DfgEdgePassAttr : Type 0 where
  pub src_port : Port
  pub dst_port : Port
  pub edge : GraphEdge

pub record AdgNodeAttr : Type 0 where
  pub dfg_node : Option ℕ
  pub dfg_edge_pass : List DfgEdgePassAttr
  pub in_port_used : Map Port Bool
  pub out_port_used : Map Port Bool

pub record FuDelayAttr : Type 0 where
  pub total_delay_used : ℤ
  pub delay_used : Map ℕ ℤ

pub record Mapping : Type 0 where
  pub total_violation : ℤ
  pub max_violation : ℤ
  pub max_lat : ℤ
  pub max_lat_node_id : ℕ
  pub num_node_mapped : ℕ
  pub dfg_node_attrs : Map ℕ DfgNodeAttr
  pub dfg_edge_attrs : Map ℕ DfgEdgeAttr
  pub adg_node_attrs : Map ℕ AdgNodeAttr
  pub fu_delay_attrs : Map ℕ FuDelayAttr
  pub vio_dfg_edges : List ℕ

-- The values that `operator[]` makes.
abbrev pub new_dfg_node : DfgNodeAttr
new_dfg_node = record { min_lat = pos 0; max_lat = pos 0; lat = pos 0; adg_node = none }

abbrev pub new_dfg_edge : DfgEdgeAttr
new_dfg_edge = record { lat = pos 0; delay = pos 0; vio = pos 0; edge_links = [] }

abbrev pub new_adg_node : AdgNodeAttr
new_adg_node = record { dfg_node = none; dfg_edge_pass = []; in_port_used = []; out_port_used = [] }

unfoldable pub reset : Mapping → Mapping
reset m = record m {
  dfg_node_attrs = [];
  dfg_edge_attrs = [];
  adg_node_attrs = [];
  fu_delay_attrs = [];
  vio_dfg_edges = [];
  num_node_mapped = 0;
}

unfoldable pub is_adg_node_in_port_used : ℕ → Port → Mapping → Bool
is_adg_node_in_port_used id port m = elim (Map.lookup id m.adg_node_attrs) [
  | none ↦ false
  | some attr ↦ Map.get_or port false attr.in_port_used
]

unfoldable pub is_adg_node_out_port_used : ℕ → Port → Mapping → Bool
is_adg_node_out_port_used id port m = elim (Map.lookup id m.adg_node_attrs) [
  | none ↦ false
  | some attr ↦ Map.get_or port false attr.out_port_used
]

-- The two overloads of `mappedNode`.
unfoldable pub mapped_adg_node : ℕ → Mapping → Option ℕ
mapped_adg_node dfg_node m = elim (Map.lookup dfg_node m.dfg_node_attrs) [
  | none ↦ none
  | some attr ↦ attr.adg_node
]

unfoldable pub mapped_dfg_node : ℕ → Mapping → Option ℕ
mapped_dfg_node adg_node m = elim (Map.lookup adg_node m.adg_node_attrs) [
  | none ↦ none
  | some attr ↦ attr.dfg_node
]

-- The two overloads of `isMapped`.
unfoldable pub is_dfg_node_mapped : ℕ → Mapping → Bool
is_dfg_node_mapped dfg_node m = elim (Map.lookup dfg_node m.dfg_node_attrs) [
  | none ↦ false
  | some attr ↦ is_some attr.adg_node
]

unfoldable pub is_adg_node_mapped : ℕ → Mapping → Bool
is_adg_node_mapped adg_node m = elim (Map.lookup adg_node m.adg_node_attrs) [
  | none ↦ false
  | some attr ↦ is_some attr.dfg_node
]

unfoldable pub is_iob_free : ℕ → Mapping → Bool
unfolding is_adg_node_mapped
is_iob_free adg_node m = not (is_adg_node_mapped adg_node m)

-- The function answers true on every path.
unfoldable pub map_dfg_node_no_route : ℕ → ℕ → Mapping → Mapping
map_dfg_node_no_route dfg_node adg_node m = record m {
  dfg_node_attrs =
      Map.update dfg_node new_dfg_node (λ attr. record attr { adg_node = some adg_node })
        m.dfg_node_attrs;
  adg_node_attrs =
      Map.update adg_node new_adg_node (λ attr. record attr { dfg_node = some dfg_node })
        m.adg_node_attrs;
  num_node_mapped = m.num_node_mapped + 1;
}

-- The port flags and the passing edges of the unit are erased with its node. The counter is not 0
-- where this subtracts, see `Placed`.
unfoldable pub unmap_dfg_node_no_unroute : ℕ → Mapping → Mapping
unfolding mapped_adg_node
unmap_dfg_node_no_unroute dfg_node m = elim (mapped_adg_node dfg_node m) [
  | none ↦ m
  | some adg_node ↦ record m {
    adg_node_attrs = Map.erase adg_node m.adg_node_attrs;
    dfg_node_attrs = Map.erase dfg_node m.dfg_node_attrs;
    num_node_mapped = m.num_node_mapped - 1;
  }
]

unfoldable pub is_routed : ℕ → Mapping → Bool
is_routed id m = elim (Map.lookup id m.dfg_edge_attrs) [
  | none ↦ false
  | some attr ↦ elim attr.edge_links [ [] ↦ false | _ ∷ _ ↦ true ]
]

-- `none` is the failed assertion that the edge has attributes.
unfoldable pub routed_edge_links : ℕ → Mapping → Option (List EdgeLinkAttr)
routed_edge_links id m = elim (Map.lookup id m.dfg_edge_attrs) [
  | none ↦ none
  | some attr ↦ some attr.edge_links
]

unfoldable pub success : Dfg → Mapping → Bool
success dfg m = length dfg.nodes == m.num_node_mapped

-- The loop of `getEdgeLen`; the pair is the total and the maximum.
unfoldable pub edge_lens : Map ℕ DfgEdgeAttr → ℕ × ℕ → ℕ × ℕ
edge_lens [] lens = lens
edge_lens ((id, attr) ∷ attrs) (total, max_val) =
    let num = length attr.edge_links in edge_lens attrs (total + num, max max_val num)

unfoldable pub get_edge_len : Mapping → ℕ × ℕ
get_edge_len m = edge_lens m.dfg_edge_attrs (0, 0)

unfoldable pub get_mapped_adg_node_num : Mapping → ℕ
get_mapped_adg_node_num m = length m.adg_node_attrs
