-- ===== src/Mapper/Timing/RouteLat.antt =====
-- mapper/mapping.cpp, `calEdgeRouteLat`: the registers along the path of each edge.
use fdra.Prelude.{ℕ, ◌+◌, Bool, false, Option, none, some, List, [], ◌∷◌, if◌then◌else◌, nat_key}
use fdra.Prelude.Int.{pos}
use fdra.Prelude.Options.{◌>>=◌}
use fdra.Prelude.Map.{Map}
use fdra.Adg.Node.{out_reged, as_gib}
use fdra.Adg.Store as AdgStore
use fdra.Adg.Store.{Adg}
use fdra.Mapper.Port.{Port}
use fdra.Mapper.Mapping.{Mapping, EdgeLinkAttr, DfgEdgeAttr}
use fdra.Mapper.Mapping.Search.{has_type}
use fdra.Adg.Node.{GibNode}

-- The output port -1 has no register.
abbrev pub reged : Port → GibNode → Bool
reged none gib = false
reged (some port) gib = out_reged port gib

abbrev reg_lat : Port → Option GibNode → Option ℕ
reg_lat port none = none
reg_lat port (some gib) = some (if reged port gib then 1 else 0)

-- `none` is a block that the graph lacks, or of another class than its type says.
unfoldable pub link_lat : Adg → EdgeLinkAttr → Option ℕ
link_lat adg link = do
  n ← AdgStore.node link.adg_node adg
  (if has_type "GIB" n then reg_lat link.dst_port (as_gib n) else some 0)

unfoldable pub links_lat : Adg → List EdgeLinkAttr → Option ℕ
links_lat adg [] = some 0
links_lat adg (link ∷ links) = do
  one ← link_lat adg link
  rest ← links_lat adg links
  some (one + rest)

-- The loop over the edges.
unfoldable pub route_lats : Adg → Map ℕ DfgEdgeAttr → Option (Map ℕ DfgEdgeAttr)
route_lats adg [] = some []
route_lats adg ((id, attr) ∷ attrs) = do
  lat ← links_lat adg attr.edge_links
  rest ← route_lats adg attrs
  some ((id, record attr { lat = pos lat }) ∷ rest)

unfoldable pub cal_edge_route_lat : Adg → Mapping → Option Mapping
cal_edge_route_lat adg m = do
  attrs ← route_lats adg m.dfg_edge_attrs
  some (record m { dfg_edge_attrs = attrs })
