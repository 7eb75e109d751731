-- ===== src/Mapper/Timing.antt =====
-- mapper/mapping.cpp, the schedule of the latencies: what it reads and writes of the mapping. Where
-- `operator[]` reads a node or an edge that has no attributes, it makes an entry of zeros; the entry
-- is left out here, since it reads as the same.
pub mod RouteLat
pub mod Bound
pub mod Latest
pub mod Longest
pub mod Delay
pub mod Violation
pub mod Frame
pub mod Vio
pub mod Totals
pub mod Met
pub mod Whole
pub mod Left
pub mod Within
mod Examples
use fdra.Prelude.{ℕ, nat_key, List}
use fdra.Prelude.Int.{ℤ}
use fdra.Prelude.Map
use fdra.Prelude.Map.{Map}
use fdra.Mapper.Mapping.{Mapping, DfgNodeAttr, DfgEdgeAttr, new_dfg_node, new_dfg_edge}

abbrev pub node_attr : ℕ → Mapping → DfgNodeAttr
node_attr id m = Map.get_or id new_dfg_node m.dfg_node_attrs

abbrev pub edge_attr : ℕ → Mapping → DfgEdgeAttr
edge_attr id m = Map.get_or id new_dfg_edge m.dfg_edge_attrs

abbrev pub update_dfg_node : ℕ → (DfgNodeAttr → DfgNodeAttr) → Mapping → Mapping
update_dfg_node id f m = record m { dfg_node_attrs = Map.update id new_dfg_node f m.dfg_node_attrs }

abbrev pub update_dfg_edge : ℕ → (DfgEdgeAttr → DfgEdgeAttr) → Mapping → Mapping
update_dfg_edge id f m = record m { dfg_edge_attrs = Map.update id new_dfg_edge f m.dfg_edge_attrs }
