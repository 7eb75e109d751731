-- ===== src/Mapper/Timing/Violation.antt =====
-- mapper/mapping.cpp, `calEdgeLatVio`: the delay that each edge needs, the delay that it is given, and
-- what is missing.
use fdra.Prelude.{ℕ, not, ◌&&◌, Option, none, some, List, [], ◌∷◌, ◌++◌, if◌then◌else◌, nat_key}
use fdra.Prelude.Int.{ℤ, pos, ◌+ℤ◌, ◌-ℤ◌, ltb_ℤ, max_ℤ, min_ℤ}
use fdra.Prelude.Options.{◌>>=◌}
use fdra.Prelude.Map
use fdra.Prelude.Map.{Map}
use fdra.Graph.Edge.{GraphEdge}
use fdra.Dfg.Node.{DfgNode}
use fdra.Dfg.Store as DfgStore
use fdra.Dfg.Store.{Dfg}
use fdra.Adg.Node.{FuNode, as_fu}
use fdra.Adg.Store as AdgStore
use fdra.Adg.Store.{Adg}
use fdra.Mapper.Mapping.{Mapping, FuDelayAttr}
use fdra.Mapper.Timing.{node_attr, edge_attr, update_dfg_node, update_dfg_edge}
use fdra.Mapper.Timing.Delay.{new_fu_delay, get_avail_delay}

abbrev pub update_fu_delay : ℕ → (FuDelayAttr → FuDelayAttr) → Mapping → Mapping
update_fu_delay id f m = record m { fu_delay_attrs = Map.update id new_fu_delay f m.fu_delay_attrs }

-- A use of the delay unit at an input port.
abbrev pub use_delay : ℕ → ℤ → FuDelayAttr → FuDelayAttr
use_delay port delay attr = record attr {
  delay_used = Map.insert port delay attr.delay_used;
  total_delay_used = attr.total_delay_used +ℤ delay;
}

-- `minLat`, from the delay that is left.
abbrev pub lower_min_lat : ℕ → FuNode → DfgNode → Mapping → Mapping
lower_min_lat node_id fu n m =
    let min = max_ℤ ((node_attr node_id m).max_lat -ℤ get_avail_delay fu n m) (pos 0) in
    update_dfg_node node_id (λ attr. record attr { min_lat = min }) m

-- `assignedDelay`, with the delay that is assigned on the way if the port has none.
unfoldable pub assign_delay : ℕ → FuNode → DfgNode → ℕ → ℤ → Mapping → ℤ × Mapping
assign_delay node_id fu n port required m =
    elim (Map.lookup port (Map.get_or fu.id new_fu_delay m.fu_delay_attrs).delay_used) [
      | some delay ↦ (delay, m)
      | none ↦
          let delay = min_ℤ (get_avail_delay fu n m) required in
          (delay, lower_min_lat node_id fu n (update_fu_delay fu.id (use_delay port delay) m))
    ]

-- The mapping, `dfgSumVio` and `dfgMaxVio`.
pub record Tally : Type 0 where
  pub mapping : Mapping
  pub sum_vio : ℤ
  pub max_vio : ℤ

abbrev pub set_vio : ℕ → ℤ → Mapping → Mapping
set_vio id vio m = update_dfg_edge id (λ attr. record attr { vio = vio }) m

abbrev pub set_delay : ℕ → ℤ → Mapping → Mapping
set_delay id delay m = update_dfg_edge id (λ attr. record attr { delay = delay }) m

-- What is missing is noted.
unfoldable pub note_vio : ℕ → ℤ → Tally → Tally
note_vio id vio t =
    let m = set_vio id vio t.mapping in
    record {
      mapping = record m { vio_dfg_edges = m.vio_dfg_edges ++ id ∷ [] };
      sum_vio = t.sum_vio +ℤ vio;
      max_vio = max_ℤ t.max_vio vio;
    }

-- `requiredDelay`
abbrev pub required_delay : ℤ → ℕ → GraphEdge → Mapping → ℤ
required_delay max_lat id e m = max_lat -ℤ (node_attr e.src_id m).lat -ℤ (edge_attr id m).lat

-- The end of the loop body; `none` is the failed assertion.
unfoldable pub compare_delay : ℕ → ℤ → ℤ → Tally → Option Tally
compare_delay id required assigned t =
    if not (ltb_ℤ required assigned) && not (ltb_ℤ assigned (pos 0))
    then some (
        if ltb_ℤ assigned required
        then note_vio id (required -ℤ assigned) t
        else record t { mapping = set_vio id (pos 0) t.mapping })
    else none

unfoldable pub check_edge : Dfg → ℕ → FuNode → DfgNode → ℤ → ℕ → ℕ → Tally → Option Tally
check_edge dfg node_id fu n max_lat port id t = do
  e ← DfgStore.edge id dfg
  let required = required_delay max_lat id e t.mapping in
      let (assigned, m) =
        assign_delay node_id fu n port required (set_delay id required t.mapping) in
      compare_delay id required assigned (record t { mapping = m })

-- The loop over the input edges of a node.
unfoldable pub check_edges : Dfg → ℕ → FuNode → DfgNode → ℤ → Map ℕ ℕ → Tally → Option Tally
check_edges dfg node_id fu n max_lat [] t = some t
check_edges dfg node_id fu n max_lat ((port, id) ∷ edges) t = do
  t' ← check_edge dfg node_id fu n max_lat port id t
  check_edges dfg node_id fu n max_lat edges t'

-- The unit of a node; `none` is a node on no unit.
abbrev pub unit_of_node : Adg → ℕ → Mapping → Option FuNode
unit_of_node adg id m = do u ← (node_attr id m).adg_node; x ← AdgStore.node u adg; as_fu x

-- The loop over the nodes. The delays of a unit have an entry from here on.
unfoldable pub check_nodes : Dfg → Adg → List ℕ → Tally → Option Tally
check_nodes dfg adg [] t = some t
check_nodes dfg adg (id ∷ ids) t = do
  n ← DfgStore.node id dfg
  fu ← unit_of_node adg id t.mapping
  t' ←
      check_edges dfg id fu n (node_attr id t.mapping).max_lat n.input_edges
        (record t { mapping = update_fu_delay fu.id (λ attr. attr) t.mapping })
  check_nodes dfg adg ids t'

unfoldable pub cal_edge_lat_vio : Dfg → Adg → Mapping → Option Mapping
cal_edge_lat_vio dfg adg m = do
  t ←
      check_nodes dfg adg dfg.topo_nodes
        (record { mapping = record m { vio_dfg_edges = [] }; sum_vio = pos 0; max_vio = pos 0 })
  some (record t.mapping { total_violation = t.sum_vio; max_violation = t.max_vio })
