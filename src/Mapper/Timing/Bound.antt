-- ===== src/Mapper/Timing/Bound.antt =====
-- mapper/mapping.cpp, `latencyBound`: the lower bounds of the latencies in topological order.
use fdra.Prelude.{ℕ, Option, none, some, List, [], ◌∷◌, if◌then◌else◌, nat_key}
use fdra.Prelude.Int.{ℤ, pos, ◌+ℤ◌, max_ℤ, ltb_ℤ}
use fdra.Prelude.Options.{◌>>=◌}
use fdra.Prelude.Map.{Map}
use fdra.Graph.Edge.{GraphEdge}
use fdra.Dfg.Store as DfgStore
use fdra.Dfg.Store.{Dfg}
use fdra.Mapper.Mapping.{Mapping}
use fdra.Mapper.Timing.{node_attr, edge_attr, update_dfg_node}

-- `inPortLat`, when the value of the edge is at the input port.
abbrev pub arrival : Mapping → ℕ → GraphEdge → ℤ
arrival m id e = (node_attr e.src_id m).lat +ℤ (edge_attr id m).lat

-- The loop over the input edges, on `maxLat`. `none` is an edge that the graph lacks.
unfoldable pub max_in : Dfg → Mapping → Map ℕ ℕ → ℤ → Option ℤ
max_in dfg m [] acc = some acc
max_in dfg m ((port, id) ∷ edges) acc = do
  e ← DfgStore.edge id dfg
  max_in dfg m edges (max_ℤ acc (arrival m id e))

-- `_dfgNodeAttr`, `maxLatDfg` and `maxLatNodeId`, which has no value at first.
pub record Bound : Type 0 where
  pub mapping : Mapping
  pub max_lat_dfg : ℤ
  pub max_lat_node : Option ℕ

abbrev pub set_lat : ℕ → ℤ → Mapping → Mapping
set_lat id lat m = update_dfg_node id (λ attr. record attr { lat = lat }) m

-- The end of the loop body; `lat >= maxLatDfg` is that it is not less.
abbrev pub bound_node : ℕ → ℤ → Bound → Bound
bound_node id lat b =
    let least = ltb_ℤ lat b.max_lat_dfg in
    record {
      mapping = set_lat id lat b.mapping;
      max_lat_dfg = if least then b.max_lat_dfg else lat;
      max_lat_node = if least then b.max_lat_node else some id;
    }

-- The loop over the nodes in their order.
unfoldable pub bound_nodes : Dfg → List ℕ → Bound → Option Bound
bound_nodes dfg [] b = some b
bound_nodes dfg (id ∷ ids) b = do
  n ← DfgStore.node id dfg
  max_lat ← max_in dfg b.mapping n.input_edges (pos 0)
  bound_nodes dfg ids (bound_node id (max_lat +ℤ n.op_latency) b)

-- Without a node of the greatest latency the code would read a variable that has no value: `none`.
unfoldable pub latency_bound : Dfg → Mapping → Option Mapping
latency_bound dfg m = do
  b ←
      bound_nodes dfg dfg.topo_nodes
        (record { mapping = m; max_lat_dfg = pos 0; max_lat_node = none })
  id ← b.max_lat_node
  some (record b.mapping { max_lat = b.max_lat_dfg; max_lat_node_id = id })
