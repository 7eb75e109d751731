-- ===== src/Mapper/Mapping/MapNode.antt =====
-- mapper/mapping.cpp, `mapDfgNode`: a node is placed on a unit together with the routes to the nodes
-- that are placed already; if a route is missing, the routes made so far are taken back.
pub mod Leads
pub mod Edges
pub mod Undo
pub mod Whole
mod Examples
use fdra.Prelude.{ℕ, Bool, true, false, Option, none, some, List, [], ◌∷◌, ◌++◌, if◌then◌else◌}
use fdra.Prelude.Outcome.{Outcome, done, ◌>>=◌, or_fault}
use fdra.Graph.Edge.{GraphEdge}
use fdra.Dfg.Node.{DfgNode}
use fdra.Dfg.Store as DfgStore
use fdra.Dfg.Store.{Dfg}
use fdra.Adg.Store.{Adg}
use fdra.Mapper.Mapping.{Mapping, mapped_adg_node, map_dfg_node_no_route}
use fdra.Mapper.Mapping.Unroute.{unroute_dfg_edge}
use fdra.Mapper.Mapping.Unmap.{input_edge_ids, output_edge_ids}
use fdra.Mapper.Mapping.Walk.{route_dfg_edge}

-- The end of an edge that is not the node at hand: of its input edges the source, of its output edges
-- the destination.
abbrev pub far_end : Bool → GraphEdge → ℕ
far_end true e = e.src_id
far_end false e = e.dst_id

-- The route between the unit of the other end and the unit at hand.
abbrev pub route_between : Dfg → Adg → Bool → GraphEdge → ℕ → ℕ → Mapping → Outcome (Option Mapping)
route_between dfg adg true e unit target m = route_dfg_edge dfg adg e unit target m
route_between dfg adg false e unit target m = route_dfg_edge dfg adg e target unit m

-- What a round leaves: the mapping, `succeed` false if there is no route, and whether a route was made.
pub data Attempt : Type 0 where
  untried : Attempt
  failed : Attempt
  routed : Mapping → Attempt

abbrev pub attempt_of : Option Mapping → Attempt
attempt_of none = failed
attempt_of (some m) = routed m

unfoldable pub attempt : Dfg → Adg → Bool → ℕ → GraphEdge → Mapping → Outcome Attempt
attempt dfg adg is_input target e m = do
  n ← or_fault (DfgStore.node (far_end is_input e) dfg)
  (elim (mapped_adg_node n.id m) [
    | none ↦ done untried
    | some unit ↦ do r ← route_between dfg adg is_input e unit target m; done (attempt_of r)
  ])

-- `succeed`, the mapping and `routedEdges`.
pub record Progress : Type 0 where
  pub succeed : Bool
  pub mapping : Mapping
  pub routed_edges : List ℕ

-- The loop over the input edges, or over the output edges.
unfoldable pub route_edges : Dfg → Adg → Bool → ℕ → List ℕ → Mapping → List ℕ → Outcome Progress
route_edges dfg adg is_input target [] m ids =
    done (record { succeed = true; mapping = m; routed_edges = ids })
route_edges dfg adg is_input target (id ∷ rest) m ids = do
  e ← or_fault (DfgStore.edge id dfg)
  a ← attempt dfg adg is_input target e m
  (elim a [
    | failed ↦ done (record { succeed = false; mapping = m; routed_edges = ids })
    | untried ↦ route_edges dfg adg is_input target rest m ids
    | routed m' ↦ route_edges dfg adg is_input target rest m' (ids ++ e.id ∷ [])
  ])

unfoldable pub unroute_each : List ℕ → Mapping → Mapping
unroute_each [] m = m
unroute_each (id ∷ ids) m = unroute_each ids (unroute_dfg_edge id m)

-- After the input edges, the output edges, unless a route is missing already.
unfoldable pub route_outputs : Dfg → Adg → DfgNode → ℕ → Progress → Outcome Progress
route_outputs dfg adg n target p =
    if p.succeed
    then route_edges dfg adg false target (output_edge_ids n.output_edges) p.mapping p.routed_edges
    else done p

-- The end of the function, for both answers.
unfoldable pub conclude : DfgNode → ℕ → Progress → Bool × Mapping
conclude n target p =
    if p.succeed
    then (true, map_dfg_node_no_route n.id target p.mapping)
    else (false, unroute_each p.routed_edges p.mapping)

unfoldable pub map_dfg_node : Dfg → Adg → DfgNode → ℕ → Mapping → Outcome (Bool × Mapping)
map_dfg_node dfg adg n target m = do
  p ← route_edges dfg adg true target (input_edge_ids n.input_edges) m []
  q ← route_outputs dfg adg n target p
  done (conclude n target q)
