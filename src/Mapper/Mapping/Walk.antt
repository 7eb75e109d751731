-- ===== src/Mapper/Mapping/Walk.antt =====
-- mapper/mapping.cpp, `routeDfgEdgeFromDst` and `routeDfgEdge`: the found path is recorded, link by
-- link, at the edge and at the nodes that it passes through.
pub mod Links
pub mod Trail
pub mod Judged
pub mod Traced
pub mod Lead
pub mod Kept
pub mod Untouched
pub mod Whole
pub mod Held
pub mod Examples
use fdra.Prelude.{
  ℕ, zero, suc, Bool, true, false, not, ◌&&◌, Option, none, some, List, [], ◌∷◌, ◌++◌, ◌==◌,
  if◌then◌else◌, nat_key, pair_key, length,
}
use fdra.Prelude.Map
use fdra.Prelude.Map.{Map}
use fdra.Prelude.Set.{Set}
use fdra.Prelude.Outcome.{Outcome, done, fault, out_of_fuel, ◌>>=◌, or_fault}
use fdra.Graph.Edge.{GraphEdge}
use fdra.Dfg.Node as DfgNode
use fdra.Dfg.Store as DfgStore
use fdra.Dfg.Store.{Dfg}
use fdra.Adg.Store as AdgStore
use fdra.Adg.Store.{Adg}
use fdra.Adg.Node.{as_fu}
use fdra.Mapper.Port.{Port, port_key, port_eq}
use fdra.Mapper.Mapping.{
  Mapping, EdgeLinkAttr, DfgEdgePassAttr, AdgNodeAttr, new_dfg_edge, map_dfg_node_no_route,
}
use fdra.Mapper.Mapping.Route.{push_link, update_node, pass_through}
use fdra.Mapper.Mapping.Operands.{avail_dst_ports}
use fdra.Mapper.Mapping.Search.{VisitNodeInfo, Quest, Search, Found, search, enough, start_search}

-- A shared path passes where it passes already: the ports of the node are not touched.
abbrev pub note_pass : GraphEdge → Port → Port → AdgNodeAttr → AdgNodeAttr
note_pass e src dst attr = record attr {
  dfg_edge_pass = attr.dfg_edge_pass ++ record { src_port = src; dst_port = dst; edge = e } ∷ [];
}

abbrev pub use_in : Port → AdgNodeAttr → AdgNodeAttr
use_in port attr = record attr { in_port_used = Map.insert port true attr.in_port_used }

abbrev pub use_out : Port → AdgNodeAttr → AdgNodeAttr
use_out port attr = record attr { out_port_used = Map.insert port true attr.out_port_used }

-- The loop over the links of the edge from the same source, up to the node where the paths part.
unfoldable pub reuse_links : GraphEdge → ℕ × ℕ → List EdgeLinkAttr → Mapping → Mapping
reuse_links e final [] m = m
reuse_links e final (link ∷ links) m =
    let m' =
      update_node link.adg_node (note_pass e link.src_port link.dst_port) (push_link e.id link m) in
    let rest = reuse_links e final links m' in
    if link.adg_node == final.0 && port_eq link.dst_port (some final.1) then m' else rest

-- What `visitNodes[routeNode]` reads; a key that is not cached reads as zeros.
abbrev pub next_of : ℕ × Port → Map (ℕ × ℕ) VisitNodeInfo → VisitNodeInfo
next_of (id, none) v = record { dst_node_id = 0; dst_in_port_idx = 0; dst_out_port_idx = some 0 }
next_of (id, some port) v =
    Map.get_or (id, port)
      (record { dst_node_id = 0; dst_in_port_idx = 0; dst_out_port_idx = some 0 }) v

-- The loop from the source end to the destination.
unfoldable pub walk :
    ℕ
    → GraphEdge
    → ℕ
    → ℕ × ℕ
    → Map (ℕ × ℕ) VisitNodeInfo
    → Port
    → ℕ × Port
    → Mapping
    → Outcome Mapping
walk zero e dst final v src_port route m = out_of_fuel
walk (suc fuel) e dst final v src_port (id, dst_port) m =
    let link : EdgeLinkAttr = record { src_port = src_port; dst_port = dst_port; adg_node = id } in
    let m' = push_link e.id link m in
    let at_src = id == final.0 && port_eq dst_port (some final.1) in
    let info = next_of (id, dst_port) v in
    let step = if at_src then use_out dst_port else pass_through e src_port dst_port in
    let rest =
      walk fuel e dst final v (some info.dst_in_port_idx) (info.dst_node_id, info.dst_out_port_idx)
        (update_node id step m') in
    if not at_src && id == dst then done (update_node id (use_in src_port) m') else rest

-- The most rounds of that loop, one more than the cached keys and the destination.
abbrev pub walk_enough : Map (ℕ × ℕ) VisitNodeInfo → ℕ
walk_enough v = suc (suc (length v))

-- `_dfgEdgeAttr[id]` makes an entry where there is none.
abbrev pub touch_edge : ℕ → Mapping → Mapping
touch_edge id m = record m {
  dfg_edge_attrs = Map.update id new_dfg_edge (λ attr. attr) m.dfg_edge_attrs;
}

abbrev pub links_of : ℕ → Mapping → List EdgeLinkAttr
links_of id m = (Map.get_or id new_dfg_edge m.dfg_edge_attrs).edge_links

abbrev pub is_empty {ℓ} : {A : Type ℓ} → List A → Bool
is_empty [] = true
is_empty (x ∷ xs) = false

-- The path of the search is recorded, alone or behind a part of the path of another edge. The source
-- would append to the very list that it reads if the edge shared a path with itself: a fault.
unfoldable pub record_path : GraphEdge → ℕ → Search × Found → Mapping → Outcome Mapping
record_path e dst (s, f) m = elim f.same_src_edge [
  | none ↦
      walk (walk_enough s.visit_nodes) e dst f.final_src_node s.visit_nodes none
        (f.final_src_node.0, some f.final_src_node.1) m
  | some x ↦
      let links = links_of x.id m in
      let info = next_of (f.final_src_node.0, some f.final_src_node.1) s.visit_nodes in
      if x.id == e.id && not (is_empty links)
      then fault
      else walk (walk_enough s.visit_nodes) e dst f.final_src_node s.visit_nodes
          (some info.dst_in_port_idx) (info.dst_node_id, info.dst_out_port_idx)
          (reuse_links e f.final_src_node links (touch_edge x.id m))
]

-- An input block that the search chose takes the source node of the edge.
abbrev pub place_source : GraphEdge → Option ℕ → ℕ → Mapping → Mapping
place_source e (some src) id m = m
place_source e none id m = map_dfg_node_no_route e.src_id id m

-- `done none` is the answer false.
unfoldable pub route_dfg_edge_from_dst :
    Dfg → Adg → GraphEdge → Option ℕ → ℕ → Set ℕ → Mapping → Outcome (Option Mapping)
route_dfg_edge_from_dst dfg adg e src dst range m = do
  n ← or_fault (DfgStore.node e.src_id dfg)
  let q : Quest = record {
    edge = e;
    src = src;
    op = n.operation;
    dst = dst;
    dst_port_range = range;
  }
  answer ← search (enough adg) adg m q (start_search dst)
  (elim answer [
    | none ↦ done none
    | some (s, f) ↦ do
      m' ← record_path e dst (s, f) m
      done (some (place_source e src f.final_src_node.0 m'))
  ])

unfoldable pub route_dfg_edge : Dfg → Adg → GraphEdge → ℕ → ℕ → Mapping → Outcome (Option Mapping)
route_dfg_edge dfg adg e src dst m = do
  n ← or_fault (DfgStore.node e.dst_id dfg)
  unit ← or_fault (AdgStore.node dst adg)
  fu ← or_fault (as_fu unit)
  range ← or_fault (avail_dst_ports m n fu e)
  (if is_empty range then done none else route_dfg_edge_from_dst dfg adg e (some src) dst range m)
