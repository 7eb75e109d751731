-- ===== src/Mapper/Mapping/Route.antt =====
-- mapper/mapping.cpp, `routeDfgEdgePass`: whether an edge can pass through an interconnect block
-- beside the edges that pass through it already. `none` is the answer false, and nothing is changed.
use fdra.Prelude.{
  ℕ, Bool, true, false, not, ◌&&◌, ◌||◌, Option, none, some, List, [], ◌∷◌, ◌++◌, ◌==◌,
  if◌then◌else◌, nat_key,
}
use fdra.Prelude.Map
use fdra.Prelude.Map.{Map}
use fdra.Prelude.Set.{Set}
use fdra.Graph.Edge.{GraphEdge}
use fdra.Adg.Node.{GibNode, in2outs, out2ins, is_in_out_connected}
use fdra.Mapper.Port.{Port, port_key, port_eq}
use fdra.Mapper.Mapping.{
  Mapping, EdgeLinkAttr, DfgEdgePassAttr, AdgNodeAttr, new_dfg_edge, new_adg_node,
  is_adg_node_in_port_used, is_adg_node_out_port_used,
}

-- `routeSrcPort`, `routeDstPort` and `hasSameSrcEdge`.
pub record Choice : Type 0 where
  pub route_src : Port
  pub route_dst : Port
  pub has_same : Bool

-- Two edges carry the same value: they leave the same port of the same node.
abbrev pub same_source : GraphEdge → GraphEdge → Bool
same_source a b = a.src_id == b.src_id && a.src_port_idx == b.src_port_idx

abbrev pub shares : Port → Port → DfgEdgePassAttr → Bool
shares src dst x = port_eq x.src_port src || port_eq x.dst_port dst

-- The loop over the passing edges; `none` is a conflict.
unfoldable pub check_edges : GraphEdge → Port → Port → List DfgEdgePassAttr → Choice → Option Choice
check_edges e src dst [] c = some c
check_edges e src dst (x ∷ xs) c =
    if shares src dst x && not (same_source x.edge e)
    then none
    else check_edges e src dst xs (
        if shares src dst x
        then record { route_src = x.src_port; route_dst = x.dst_port; has_same = true }
        else c)

-- The first port of a list that is not used.
unfoldable pub first_free : (Port → Bool) → List ℕ → Option ℕ
first_free used [] = none
first_free used (p ∷ ps) = if used (some p) then first_free used ps else some p

-- The loop over the outputs: the first free output with a free input.
unfoldable pub first_free_out :
    (Port → Bool) → (Port → Bool) → GibNode → Map ℕ (Set (ℕ × ℕ)) → Option ℕ
first_free_out in_used out_used gib [] = none
first_free_out in_used out_used gib ((out_port, _) ∷ outs) =
    if out_used (some out_port)
    then first_free_out in_used out_used gib outs
    else elim (first_free in_used (out2ins out_port gib)) [
      | some _ ↦ some out_port
      | none ↦ first_free_out in_used out_used gib outs
    ]

-- The first output that an input leads to.
unfoldable pub first_out : GibNode → Map ℕ (Set (ℕ × ℕ)) → Option ℕ
first_out gib [] = none
first_out gib ((out_port, _) ∷ outs) = elim (out2ins out_port gib) [
  | [] ↦ first_out gib outs
  | _ ∷ _ ↦ some out_port
]

-- The choice of the ports in a block that is in use. Where the source compares a port with `==`
-- in place of an assignment (lines 434, 454 and 478), the port stays as it was.
unfoldable pub choose_used :
    (Port → Bool) → (Port → Bool) → GibNode → Port → Port → Choice → Option Choice
choose_used in_used out_used gib (some s) (some d) c =
    let src = some s in
    let dst = some d in
    if not (is_in_out_connected s d gib)
    then none
    else if out_used dst
        && (not c.has_same || not (port_eq c.route_src src) || not (port_eq c.route_dst dst))
    then none
    else if in_used src && (not c.has_same || not (port_eq c.route_src src))
    then none
    else some (record c { route_src = src; route_dst = dst })
choose_used in_used out_used gib (some s) none c =
    let src = some s in
    if in_used src && (not c.has_same || not (port_eq c.route_src src))
    then none
    else if in_used src
    then some c
    else elim (first_free out_used (in2outs s gib)) [
      | none ↦ none
      | some _ ↦ some (record c { route_src = src })
    ]
choose_used in_used out_used gib none (some d) c =
    let dst = some d in
    if out_used dst && (not c.has_same || not (port_eq c.route_dst dst))
    then none
    else if out_used dst
    then some c
    else elim (first_free in_used (out2ins d gib)) [
      | none ↦ none
      | some _ ↦ some (record c { route_dst = dst })
    ]
choose_used in_used out_used gib none none c =
    if c.has_same then some c else elim (first_free_out in_used out_used gib gib.outputs) [
      | none ↦ none
      | some out_port ↦ some (record c { route_dst = some out_port })
    ]

-- The choice in any block.
unfoldable pub choose : GraphEdge → ℕ → GibNode → Port → Port → Mapping → Option Choice
choose e id gib src dst m =
    let start : Choice = record { route_src = src; route_dst = dst; has_same = false } in
    elim (Map.lookup id m.adg_node_attrs) [
      | some attr ↦ elim (check_edges e src dst attr.dfg_edge_pass start) [
        | none ↦ none
        | some c ↦
            choose_used (λ p. is_adg_node_in_port_used id p m)
              (λ p. is_adg_node_out_port_used id p m) gib src dst c
      ]
      | none ↦ elim (first_out gib gib.outputs) [
        | none ↦ none
        | some out_port ↦ some (record start { route_dst = some out_port })
      ]
    ]

-- Where an edge passes: both ports are used and the edge is listed at the block.
abbrev pub pass_through : GraphEdge → Port → Port → AdgNodeAttr → AdgNodeAttr
pass_through e src dst attr = record attr {
  in_port_used = Map.insert src true attr.in_port_used;
  out_port_used = Map.insert dst true attr.out_port_used;
  dfg_edge_pass = attr.dfg_edge_pass ++ record { src_port = src; dst_port = dst; edge = e } ∷ [];
}

abbrev pub push_link : ℕ → EdgeLinkAttr → Mapping → Mapping
push_link id link m = record m {
  dfg_edge_attrs =
      Map.update id new_dfg_edge (λ attr. record attr { edge_links = attr.edge_links ++ link ∷ [] })
        m.dfg_edge_attrs;
}

abbrev pub update_node : ℕ → (AdgNodeAttr → AdgNodeAttr) → Mapping → Mapping
update_node id f m = record m { adg_node_attrs = Map.update id new_adg_node f m.adg_node_attrs }

-- The assertion that the node is of type "GIB" is the type of `gib`: the search calls this function
-- only behind its own test of the type, and passes the block.
unfoldable pub route_dfg_edge_pass :
    GraphEdge → ℕ → GibNode → Port → Port → Bool → Mapping → Option Mapping
route_dfg_edge_pass e id gib src dst is_try m = elim (choose e id gib src dst m) [
  | none ↦ none
  | some c ↦ some (
      if is_try
      then m
      else update_node id (pass_through e c.route_src c.route_dst) (
          push_link e.id (record { src_port = c.route_src; dst_port = c.route_dst; adg_node = id })
            m))
]
