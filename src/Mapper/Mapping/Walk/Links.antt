-- ===== src/Mapper/Mapping/Walk/Links.antt =====
-- mapper/mapping.cpp, `routeDfgEdgeFromDst`: what the recording of a path does to the links of the edge
-- and to the ports that the passing edges hold.
use fdra.Prelude.{
  ℕ, zero, suc, Bool, true, false, not, ◌&&◌, Option, none, some, List, [], ◌∷◌, ◌++◌, ◌≡◌, ◌==◌,
  if◌then◌else◌, nat_key, arith, Bool-cases, Option-cases, inl, inr,
}
use mathlib.Core.Path.{subst}
use fdra.Prelude.Map
use fdra.Prelude.Map.{Map}
use fdra.Prelude.Outcome.{done}
use fdra.Graph.Edge.{GraphEdge}
use fdra.Mapper.Port.{Port, port_key, port_eq}
use fdra.Mapper.Mapping.{
  Mapping, EdgeLinkAttr, DfgEdgePassAttr, AdgNodeAttr, new_dfg_edge, new_adg_node,
  map_dfg_node_no_route,
}
use fdra.Mapper.Mapping.Route.{push_link, update_node, pass_through}
use fdra.Mapper.Mapping.Pass.{HoldsPort-set, Holds-snoc}
use fdra.Mapper.Mapping.Unroute.{HoldsPort, Holds, IsHeld, AllHeld, AllHeld-insert}
use fdra.Mapper.Mapping.Search.{VisitNodeInfo}
use fdra.Mapper.Mapping.Walk.{
  note_pass, use_in, use_out, reuse_links, next_of, walk, touch_edge, links_of, place_source,
}

pub links_of-push_link :
    (id : ℕ) (link : EdgeLinkAttr) (m : Mapping)
    → links_of id (push_link id link m) ≡ links_of id m ++ link ∷ []
links_of-push_link id link m =
    let attr = Map.get_or id new_dfg_edge m.dfg_edge_attrs in
    ground (
      arith,
      Map.lookup-insert id id (record attr { edge_links = attr.edge_links ++ link ∷ [] })
          m.dfg_edge_attrs,
    )

pub links_of-touch_edge : (id x : ℕ) (m : Mapping) → links_of id (touch_edge x m) ≡ links_of id m
links_of-touch_edge id x m =
    let attr = Map.get_or x new_dfg_edge m.dfg_edge_attrs in
    ground (arith, Map.lookup-insert id x attr m.dfg_edge_attrs)

-- Every write to a node keeps what is held there.
new_adg_node-IsHeld : IsHeld new_adg_node
new_adg_node-IsHeld = tt

get_or-IsHeld :
    (id : ℕ) (attrs : Map ℕ AdgNodeAttr) → AllHeld attrs → IsHeld (Map.get_or id new_adg_node attrs)
get_or-IsHeld id attrs all = elim (Option-cases (Map.lookup id attrs)) [
  | inl absent ↦ rw absent new_adg_node-IsHeld
  | inr (attr, there) ↦ rw there (all id attr there)
]

AllHeld-update :
    (id : ℕ) (f : AdgNodeAttr → AdgNodeAttr) (m : Mapping)
    → ((attr : AdgNodeAttr) → IsHeld attr → IsHeld (f attr))
    → AllHeld m.adg_node_attrs
    → AllHeld (update_node id f m).adg_node_attrs
AllHeld-update id f m keep all =
    AllHeld-insert id _ m.adg_node_attrs all (keep _ (get_or-IsHeld id m.adg_node_attrs all))

Holds-use_in :
    (ins outs : Map Port Bool) (p : Port) (xs : List DfgEdgePassAttr)
    → Holds ins outs xs
    → Holds (Map.insert p true ins) outs xs
Holds-use_in ins outs p [] h = tt
Holds-use_in ins outs p (x ∷ xs) h =
    (HoldsPort-set ins x.src_port p h.0, h.1, Holds-use_in ins outs p xs h.2)

Holds-use_out :
    (ins outs : Map Port Bool) (p : Port) (xs : List DfgEdgePassAttr)
    → Holds ins outs xs
    → Holds ins (Map.insert p true outs) xs
Holds-use_out ins outs p [] h = tt
Holds-use_out ins outs p (x ∷ xs) h =
    (h.0, HoldsPort-set outs x.dst_port p h.1, Holds-use_out ins outs p xs h.2)

step-IsHeld :
    (b : Bool) (e : GraphEdge) (src dst : Port) (attr : AdgNodeAttr)
    → IsHeld attr
    → IsHeld ((if b then use_out dst else pass_through e src dst) attr)
step-IsHeld true e src dst attr h =
    Holds-use_out attr.in_port_used attr.out_port_used dst attr.dfg_edge_pass h
step-IsHeld false e src dst attr h =
    Holds-snoc attr.in_port_used attr.out_port_used
      (record { src_port = src; dst_port = dst; edge = e }) attr.dfg_edge_pass h

module _ (e : GraphEdge) (dst : ℕ) (final : ℕ × ℕ) (v : Map (ℕ × ℕ) VisitNodeInfo) where
  pub walk-AllHeld :
      (fuel : ℕ) (src_port : Port) (route : ℕ × Port) (m m' : Mapping)
      → AllHeld m.adg_node_attrs
      → walk fuel e dst final v src_port route m ≡ done m'
      → AllHeld m'.adg_node_attrs
  unfolding walk
  walk-AllHeld zero src_port route m m' all h = absurd (cc h)
  walk-AllHeld (suc fuel) src_port (id, dst_port) m m' all h =
      let at_src = id == final.0 && port_eq dst_port (some final.1) in
      let m1 =
        push_link e.id (record { src_port = src_port; dst_port = dst_port; adg_node = id }) m in
      let info = next_of (id, dst_port) v in
      let step = if at_src then use_out dst_port else pass_through e src_port dst_port in
      elim (Bool-cases (not at_src && id == dst)) [
        | inl stops ↦
            let m2 = update_node id (use_in src_port) m1 in
            let same : m2 ≡ m' = ground arith in
            subst (λ x. AllHeld x.adg_node_attrs) same
              (AllHeld-update id (use_in src_port) m1
                (λ attr k.
                  Holds-use_in attr.in_port_used attr.out_port_used src_port attr.dfg_edge_pass k)
                all)
        | inr goes ↦
            walk-AllHeld fuel (some info.dst_in_port_idx) (info.dst_node_id, info.dst_out_port_idx)
              (update_node id step m1) m'
              (AllHeld-update id step m1 (step-IsHeld at_src e src_port dst_port) all)
              (ground arith)
      ]

-- Where a link lies, its ports are marked as used.
abbrev pub IsMarked : Map ℕ AdgNodeAttr → EdgeLinkAttr → Type 0
IsMarked attrs link =
    let attr = Map.get_or link.adg_node new_adg_node attrs in
    HoldsPort attr.in_port_used link.src_port × HoldsPort attr.out_port_used link.dst_port

abbrev pub AllMarked : Map ℕ AdgNodeAttr → List EdgeLinkAttr → Type 0
AllMarked attrs [] = Unit {0}
AllMarked attrs (link ∷ links) = IsMarked attrs link × AllMarked attrs links

Holds-note :
    (ins outs : Map Port Bool) (y : DfgEdgePassAttr) (xs : List DfgEdgePassAttr)
    → HoldsPort ins y.src_port
    → HoldsPort outs y.dst_port
    → Holds ins outs xs
    → Holds ins outs (xs ++ y ∷ [])
Holds-note ins outs y [] i o h = (i, o, tt)
Holds-note ins outs y (x ∷ xs) i o h = (h.0, h.1, Holds-note ins outs y xs i o h.2)

AllMarked-note :
    (e : GraphEdge) (a : ℕ) (src dst : Port) (m : Mapping) (links : List EdgeLinkAttr)
    → AllMarked m.adg_node_attrs links
    → AllMarked (update_node a (note_pass e src dst) m).adg_node_attrs links
AllMarked-note e a src dst m [] h = tt
AllMarked-note e a src dst m (link ∷ links) h =
    let new = note_pass e src dst (Map.get_or a new_adg_node m.adg_node_attrs) in
    (
      elim (Bool-cases (a == link.adg_node)) [
        | inl same ↦
            let eq : a ≡ link.adg_node = ground arith in
            rw (Map.lookup-insert link.adg_node a new m.adg_node_attrs, same, eq) h.0
        | inr other ↦ rw (Map.lookup-insert link.adg_node a new m.adg_node_attrs, other) h.0
      ],
      AllMarked-note e a src dst m links h.1,
    )

pub reuse_links-AllHeld :
    (e : GraphEdge) (final : ℕ × ℕ) (links : List EdgeLinkAttr) (m : Mapping)
    → AllHeld m.adg_node_attrs
    → AllMarked m.adg_node_attrs links
    → AllHeld (reuse_links e final links m).adg_node_attrs
unfolding reuse_links
reuse_links-AllHeld e final [] m all marked = all
reuse_links-AllHeld e final (link ∷ links) m all marked =
    let m1 = push_link e.id link m in
    let attr = Map.get_or link.adg_node new_adg_node m.adg_node_attrs in
    let m2 = update_node link.adg_node (note_pass e link.src_port link.dst_port) m1 in
    let kept : AllHeld m2.adg_node_attrs =
      AllHeld-insert link.adg_node (note_pass e link.src_port link.dst_port attr) m.adg_node_attrs
        all
        (Holds-note attr.in_port_used attr.out_port_used
          (record { src_port = link.src_port; dst_port = link.dst_port; edge = e })
          attr.dfg_edge_pass marked.0.0 marked.0.1
          (get_or-IsHeld link.adg_node m.adg_node_attrs all)) in
    elim (Bool-cases (link.adg_node == final.0 && port_eq link.dst_port (some final.1))) [
      | inl ends ↦ rw ends kept
      | inr goes ↦ rw goes (
          reuse_links-AllHeld e final links m2 kept
            (AllMarked-note e link.adg_node link.src_port link.dst_port m1 links marked.1))
    ]

pub place_source-AllHeld :
    (e : GraphEdge) (src : Option ℕ) (id : ℕ) (m : Mapping)
    → AllHeld m.adg_node_attrs
    → AllHeld (place_source e src id m).adg_node_attrs
unfolding map_dfg_node_no_route
place_source-AllHeld e (some src) id m all = all
place_source-AllHeld e none id m all =
    AllHeld-update id (λ attr. record attr { dfg_node = some e.src_id }) m (λ attr h. h) all
