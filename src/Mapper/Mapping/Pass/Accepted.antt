-- ===== src/Mapper/Mapping/Pass/Accepted.antt =====
-- mapper/mapping.cpp, `routeDfgEdgePass` with both ports given, which is how the search uses it: what
-- holds of an accepted edge.
use fdra.Mapper.Mapping.{EdgeLinkAttr, DfgEdgeAttr, new_dfg_edge}
use fdra.Prelude.{
  Option, ◌==◌, Bool-cases, ℕ, Bool, true, false, not, ◌&&◌, ◌||◌, ◌≢◌, refl, ap, ◌∙◌, none, some,
  List, [], ◌∷◌, ◌++◌, ◌≡◌, if◌then◌else◌, nat_key, arith, Option-cases, inl, inr,
}
use mathlib.Core.Path.{subst}
use fdra.Prelude.Map
use fdra.Prelude.Map.{Map}
use fdra.Graph.Edge.{GraphEdge}
use fdra.Adg.Node.{GibNode, is_in_out_connected}
use fdra.Mapper.Port.{Port, port_key, port_eq}
use fdra.Mapper.Mapping.{
  Mapping, DfgEdgePassAttr, AdgNodeAttr, new_adg_node, is_adg_node_in_port_used,
  is_adg_node_out_port_used,
}
use fdra.Mapper.Mapping.Route.{
  Choice, same_source, shares, check_edges, choose_used, choose, push_link, update_node,
  pass_through, route_dfg_edge_pass,
}
use fdra.Mapper.Mapping.Unroute.{IsHeld}
use fdra.Mapper.Mapping.Pass.{
  Compatible, Compatible-snoc, passing, check_edges-AllAgree, Holds-snoc,
}

-- An edge from the same source comes in at the port.
abbrev pub joins_in : GraphEdge → Port → List DfgEdgePassAttr → Bool
joins_in e src [] = false
joins_in e src (x ∷ xs) = same_source x.edge e && port_eq x.src_port src || joins_in e src xs

-- An edge from the same source takes the same way through the block.
abbrev pub joins_way : GraphEdge → Port → Port → List DfgEdgePassAttr → Bool
joins_way e src dst [] = false
joins_way e src dst (x ∷ xs) =
    same_source x.edge e && port_eq x.src_port src && port_eq x.dst_port dst
    || joins_way e src dst xs

check_edges-joins_in :
    (e : GraphEdge) (src dst : Port) (xs : List DfgEdgePassAttr) (c c' : Choice)
    → check_edges e src dst xs c ≡ some c'
    → (c'.has_same && port_eq c'.route_src src) ≡ true
    → (joins_in e src xs || c.has_same && port_eq c.route_src src) ≡ true
unfolding check_edges
check_edges-joins_in e src dst [] c c' h k = ground arith
check_edges-joins_in e src dst (x ∷ xs) c c' h k =
    let next =
      if shares src dst x
      then record { route_src = x.src_port; route_dst = x.dst_port; has_same = true }
      else c in
    let later = check_edges-joins_in e src dst xs next c' (ground arith) k in ground (arith, later)

check_edges-joins_way :
    (e : GraphEdge) (src dst : Port) (xs : List DfgEdgePassAttr) (c c' : Choice)
    → check_edges e src dst xs c ≡ some c'
    → (c'.has_same && port_eq c'.route_src src && port_eq c'.route_dst dst) ≡ true
    → (joins_way e src dst xs || c.has_same && port_eq c.route_src src && port_eq c.route_dst dst)
      ≡ true
unfolding check_edges
check_edges-joins_way e src dst [] c c' h k = ground arith
check_edges-joins_way e src dst (x ∷ xs) c c' h k =
    let next =
      if shares src dst x
      then record { route_src = x.src_port; route_dst = x.dst_port; has_same = true }
      else c in
    let later = check_edges-joins_way e src dst xs next c' (ground arith) k in ground (arith, later)

-- The mapping after an edge is accepted at given ports.
abbrev passed : GraphEdge → ℕ → ℕ → ℕ → Bool → Mapping → Mapping
passed e id s d is_try m =
    if is_try
    then m
    else update_node id (pass_through e (some s) (some d))
        (push_link e.id (record { src_port = some s; dst_port = some d; adg_node = id }) m)

route_dfg_edge_pass-passed :
    (e : GraphEdge) (id : ℕ) (gib : GibNode) (s d : ℕ) (is_try : Bool) (m m' : Mapping)
    (attr : AdgNodeAttr)
    → Map.lookup id m.adg_node_attrs ≡ some attr
    → route_dfg_edge_pass e id gib (some s) (some d) is_try m ≡ some m'
    → (c : Choice) × (check_edges e
          (some s)
          (some d)
          attr.dfg_edge_pass
          (record { route_src = some s; route_dst = some d; has_same = false })
        ≡ some c)
      × (is_in_out_connected s d gib ≡ true)
      × ((not (is_adg_node_in_port_used id (some s) m)
            || c.has_same && port_eq c.route_src (some s))
          ≡ true)
      × ((not (is_adg_node_out_port_used id (some d) m)
            || c.has_same && port_eq c.route_src (some s) && port_eq c.route_dst (some d))
          ≡ true)
      × (passed e id s d is_try m ≡ m')
unfolding route_dfg_edge_pass choose choose_used
route_dfg_edge_pass-passed e id gib s d is_try m m' attr there h =
    let start : Choice = record { route_src = some s; route_dst = some d; has_same = false } in
    elim (Option-cases (check_edges e (some s) (some d) attr.dfg_edge_pass start)) [
      | inl conflict ↦ absurd (ground arith)
      | inr (c, e1) ↦ (c, e1, ground arith, ground arith, ground arith, ground arith)
    ]

-- The links of an edge, none if it has no attributes.
abbrev pub edge_links_at : Option DfgEdgeAttr → List EdgeLinkAttr
edge_links_at none = []
edge_links_at (some attr) = attr.edge_links

-- What an accepted edge leaves at the block: the list of passing edges, and every other block as it
-- was.
pub record IsPassed (e : GraphEdge) (id s d : ℕ) (is_try : Bool) (attr : AdgNodeAttr)
    (m m' : Mapping) : Type 0 where
  pub attr' : AdgNodeAttr
  pub stored : Map.lookup id m'.adg_node_attrs ≡ some attr'
  pub listed : attr'.dfg_edge_pass ≡ (
      if is_try then attr.dfg_edge_pass else attr.dfg_edge_pass ++ passing e (some s) (some d) ∷ [])
  pub compatible : Compatible attr'.dfg_edge_pass
  pub held : IsHeld attr'
  pub others : (a : ℕ) → a ≢ id → Map.lookup a m'.adg_node_attrs ≡ Map.lookup a m.adg_node_attrs
  pub links :
      (x : ℕ)
      → edge_links_at (Map.lookup x m'.dfg_edge_attrs) ≡ (
          if not is_try && e.id == x
          then edge_links_at (Map.lookup x m.dfg_edge_attrs)
            ++ record { src_port = some s; dst_port = some d; adg_node = id } ∷ []
          else edge_links_at (Map.lookup x m.dfg_edge_attrs))
  pub tried : is_try ≡ true → m' ≡ m

push_link-links :
    (k : ℕ) (link : EdgeLinkAttr) (m : Mapping) (x : ℕ)
    → edge_links_at (Map.lookup x (push_link k link m).dfg_edge_attrs) ≡ (
        if k == x
        then edge_links_at (Map.lookup x m.dfg_edge_attrs) ++ link ∷ []
        else edge_links_at (Map.lookup x m.dfg_edge_attrs))
push_link-links k link m x =
    let old = Map.get_or k new_dfg_edge m.dfg_edge_attrs in
    let new = record old { edge_links = old.edge_links ++ link ∷ [] } in
    let stored = Map.lookup-insert x k new m.dfg_edge_attrs in
    elim (Bool-cases (k == x)) [
      | inl own ↦
          let same : k ≡ x = ground arith in
          let now : Map.lookup x (Map.insert k new m.dfg_edge_attrs) ≡ some new =
            stored ∙ rw own refl in
          let was : old.edge_links ≡ edge_links_at (Map.lookup k m.dfg_edge_attrs) =
            elim (Option-cases (Map.lookup k m.dfg_edge_attrs)) [
              | inl absent ↦ rw absent refl
              | inr (attr, there) ↦ rw there refl
            ] in
          rw own (
            ap edge_links_at now
            ∙ ap (λ ls. ls ++ link ∷ []) was
            ∙ ap (λ j. edge_links_at (Map.lookup j m.dfg_edge_attrs) ++ link ∷ []) same)
      | inr other ↦
          let now : Map.lookup x (Map.insert k new m.dfg_edge_attrs)
              ≡ Map.lookup x m.dfg_edge_attrs =
            stored ∙ rw other refl in
          rw other (ap edge_links_at now)
    ]

passed-IsPassed :
    (e : GraphEdge) (id s d : ℕ) (is_try : Bool) (m : Mapping) (attr : AdgNodeAttr)
    → Map.lookup id m.adg_node_attrs ≡ some attr
    → Compatible attr.dfg_edge_pass
    → Compatible (attr.dfg_edge_pass ++ passing e (some s) (some d) ∷ [])
    → IsHeld attr
    → IsPassed e id s d is_try attr m (passed e id s d is_try m)
passed-IsPassed e id s d true m attr there old new held = record {
  attr' = attr;
  stored = there;
  listed = refl;
  compatible = old;
  held = held;
  others = λ a ne. refl;
  links = λ x. refl;
  tried = λ h. refl;
}
passed-IsPassed e id s d false m attr there old new held =
    let attr' = pass_through e (some s) (some d) attr in
    let inserted : Map.update id new_adg_node (pass_through e (some s) (some d)) m.adg_node_attrs
        ≡ Map.insert id attr' m.adg_node_attrs =
      rw there refl in
    record {
      attr' = attr';
      stored =
          ap (λ t. Map.lookup id t) inserted
          ∙ ground (arith, Map.lookup-insert id id attr' m.adg_node_attrs);
      listed = refl;
      compatible = new;
      held =
          Holds-snoc attr.in_port_used attr.out_port_used (passing e (some s) (some d))
            attr.dfg_edge_pass held;
      others = λ a ne.
          ap (λ t. Map.lookup a t) inserted
          ∙ ground (arith, ne, Map.lookup-insert a id attr' m.adg_node_attrs);
      tried = λ h. absurd (cc h);
      links = λ x.
          push_link-links e.id (record { src_port = some s; dst_port = some d; adg_node = id }) m x;
    }

-- Suppose that at a block in use any two passing edges that share a port come from the same source,
-- and all have their ports marked as used. If an edge is accepted at given ports, then the block
-- connects the two ports; an input port that was used is one at which an edge of the same source
-- comes in, and an output port that was used is one to which an edge of the same source takes the
-- same way. A try changes nothing. Otherwise the mapping afterwards lists the edge there as well, the
-- edge has one link more, through the block by the two ports, and both assumptions hold again; all
-- other blocks and the links of all other edges stay as they were.
pub route_dfg_edge_pass-Compatible :
    (e : GraphEdge) (id : ℕ) (gib : GibNode) (s d : ℕ) (is_try : Bool) (m m' : Mapping)
    (attr : AdgNodeAttr)
    → Map.lookup id m.adg_node_attrs ≡ some attr
    → Compatible attr.dfg_edge_pass
    → IsHeld attr
    → route_dfg_edge_pass e id gib (some s) (some d) is_try m ≡ some m'
    → (is_in_out_connected s d gib ≡ true)
      × ((not (is_adg_node_in_port_used id (some s) m) || joins_in e (some s) attr.dfg_edge_pass)
          ≡ true)
      × ((not (is_adg_node_out_port_used id (some d) m)
            || joins_way e (some s) (some d) attr.dfg_edge_pass)
          ≡ true)
      × IsPassed e id s d is_try attr m m'
route_dfg_edge_pass-Compatible e id gib s d is_try m m' attr there old held h =
    let start : Choice = record { route_src = some s; route_dst = some d; has_same = false } in
    let (c, e1, connected, in_free, out_free, same) =
      route_dfg_edge_pass-passed e id gib s d is_try m m' attr there h in
    let xs = attr.dfg_edge_pass in
    let in_back = check_edges-joins_in e (some s) (some d) xs start c e1 in
    let way_back = check_edges-joins_way e (some s) (some d) xs start c e1 in
    let agree = check_edges-AllAgree e (some s) (some d) xs start c e1 in
    let new = Compatible-snoc (passing e (some s) (some d)) xs old agree in
    (
      connected,
      ground (arith, in_free, in_back),
      ground (arith, out_free, way_back),
      subst (IsPassed e id s d is_try attr m) same
          (passed-IsPassed e id s d is_try m attr there old new held),
    )
