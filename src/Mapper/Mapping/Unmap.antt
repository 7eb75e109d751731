-- ===== src/Mapper/Mapping/Unmap.antt =====
-- mapper/mapping.cpp, `unmapDfgNode`: a node leaves the mapping together with the routes of its edges.
use fdra.Prelude.{
  ℕ, false, Option, none, some, List, [], ◌∷◌, ◌++◌, ◌≡◌, refl, sym, ◌∙◌, nat_key, arith,
  Option-cases, inl, inr,
}
use mathlib.Core.Path.{subst}
use fdra.Prelude.Options.{◌>>=◌}
use fdra.Prelude.Map
use fdra.Prelude.Map.{Map}
use fdra.Prelude.Set.{Set}
use fdra.Graph.Edge.{GraphEdge}
use fdra.Dfg.Node.{DfgNode}
use fdra.Dfg.Store as DfgStore
use fdra.Dfg.Store.{Dfg}
use fdra.Mapper.Mapping.{
  Mapping, AdgNodeAttr, EdgeLinkAttr, mapped_adg_node, mapped_dfg_node, unmap_dfg_node_no_unroute,
  is_routed,
}
use fdra.Mapper.Mapping.Placed.{IsPlacement, unmap_dfg_node_no_unroute-IsPlacement}
use fdra.Mapper.Mapping.Unroute.Whole.{unroute_dfg_edge-AllHeld}
use fdra.Mapper.Mapping.Unroute.{unroute_node, unroute_links, unroute_dfg_edge, AllHeld}

-- The two loops over the edges of a node, on the identifiers in their order. `none` is an edge that
-- the graph lacks.
abbrev pub input_edge_ids : Map ℕ ℕ → List ℕ
input_edge_ids [] = []
input_edge_ids ((port, id) ∷ edges) = id ∷ input_edge_ids edges

abbrev pub output_edge_ids : Map ℕ (Set ℕ) → List ℕ
output_edge_ids [] = []
output_edge_ids ((port, ids) ∷ edges) = ids ++ output_edge_ids edges

unfoldable pub unroute_all : Dfg → List ℕ → Mapping → Option Mapping
unroute_all dfg [] m = some m
unroute_all dfg (id ∷ ids) m = do
  e ← DfgStore.edge id dfg
  unroute_all dfg ids (unroute_dfg_edge e.id m)

unfoldable pub unmap_dfg_node : Dfg → DfgNode → Mapping → Option Mapping
unmap_dfg_node dfg n m = do
  m' ← unroute_all dfg (input_edge_ids n.input_edges) m
  m'' ← unroute_all dfg (output_edge_ids n.output_edges) m'
  some (unmap_dfg_node_no_unroute n.id m'')

-- The graph has the edges, each under its identifier.
abbrev pub AllStored : Dfg → List ℕ → Type 0
AllStored dfg [] = Unit {0}
AllStored dfg (id ∷ ids) =
    ((e : GraphEdge) × (DfgStore.edge id dfg ≡ some e) × (e.id ≡ id)) × AllStored dfg ids

-- The unit of a node in a table of units.
abbrev unit_of : ℕ → Map ℕ AdgNodeAttr → Option ℕ
unit_of a attrs = elim (Map.lookup a attrs) [ none ↦ none | some attr ↦ attr.dfg_node ]

insert-unit_of :
    (a k : ℕ) (attr new : AdgNodeAttr) (attrs : Map ℕ AdgNodeAttr)
    → Map.lookup k attrs ≡ some attr
    → new.dfg_node ≡ attr.dfg_node
    → unit_of a (Map.insert k new attrs) ≡ unit_of a attrs
insert-unit_of a k attr new attrs there kept = ground (arith, Map.lookup-insert a k new attrs)

unroute_links-unit_of :
    (a id : ℕ) (links : List EdgeLinkAttr) (attrs : Map ℕ AdgNodeAttr)
    → unit_of a (unroute_links id links attrs) ≡ unit_of a attrs
unfolding unroute_links unroute_node
unroute_links-unit_of a id [] attrs = refl
unroute_links-unit_of a id (link ∷ links) attrs =
    elim (Option-cases (Map.lookup link.adg_node attrs)) [
      | inl absent ↦ rw absent (unroute_links-unit_of a id links attrs)
      | inr (attr, there) ↦
          let new = unroute_node id link attr in
          let rest = unroute_links-unit_of a id links (Map.insert link.adg_node new attrs) in
          rw there (rest ∙ insert-unit_of a link.adg_node attr new attrs there refl)
    ]

-- Unrouting an edge moves no node.
pub unroute_dfg_edge-unit_of :
    (a id : ℕ) (m : Mapping) → mapped_dfg_node a (unroute_dfg_edge id m) ≡ mapped_dfg_node a m
unfolding unroute_dfg_edge mapped_dfg_node
unroute_dfg_edge-unit_of a id m = elim (Option-cases (Map.lookup id m.dfg_edge_attrs)) [
  | inl absent ↦ rw (absent, mapped_dfg_node, unroute_dfg_edge) refl
  | inr (attr, there) ↦
      rw (there, mapped_dfg_node, unroute_dfg_edge)
        (unroute_links-unit_of a id attr.edge_links m.adg_node_attrs)
]

pub unroute_dfg_edge-nodes :
    (id : ℕ) (m : Mapping)
    → ((unroute_dfg_edge id m).dfg_node_attrs ≡ m.dfg_node_attrs)
      × ((unroute_dfg_edge id m).num_node_mapped ≡ m.num_node_mapped)
unfolding unroute_dfg_edge
unroute_dfg_edge-nodes id m = (ground arith, ground arith)

-- A mapping whose placement is that of another one.
pub IsPlacement-same :
    (m m' : Mapping)
    → m'.dfg_node_attrs ≡ m.dfg_node_attrs
    → m'.num_node_mapped ≡ m.num_node_mapped
    → ((a : ℕ) → mapped_dfg_node a m' ≡ mapped_dfg_node a m)
    → IsPlacement m
    → IsPlacement m'
unfolding mapped_adg_node
IsPlacement-same m m' nodes count units p = record {
  forth = λ d a h. units a ∙ p.forth d a (rw nodes at h);
  back = λ d a h. rw nodes (p.back d a (sym (units a) ∙ h));
  counted = count ∙ rw nodes p.counted;
  sorted = rw nodes p.sorted;
}

-- No edge of the list is routed.
abbrev pub AllUnrouted : List ℕ → Mapping → Type 0
AllUnrouted [] m = Unit {0}
AllUnrouted (id ∷ ids) m = (is_routed id m ≡ false) × AllUnrouted ids m

-- What stays true while edges are unrouted.
record IsKept (m m' : Mapping) : Type 0 where
  placement : IsPlacement m → IsPlacement m'
  held : AllHeld m.adg_node_attrs → AllHeld m'.adg_node_attrs
  unrouted : (id : ℕ) → is_routed id m ≡ false → is_routed id m' ≡ false

IsKept-trans : (m m' m'' : Mapping) → IsKept m m' → IsKept m' m'' → IsKept m m''
IsKept-trans m m' m'' k l = record {
  placement = λ p. l.placement (k.placement p);
  held = λ h. l.held (k.held h);
  unrouted = λ id h. l.unrouted id (k.unrouted id h);
}

still_unrouted :
    (other id : ℕ) (m : Mapping)
    → is_routed other m ≡ false
    → is_routed other (unroute_dfg_edge id m) ≡ false
unfolding is_routed unroute_dfg_edge
still_unrouted other id m h = ground (arith, Map.lookup-erase other id m.dfg_edge_attrs)

now_unrouted : (id : ℕ) (m : Mapping) → is_routed id (unroute_dfg_edge id m) ≡ false
unfolding is_routed unroute_dfg_edge
now_unrouted id m = ground (arith, Map.lookup-erase id id m.dfg_edge_attrs)

unroute_dfg_edge-IsKept : (id : ℕ) (m : Mapping) → IsKept m (unroute_dfg_edge id m)
unroute_dfg_edge-IsKept id m = record {
  placement =
      IsPlacement-same m (unroute_dfg_edge id m) (unroute_dfg_edge-nodes id m).0
        (unroute_dfg_edge-nodes id m).1 (λ a. unroute_dfg_edge-unit_of a id m);
  held = λ h. (unroute_dfg_edge-AllHeld id m h).0;
  unrouted = λ other h. still_unrouted other id m h;
}

AllUnrouted-kept :
    (ids : List ℕ) (m m' : Mapping) → IsKept m m' → AllUnrouted ids m → AllUnrouted ids m'
AllUnrouted-kept [] m m' k h = tt
AllUnrouted-kept (id ∷ ids) m m' k h = (k.unrouted id h.0, AllUnrouted-kept ids m m' k h.1)

unroute_all-done :
    (dfg : Dfg) (ids : List ℕ) (m : Mapping)
    → AllStored dfg ids
    → (m' : Mapping) × (unroute_all dfg ids m ≡ some m') × IsKept m m' × AllUnrouted ids m'
unfolding unroute_all
unroute_all-done dfg [] m stored =
    (m, refl, record { placement = λ p. p; held = λ h. h; unrouted = λ id h. h }, tt)
unroute_all-done dfg (id ∷ ids) m stored =
    let (e, found, keyed) = stored.0 in
    let m1 = unroute_dfg_edge e.id m in
    let (m', done, kept, all) = unroute_all-done dfg ids m1 stored.1 in
    let gone = kept.unrouted e.id (now_unrouted e.id m) in
    (
      m',
      rw (found, unroute_all) done,
      IsKept-trans m m1 m' (unroute_dfg_edge-IsKept e.id m) kept,
      (subst (λ i. is_routed i m' ≡ false) keyed gone, all),
    )

unmap-lookup :
    (d a : ℕ) (attr : AdgNodeAttr) (m : Mapping)
    → Map.lookup a (unmap_dfg_node_no_unroute d m).adg_node_attrs ≡ some attr
    → Map.lookup a m.adg_node_attrs ≡ some attr
unfolding unmap_dfg_node_no_unroute
unmap-lookup d a attr m h = elim (Option-cases (mapped_adg_node d m)) [
  | inl absent ↦ ground arith
  | inr (b, there) ↦ ground (arith, Map.lookup-erase a b m.adg_node_attrs)
]

unmap-edges :
    (d id : ℕ) (m : Mapping)
    → is_routed id m ≡ false
    → is_routed id (unmap_dfg_node_no_unroute d m) ≡ false
unfolding unmap_dfg_node_no_unroute is_routed
unmap-edges d id m h = ground arith

unmap-gone : (d : ℕ) (m : Mapping) → mapped_adg_node d (unmap_dfg_node_no_unroute d m) ≡ none
unfolding unmap_dfg_node_no_unroute mapped_adg_node
unmap-gone d m = ground (arith, Map.lookup-erase d d m.dfg_node_attrs)

unmap-IsKept : (d : ℕ) (m : Mapping) → IsKept m (unmap_dfg_node_no_unroute d m)
unmap-IsKept d m = record {
  placement = unmap_dfg_node_no_unroute-IsPlacement d m;
  held = λ h a attr e. h a attr (unmap-lookup d a attr m e);
  unrouted = λ id h. unmap-edges d id m h;
}

module _ (dfg : Dfg) (n : DfgNode) (m : Mapping)
    (ins : AllStored dfg (input_edge_ids n.input_edges))
    (outs : AllStored dfg (output_edge_ids n.output_edges)) (old : IsPlacement m)
    (held : AllHeld m.adg_node_attrs) where
  -- Unmapping a node whose edges the graph has succeeds. Afterwards the node is on no unit and none
  -- of its edges is routed, the placement is well formed, and every edge that still
  -- passes through a node holds its ports there.
  pub unmap_dfg_node_safe :
      (m' : Mapping) × (unmap_dfg_node dfg n m ≡ some m')
      × IsPlacement m'
      × AllHeld m'.adg_node_attrs
      × AllUnrouted (input_edge_ids n.input_edges) m'
      × AllUnrouted (output_edge_ids n.output_edges) m'
      × (mapped_adg_node n.id m' ≡ none)
  unfolding unmap_dfg_node
  unmap_dfg_node_safe =
      let (m1, done1, kept1, in_all) = unroute_all-done dfg (input_edge_ids n.input_edges) m ins in
      let (m2, done2, kept2, out_all) =
        unroute_all-done dfg (output_edge_ids n.output_edges) m1 outs in
      let m' = unmap_dfg_node_no_unroute n.id m2 in
      let last = unmap-IsKept n.id m2 in
      let whole = IsKept-trans m m1 m' kept1 (IsKept-trans m1 m2 m' kept2 last) in
      (
        m',
        rw (done1, done2, unmap_dfg_node) refl,
        whole.placement old,
        whole.held held,
        AllUnrouted-kept (input_edge_ids n.input_edges) m1 m' (IsKept-trans m1 m2 m' kept2 last)
            in_all,
        AllUnrouted-kept (output_edge_ids n.output_edges) m2 m' last out_all,
        unmap-gone n.id m2,
      )
