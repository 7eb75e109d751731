-- ===== src/Mapper/Mapping/Walk/Lead.antt =====
-- mapper/mapping.cpp, `routeDfgEdgeFromDst`: the invariant that lets a path share a part of another
-- one. Where an edge passes through a node, the links of the edge lead from its source to there.
use fdra.Prelude.{
  ℕ, Bool, true, false, ◌&&◌, ◌||◌, none, some, List, [], ◌∷◌, ◌++◌, ◌≡◌, refl, sym, ap, ◌∙◌, ◌==◌,
  if◌then◌else◌, nat_key, arith, Bool-cases, Option-cases, inl, inr,
}
use mathlib.Core.List.{append-nil}
use fdra.Prelude.Map
use fdra.Prelude.Map.{Map}
use fdra.Prelude.Set.{Set}
use fdra.Graph.Edge.{GraphEdge}
use fdra.Adg.Store.{Adg}
use fdra.Mapper.Port.{Port, port_key, port_eq}
use fdra.Mapper.Mapping.{
  Mapping, EdgeLinkAttr, DfgEdgePassAttr, AdgNodeAttr, is_adg_node_out_port_used,
}
use fdra.Mapper.Mapping.Route.{same_source, push_link, update_node}
use fdra.Mapper.Mapping.Search.{reuse, check_passing, check_used}
use fdra.Mapper.Mapping.Walk.{note_pass, reuse_links, links_of}
use fdra.Mapper.Mapping.Walk.Links.{links_of-push_link}
use fdra.Mapper.Mapping.Walk.Trail.{Joined, IsRoute, snoc-append}

abbrev pub is_at : ℕ × Port → EdgeLinkAttr → Bool
is_at key link = link.adg_node == key.0 && port_eq link.dst_port key.1

-- The links form a path as far as the given output port of a node.
abbrev pub LeadsTo : Adg → ℕ × Port → List EdgeLinkAttr → Type 0
LeadsTo adg final [] = ⊥
LeadsTo adg final (l ∷ []) = is_at final l ≡ true
LeadsTo adg final (l ∷ k ∷ ls) =
    if is_at final l then Unit {0} else Joined adg l k × LeadsTo adg final (k ∷ ls)

-- The first link leaves an output port of a unit.
abbrev pub Begins : ℕ → ℕ → List EdgeLinkAttr → Type 0
Begins unit port [] = ⊥
Begins unit port (l ∷ ls) = (l.src_port ≡ none) × (l.dst_port ≡ some port) × (l.adg_node ≡ unit)

-- The part of a path that another one shares.
abbrev pub up_to : ℕ × Port → List EdgeLinkAttr → List EdgeLinkAttr
up_to final [] = []
up_to final (l ∷ ls) = if is_at final l then l ∷ [] else l ∷ up_to final ls

up_to-cons :
    (final : ℕ × Port) (k : EdgeLinkAttr) (links : List EdgeLinkAttr)
    → up_to final (k ∷ links) ≡ k ∷ (if is_at final k then [] else up_to final links)
up_to-cons final k links = ground arith

pub links_of-reuse_links :
    (e : GraphEdge) (final : ℕ × ℕ) (links : List EdgeLinkAttr) (m : Mapping)
    → links_of e.id (reuse_links e final links m)
      ≡ links_of e.id m ++ up_to (final.0, some final.1) links
unfolding reuse_links
links_of-reuse_links e final [] m = sym (append-nil (links_of e.id m))
links_of-reuse_links e final (link ∷ links) m =
    let m1 = push_link e.id link m in
    let m2 = update_node link.adg_node (note_pass e link.src_port link.dst_port) m1 in
    elim (Bool-cases (is_at (final.0, some final.1) link)) [
      | inl ends ↦ rw ends (links_of-push_link e.id link m)
      | inr goes ↦
          rw (goes, reuse_links)
            (links_of-reuse_links e final links m2
              ∙ ap (λ xs. xs ++ up_to (final.0, some final.1) links)
                  (links_of-push_link e.id link m)
              ∙ snoc-append (links_of e.id m) link (up_to (final.0, some final.1) links))
    ]

-- A path that goes on where another one has led to.
pub IsRoute-up_to :
    (adg : Adg) (dst : ℕ) (range : Set ℕ) (final : ℕ × Port) (links : List EdgeLinkAttr)
    (next : EdgeLinkAttr) (ls : List EdgeLinkAttr)
    → LeadsTo adg final links
    → ((l : EdgeLinkAttr) → is_at final l ≡ true → Joined adg l next)
    → IsRoute adg dst range (next ∷ ls)
    → IsRoute adg dst range (up_to final links ++ next ∷ ls)
IsRoute-up_to adg dst range final [] next ls leads joins route = absurd leads
IsRoute-up_to adg dst range final (l ∷ []) next ls leads joins route =
    rw leads (joins l leads, route)
IsRoute-up_to adg dst range final (l ∷ k ∷ links) next ls leads joins route =
    let tail = if is_at final k then [] else up_to final links in
    let shape : up_to final (k ∷ links) ≡ k ∷ tail = up_to-cons final k links in
    elim (Bool-cases (is_at final l)) [
      | inl ends ↦ rw ends (joins l ends, route)
      | inr goes ↦
          let (joined, later) : Joined adg l k × LeadsTo adg final (k ∷ links) = rw goes at leads in
          let rest : IsRoute adg dst range ((k ∷ tail) ++ next ∷ ls) =
            rw shape at (IsRoute-up_to adg dst range final (k ∷ links) next ls later joins route) in
          rw (goes, shape) (joined, rest)
    ]

-- Some link leaves the node by the port.
abbrev pub has_link : ℕ × Port → List EdgeLinkAttr → Bool
has_link key [] = false
has_link key (l ∷ ls) = is_at key l || has_link key ls

pub has_link-append :
    (key : ℕ × Port) (xs ys : List EdgeLinkAttr)
    → has_link key (xs ++ ys) ≡ (has_link key xs || has_link key ys)
has_link-append key [] ys = refl
has_link-append key (x ∷ xs) ys = ground (arith, has_link-append key xs ys)

-- A whole path leads to each of its nodes.
pub IsRoute-LeadsTo :
    (adg : Adg) (dst : ℕ) (range : Set ℕ) (key : ℕ × Port) (links : List EdgeLinkAttr)
    → IsRoute adg dst range links
    → has_link key links ≡ true
    → LeadsTo adg key links
IsRoute-LeadsTo adg dst range key [] route has = route
IsRoute-LeadsTo adg dst range key (l ∷ []) route has = ground arith
IsRoute-LeadsTo adg dst range key (l ∷ k ∷ links) route has = elim (Bool-cases (is_at key l)) [
  | inl ends ↦ rw ends tt
  | inr goes ↦
      rw goes
        (route.0, IsRoute-LeadsTo adg dst range key (k ∷ links) route.1 (ground (arith, goes)))
]

abbrev pub has_node : ℕ → List EdgeLinkAttr → Bool
has_node a [] = false
has_node a (l ∷ ls) = l.adg_node == a || has_node a ls

pub LeadsTo-has_node :
    (adg : Adg) (key : ℕ × Port) (links : List EdgeLinkAttr)
    → LeadsTo adg key links
    → has_node key.0 links ≡ true
LeadsTo-has_node adg key [] leads = absurd leads
LeadsTo-has_node adg key (l ∷ []) leads = ground arith
LeadsTo-has_node adg key (l ∷ k ∷ links) leads = elim (Bool-cases (is_at key l)) [
  | inl ends ↦ ground (arith, ends)
  | inr goes ↦
      let (joined, later) : Joined adg l k × LeadsTo adg key (k ∷ links) = rw goes at leads in
      ground (arith, LeadsTo-has_node adg key (k ∷ links) later)
]

-- Each edge that passes through a node has links that begin at the unit of its source, and lead to
-- the output port of the node that it leaves by. `places` says where the sources are.
module _ (adg : Adg) (places : ℕ → ℕ) (links : ℕ → List EdgeLinkAttr) where
  abbrev pub LeadsOut : ℕ → DfgEdgePassAttr → Type 0
  LeadsOut a x =
      LeadsTo adg (a, x.dst_port) (links x.edge.id)
      × Begins (places x.edge.src_id) x.edge.src_port_idx (links x.edge.id)

  abbrev pub AllLeadOut : ℕ → List DfgEdgePassAttr → Type 0
  AllLeadOut a [] = Unit {0}
  AllLeadOut a (x ∷ xs) = LeadsOut a x × AllLeadOut a xs

abbrev pub AllLead : Adg → (ℕ → ℕ) → Mapping → Type 0
AllLead adg places m =
    (a : ℕ) (attr : AdgNodeAttr)
    → Map.lookup a m.adg_node_attrs ≡ some attr
    → AllLeadOut adg places (λ id. links_of id m) a attr.dfg_edge_pass

-- An edge that the search offers to share a path with leads there, from the same source.
module _ (adg : Adg) (places : ℕ → ℕ) (links : ℕ → List EdgeLinkAttr) (e : GraphEdge) where
  abbrev pub Shares : ℕ × ℕ → GraphEdge → Type 0
  Shares (id, port) x =
      LeadsTo adg (id, some port) (links x.id)
      × Begins (places e.src_id) e.src_port_idx (links x.id)

  check_passing-Shares :
      (id port : ℕ) (xs : List DfgEdgePassAttr) (x : GraphEdge)
      → AllLeadOut adg places links id xs
      → check_passing e port xs ≡ reuse x
      → Shares (id, port) x
  unfolding check_passing
  check_passing-Shares id port [] x all h = absurd (cc h)
  check_passing-Shares id port (y ∷ ys) x all h =
      elim (Bool-cases (port_eq y.dst_port (some port))) [
        | inl here ↦ elim (Bool-cases (same_source y.edge e)) [
          | inl same ↦
              let taken : y.edge ≡ x = ground arith in
              let its_id : y.edge.id ≡ x.id = ap (λ z. z.id) taken in
              let its_port : y.dst_port ≡ some port = ground arith in
              let its_src : y.edge.src_id ≡ e.src_id = ground arith in
              let its_src_port : y.edge.src_port_idx ≡ e.src_port_idx = ground arith in
              rw (its_port, its_src, its_src_port, its_id) at all.0
          | inr differs ↦ absurd (ground arith)
        ]
        | inr there ↦ check_passing-Shares id port ys x all.1 (ground arith)
      ]

  pub check_used-Shares :
      (key : ℕ × ℕ) (m : Mapping) (x : GraphEdge)
      → ((a : ℕ) (attr : AdgNodeAttr)
          → Map.lookup a m.adg_node_attrs ≡ some attr
          → AllLeadOut adg places links a attr.dfg_edge_pass)
      → check_used e key m ≡ reuse x
      → Shares key x
  unfolding is_adg_node_out_port_used
  check_used-Shares (id, port) m x all h = elim (Option-cases (Map.lookup id m.adg_node_attrs)) [
    | inl absent ↦ absurd (ground arith)
    | inr (attr, there) ↦
        check_passing-Shares id port attr.dfg_edge_pass x (all id attr there) (ground arith)
  ]
