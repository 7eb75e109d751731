-- ===== src/Mapper/Mapping/Unroute.antt =====
-- mapper/mapping.cpp, `unrouteDfgEdge`: the edge leaves all nodes that it passes through, and a port
-- is freed unless another edge still passes through it.
pub mod Ports
pub mod Whole
use fdra.Prelude.{
  ℕ, Bool, true, false, not, ◌&&◌, ◌||◌, none, some, List, [], ◌∷◌, ◌≡◌, ◌≢◌, Option, refl, sym, ap,
  ◌∙◌, ◌==◌, if◌then◌else◌, nat_key, arith, Bool-cases, Option-cases, inl, inr,
}
use mathlib.Core.Path.{subst}
use fdra.Prelude.Map
use fdra.Prelude.Map.{Map}
use fdra.Mapper.Port.{Port, port_key, port_eq, port_eq_iff, is_index}
use fdra.Mapper.Mapping.{Mapping, EdgeLinkAttr, DfgEdgePassAttr, AdgNodeAttr, is_routed}

-- `remove_if` by the pointer to the edge.
unfoldable pub drop_edge : ℕ → List DfgEdgePassAttr → List DfgEdgePassAttr
drop_edge id [] = []
drop_edge id (x ∷ xs) = if x.edge.id == id then drop_edge id xs else x ∷ drop_edge id xs

-- The loop over the edges that are left, on `setInPortUnused` and `setOutPortUnused`.
unfoldable pub frees : EdgeLinkAttr → List DfgEdgePassAttr → Bool × Bool → Bool × Bool
frees link [] flags = flags
frees link (x ∷ xs) (set_in, set_out) =
    let set_in' = if set_in && port_eq x.src_port link.src_port then false else set_in in
    let set_out' = if set_out && port_eq x.dst_port link.dst_port then false else set_out in
    let rest = frees link xs (set_in', set_out') in
    if not set_in' && not set_out' then (set_in', set_out') else rest

abbrev free_port : Bool → Port → Map Port Bool → Map Port Bool
free_port true port used = Map.insert port false used
free_port false port used = used

-- The body of the loop over the links, on the attributes of the node of the link.
unfoldable pub unroute_node : ℕ → EdgeLinkAttr → AdgNodeAttr → AdgNodeAttr
unroute_node id link attr =
    let edges = drop_edge id attr.dfg_edge_pass in
    let (set_in, set_out) = frees link edges (is_index link.src_port, is_index link.dst_port) in
    record attr {
      dfg_edge_pass = edges;
      in_port_used = free_port set_in link.src_port attr.in_port_used;
      out_port_used = free_port set_out link.dst_port attr.out_port_used;
    }

-- The loop over the links of the edge.
unfoldable pub unroute_links : ℕ → List EdgeLinkAttr → Map ℕ AdgNodeAttr → Map ℕ AdgNodeAttr
unroute_links id [] attrs = attrs
unroute_links id (link ∷ links) attrs =
    unroute_links id links (elim (Map.lookup link.adg_node attrs) [
      | none ↦ attrs
      | some attr ↦ Map.insert link.adg_node (unroute_node id link attr) attrs
    ])

unfoldable pub unroute_dfg_edge : ℕ → Mapping → Mapping
unroute_dfg_edge id m = elim (Map.lookup id m.dfg_edge_attrs) [
  | none ↦ m
  | some attr ↦ record m {
    adg_node_attrs = unroute_links id attr.edge_links m.adg_node_attrs;
    dfg_edge_attrs = Map.erase id m.dfg_edge_attrs;
  }
]

-- Through the ports of a passing edge nothing else is routed: they are marked as used.
abbrev pub HoldsPort : Map Port Bool → Port → Type 0
HoldsPort used none = Unit {0}
HoldsPort used (some p) = Map.get_or (some p) false used ≡ true

abbrev pub Holds : Map Port Bool → Map Port Bool → List DfgEdgePassAttr → Type 0
Holds ins outs [] = Unit {0}
Holds ins outs (x ∷ xs) = HoldsPort ins x.src_port × HoldsPort outs x.dst_port × Holds ins outs xs

-- Every edge that passes through a node holds both of its ports there.
abbrev pub IsHeld : AdgNodeAttr → Type 0
IsHeld attr = Holds attr.in_port_used attr.out_port_used attr.dfg_edge_pass

abbrev pub AllHeld : Map ℕ AdgNodeAttr → Type 0
AllHeld attrs = (a : ℕ) (attr : AdgNodeAttr) → Map.lookup a attrs ≡ some attr → IsHeld attr

drop_edge-Holds :
    (id : ℕ) (ins outs : Map Port Bool) (xs : List DfgEdgePassAttr)
    → Holds ins outs xs
    → Holds ins outs (drop_edge id xs)
unfolding drop_edge
drop_edge-Holds id ins outs [] h = tt
drop_edge-Holds id ins outs (x ∷ xs) h = elim (Bool-cases (x.edge.id == id)) [
  | inl gone ↦ rw gone (drop_edge-Holds id ins outs xs h.2)
  | inr stays ↦ rw stays (h.0, h.1, drop_edge-Holds id ins outs xs h.2)
]

abbrev uses_in : Port → List DfgEdgePassAttr → Bool
uses_in p [] = false
uses_in p (x ∷ xs) = port_eq x.src_port p || uses_in p xs

abbrev uses_out : Port → List DfgEdgePassAttr → Bool
uses_out p [] = false
uses_out p (x ∷ xs) = port_eq x.dst_port p || uses_out p xs

abbrev cleared : Bool → Bool → Bool
cleared flag hit = if flag && hit then false else flag

frees-step :
    (i o h k u v : Bool) (rest : Bool × Bool)
    → rest ≡ (cleared i h && not u, cleared o k && not v)
    → (if not (cleared i h) && not (cleared o k) then (cleared i h, cleared o k) else rest)
      ≡ (i && not (h || u), o && not (k || v))
frees-step true true true true u v rest e = refl
frees-step true true true false u v rest e = e
frees-step true true false true u v rest e = e
frees-step true true false false u v rest e = e
frees-step true false true true u v rest e = refl
frees-step true false true false u v rest e = refl
frees-step true false false k u v rest e = e
frees-step false true h true u v rest e = refl
frees-step false true h false u v rest e = e
frees-step false false h k u v rest e = refl

-- The loop, early exit and all, asks whether some edge that is left uses the port.
frees_lem :
    (link : EdgeLinkAttr) (xs : List DfgEdgePassAttr) (i o : Bool)
    → frees link xs (i, o)
      ≡ (i && not (uses_in link.src_port xs), o && not (uses_out link.dst_port xs))
unfolding frees
frees_lem link [] true true = refl
frees_lem link [] true false = refl
frees_lem link [] false true = refl
frees_lem link [] false false = refl
frees_lem link (x ∷ xs) i o =
    let h = port_eq x.src_port link.src_port in
    let k = port_eq x.dst_port link.dst_port in
    frees-step i o h k (uses_in link.src_port xs) (uses_out link.dst_port xs) _
      (frees_lem link xs (cleared i h) (cleared o k))

HoldsPort-free :
    (b : Bool) (p q : Port) (used : Map Port Bool)
    → (b ≡ true → port_eq q p ≡ false)
    → HoldsPort used q
    → HoldsPort (free_port b p used) q
HoldsPort-free true p none used h k = tt
HoldsPort-free true p (some q) used h k = ground (
  arith,
  Map.lookup-insert (some q) p false used,
  port_eq_iff p (some q),
  port_eq_iff (some q) p,
  h refl,
)
HoldsPort-free false p q used h k = k

Holds-free :
    (i o : Bool) (p q : Port) (ins outs : Map Port Bool) (xs : List DfgEdgePassAttr)
    → (i ≡ true → uses_in p xs ≡ false)
    → (o ≡ true → uses_out q xs ≡ false)
    → Holds ins outs xs
    → Holds (free_port i p ins) (free_port o q outs) xs
Holds-free i o p q ins outs [] a b h = tt
Holds-free i o p q ins outs (x ∷ xs) a b h = (
  HoldsPort-free i p x.src_port ins (λ e. ground (arith, a e)) h.0,
  HoldsPort-free o q x.dst_port outs (λ e. ground (arith, b e)) h.1,
  Holds-free i o p q ins outs xs (λ e. ground (arith, a e)) (λ e. ground (arith, b e)) h.2,
)

unroute_node-IsHeld :
    (id : ℕ) (link : EdgeLinkAttr) (attr : AdgNodeAttr)
    → IsHeld attr
    → IsHeld (unroute_node id link attr)
unfolding unroute_node
unroute_node-IsHeld id link attr h =
    let edges = drop_edge id attr.dfg_edge_pass in
    rw (frees_lem link edges (is_index link.src_port) (is_index link.dst_port)) (
      Holds-free _ _ link.src_port link.dst_port attr.in_port_used attr.out_port_used edges
        (λ e. ground arith) (λ e. ground arith)
        (drop_edge-Holds id attr.in_port_used attr.out_port_used attr.dfg_edge_pass h))

pub AllHeld-insert :
    (a : ℕ) (attr : AdgNodeAttr) (attrs : Map ℕ AdgNodeAttr)
    → AllHeld attrs
    → IsHeld attr
    → AllHeld (Map.insert a attr attrs)
AllHeld-insert a attr attrs all h b found e = elim (Bool-cases (a == b)) [
  | inl same ↦
      let eq : attr ≡ found = ground (arith, Map.lookup-insert b a attr attrs) in subst IsHeld eq h
  | inr other ↦ all b found (ground (arith, Map.lookup-insert b a attr attrs))
]

unroute_links-AllHeld :
    (id : ℕ) (links : List EdgeLinkAttr) (attrs : Map ℕ AdgNodeAttr)
    → AllHeld attrs
    → AllHeld (unroute_links id links attrs)
unfolding unroute_links
unroute_links-AllHeld id [] attrs all = all
unroute_links-AllHeld id (link ∷ links) attrs all =
    elim (Option-cases (Map.lookup link.adg_node attrs)) [
      | inl absent ↦ rw absent (unroute_links-AllHeld id links attrs all)
      | inr (attr, there) ↦ rw there (
          unroute_links-AllHeld id links
            (Map.insert link.adg_node (unroute_node id link attr) attrs)
            (AllHeld-insert link.adg_node (unroute_node id link attr) attrs all
              (unroute_node-IsHeld id link attr (all link.adg_node attr there))))
    ]
