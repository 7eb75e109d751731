-- ===== src/Mapper/Mapping/Unroute/Ports.antt =====
-- mapper/mapping.cpp, `unrouteDfgEdge`: which entries and which ports of a node the loop over the links
-- changes.
use fdra.Prelude.{
  ℕ, Bool, true, false, not, ◌&&◌, ◌||◌, Option, none, some, List, [], ◌∷◌, ◌≡◌, refl, ap, ◌∙◌,
  ◌==◌, if◌then◌else◌, nat_key, arith, Bool-cases, inl, inr,
}
use fdra.Prelude.Map
use fdra.Prelude.Map.{Map}
use fdra.Mapper.Port.{Port, port_key, port_eq, port_eq_iff, is_index}
use fdra.Mapper.Mapping.{EdgeLinkAttr, DfgEdgePassAttr, AdgNodeAttr}
use fdra.Mapper.Mapping.Unroute.{
  drop_edge, frees, free_port, unroute_node, uses_in, uses_out, frees_lem,
}

-- The edges other than `id` in a list of passing edges.
abbrev pub others : ℕ → List DfgEdgePassAttr → List DfgEdgePassAttr
others id [] = []
others id (x ∷ xs) = if x.edge.id == id then others id xs else x ∷ others id xs

-- The edges that are listed as passing at a node.
abbrev pub listed_at : Option AdgNodeAttr → List DfgEdgePassAttr
listed_at none = []
listed_at (some attr) = attr.dfg_edge_pass

abbrev pub in_used_at : Port → Option AdgNodeAttr → Bool
in_used_at p none = false
in_used_at p (some attr) = Map.get_or p false attr.in_port_used

abbrev pub out_used_at : Port → Option AdgNodeAttr → Bool
out_used_at p none = false
out_used_at p (some attr) = Map.get_or p false attr.out_port_used

-- Some link is at node `a`; some link enters it by the port; some link leaves it by the port.
abbrev pub visits : ℕ → List EdgeLinkAttr → Bool
visits a [] = false
visits a (link ∷ links) = link.adg_node == a || visits a links

abbrev pub enters : ℕ → Port → List EdgeLinkAttr → Bool
enters a p [] = false
enters a p (link ∷ links) = link.adg_node == a && port_eq link.src_port p || enters a p links

abbrev pub leaves : ℕ → Port → List EdgeLinkAttr → Bool
leaves a p [] = false
leaves a p (link ∷ links) = link.adg_node == a && port_eq link.dst_port p || leaves a p links

drop_edge-others : (id : ℕ) (xs : List DfgEdgePassAttr) → drop_edge id xs ≡ others id xs
unfolding drop_edge
drop_edge-others id [] = refl
drop_edge-others id (x ∷ xs) = elim (Bool-cases (x.edge.id == id)) [
  | inl gone ↦ rw gone (drop_edge-others id xs)
  | inr stays ↦ rw stays (ap (λ ys. x ∷ ys) (drop_edge-others id xs))
]

pub others_twice : (id : ℕ) (xs : List DfgEdgePassAttr) → others id (others id xs) ≡ others id xs
others_twice id [] = refl
others_twice id (x ∷ xs) = elim (Bool-cases (x.edge.id == id)) [
  | inl gone ↦ rw gone (others_twice id xs)
  | inr stays ↦ rw stays (rw stays (ap (λ ys. x ∷ ys) (others_twice id xs)))
]

free_port-get :
    (b : Bool) (q p : Port) (used : Map Port Bool)
    → Map.get_or p false (free_port b q used) ≡ (Map.get_or p false used && not (b && port_eq q p))
free_port-get true q p used = ground (arith, Map.lookup-insert p q false used)
free_port-get false q p used = ground arith

-- What unrouting at one link does to the node of the link.
module _ (id : ℕ) (link : EdgeLinkAttr) (attr : AdgNodeAttr) where
  abbrev left : List DfgEdgePassAttr
  left = others id attr.dfg_edge_pass

  pub node-listed : (unroute_node id link attr).dfg_edge_pass ≡ left
  unfolding unroute_node
  node-listed = drop_edge-others id attr.dfg_edge_pass

  flags :
      frees link (drop_edge id attr.dfg_edge_pass) (is_index link.src_port, is_index link.dst_port)
      ≡ (
        is_index link.src_port && not (uses_in link.src_port left),
        is_index link.dst_port && not (uses_out link.dst_port left),
      )
  flags =
      ap (λ xs. frees link xs (is_index link.src_port, is_index link.dst_port))
        (drop_edge-others id attr.dfg_edge_pass)
      ∙ frees_lem link left (is_index link.src_port) (is_index link.dst_port)

  pub node-in_used :
      (p : ℕ)
      → Map.get_or (some p) false (unroute_node id link attr).in_port_used ≡ (
          Map.get_or (some p) false attr.in_port_used
          && not (port_eq link.src_port (some p) && not (uses_in (some p) left)))
  unfolding unroute_node
  node-in_used p =
      ap
        (λ (f : Bool × Bool).
          Map.get_or (some p) false (free_port f.0 link.src_port attr.in_port_used))
        flags
      ∙ free_port-get _ link.src_port (some p) attr.in_port_used
      ∙ elim (Bool-cases (port_eq link.src_port (some p))) [
        | inl own ↦
            let same : link.src_port ≡ some p = (port_eq_iff link.src_port (some p)).0 own in
            rw same (ground arith)
        | inr other ↦ rw other (ground arith)
      ]

  pub node-out_used :
      (p : ℕ)
      → Map.get_or (some p) false (unroute_node id link attr).out_port_used ≡ (
          Map.get_or (some p) false attr.out_port_used
          && not (port_eq link.dst_port (some p) && not (uses_out (some p) left)))
  unfolding unroute_node
  node-out_used p =
      ap
        (λ (f : Bool × Bool).
          Map.get_or (some p) false (free_port f.1 link.dst_port attr.out_port_used))
        flags
      ∙ free_port-get _ link.dst_port (some p) attr.out_port_used
      ∙ elim (Bool-cases (port_eq link.dst_port (some p))) [
        | inl own ↦
            let same : link.dst_port ≡ some p = (port_eq_iff link.dst_port (some p)).0 own in
            rw same (ground arith)
        | inr other ↦ rw other (ground arith)
      ]
