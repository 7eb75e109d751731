-- ===== src/Mapper/Mapping/MapNode/Undo.antt =====
-- mapper/mapping.cpp, the end of `mapDfgNode`: taking the routes back, and placing the node.
use fdra.Prelude.{
  ℕ, true, false, some, List, [], ◌∷◌, ◌≡◌, refl, sym, ◌∙◌, ◌==◌, ==_iff, nat_key, arith,
  Bool-cases, Option-cases, inl, inr,
}
use mathlib.Core.Path.{subst}
use fdra.Prelude.Map
use fdra.Prelude.Map.{Map}
use fdra.Prelude.Set
use fdra.Adg.Store.{Adg}
use fdra.Mapper.Mapping.{
  Mapping, new_dfg_node, new_adg_node, mapped_adg_node, map_dfg_node_no_route,
}
use fdra.Mapper.Mapping.Unroute.{unroute_dfg_edge}
use fdra.Mapper.Mapping.Unmap.{unroute_dfg_edge-unit_of, unroute_dfg_edge-nodes}
use fdra.Mapper.Mapping.Walk.{links_of}
use fdra.Mapper.Mapping.Walk.Lead.{AllLeadOut, AllLead}
use fdra.Mapper.Mapping.Walk.Untouched.{IsUntouched, IsUntouched-refl, IsUntouched-trans}
use fdra.Mapper.Mapping.MapNode.{unroute_each}
use fdra.Mapper.Mapping.MapNode.Leads.{unroute_dfg_edge-links, unroute_dfg_edge-AllLead}

-- What unrouting a list of edges does.
unroute-IsUntouched : (id : ℕ) (m : Mapping) → IsUntouched m (unroute_dfg_edge id m)
unroute-IsUntouched id m = record {
  nodes = (unroute_dfg_edge-nodes id m).0;
  counted = (unroute_dfg_edge-nodes id m).1;
  units = λ a. unroute_dfg_edge-unit_of a id m;
}

pub unroute_each-IsUntouched : (ids : List ℕ) (m : Mapping) → IsUntouched m (unroute_each ids m)
unfolding unroute_each
unroute_each-IsUntouched [] m = IsUntouched-refl m
unroute_each-IsUntouched (id ∷ ids) m =
    let m1 = unroute_dfg_edge id m in
    IsUntouched-trans m m1 (unroute_each ids m1) (unroute-IsUntouched id m)
      (unroute_each-IsUntouched ids m1)

pub unroute_each-AllLead :
    (adg : Adg) (places : ℕ → ℕ) (ids : List ℕ) (m : Mapping)
    → AllLead adg places m
    → AllLead adg places (unroute_each ids m)
unfolding unroute_each
unroute_each-AllLead adg places [] m lead = lead
unroute_each-AllLead adg places (id ∷ ids) m lead =
    unroute_each-AllLead adg places ids (unroute_dfg_edge id m)
      (unroute_dfg_edge-AllLead adg places id m lead)

now_empty : (id : ℕ) (m : Mapping) → links_of id (unroute_dfg_edge id m) ≡ []
unfolding unroute_dfg_edge
now_empty id m = ground (arith, Map.lookup-erase id id m.dfg_edge_attrs)

-- Edges that had no links at the start have none again; the others keep theirs.
pub unroute_each-links :
    (ids : List ℕ) (m m0 : Mapping)
    → ((id : ℕ) → Set.count id ids ≡ false → links_of id m ≡ links_of id m0)
    → ((id : ℕ) → Set.count id ids ≡ true → links_of id m0 ≡ [])
    → (id : ℕ) → links_of id (unroute_each ids m) ≡ links_of id m0
unfolding unroute_each
unroute_each-links [] m m0 others fresh id = others id refl
unroute_each-links (x ∷ ids) m m0 others fresh id =
    unroute_each-links ids (unroute_dfg_edge x m) m0
      (λ i away. elim (Bool-cases (x == i)) [
        | inl own ↦
            let e : x ≡ i = ground arith in
            subst (λ j. links_of j (unroute_dfg_edge x m) ≡ links_of j m0) e
              (now_empty x m ∙ sym (fresh x (ground arith)))
        | inr other ↦
            unroute_dfg_edge-links x i m (λ e. ground (arith, ==_iff x i)) ∙ others i (ground arith)
      ])
      (λ i there. fresh i (ground arith)) id

-- Placing a node changes no link.
pub placed-links :
    (d a id : ℕ) (m : Mapping) → links_of id (map_dfg_node_no_route d a m) ≡ links_of id m
unfolding map_dfg_node_no_route
placed-links d a id m = refl

pub placed-mapped :
    (d a : ℕ) (m : Mapping) → mapped_adg_node d (map_dfg_node_no_route d a m) ≡ some a
unfolding map_dfg_node_no_route mapped_adg_node
placed-mapped d a m =
    let attr = record (Map.get_or d new_dfg_node m.dfg_node_attrs) { adg_node = some a } in
    ground (arith, Map.lookup-insert d d attr m.dfg_node_attrs)

get_or-AllLeadOut :
    (adg : Adg) (places : ℕ → ℕ) (a : ℕ) (m : Mapping)
    → AllLead adg places m
    → AllLeadOut adg places
        (λ id. links_of id m)
        a
        (Map.get_or a new_adg_node m.adg_node_attrs).dfg_edge_pass
get_or-AllLeadOut adg places a m lead = elim (Option-cases (Map.lookup a m.adg_node_attrs)) [
  | inl absent ↦ rw absent tt
  | inr (attr, there) ↦ rw there (lead a attr there)
]

pub placed-AllLead :
    (adg : Adg) (places : ℕ → ℕ) (d a : ℕ) (m : Mapping)
    → AllLead adg places m
    → AllLead adg places (map_dfg_node_no_route d a m)
unfolding map_dfg_node_no_route
placed-AllLead adg places d a m lead b attr found =
    let before = Map.get_or a new_adg_node m.adg_node_attrs in
    let new = record before { dfg_node = some d } in
    elim (Bool-cases (a == b)) [
      | inl here ↦
          let same : a ≡ b = ground arith in
          let is_new : new ≡ attr = ground (arith, Map.lookup-insert b a new m.adg_node_attrs) in
          let all = get_or-AllLeadOut adg places a m lead in
          subst (λ x. AllLeadOut adg places (λ id. links_of id m) x attr.dfg_edge_pass) same
            (subst (λ x. AllLeadOut adg places (λ id. links_of id m) a x.dfg_edge_pass) is_new all)
      | inr away ↦ lead b attr (ground (arith, Map.lookup-insert b a new m.adg_node_attrs))
    ]
