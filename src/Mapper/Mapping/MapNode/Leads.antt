-- ===== src/Mapper/Mapping/MapNode/Leads.antt =====
-- mapper/mapping.cpp, `unrouteDfgEdge`: after an edge is unrouted, the links of the edges that still
-- pass somewhere lead there.
use fdra.Prelude.{
  ℕ, false, none, some, List, [], ◌∷◌, ◌≡◌, ◌≢◌, refl, sym, ap, ◌∙◌, ◌==◌, ==_iff, if◌then◌else◌,
  nat_key, arith, Bool-cases, Option-cases, inl, inr,
}
use mathlib.Core.Path.{subst}
use fdra.Prelude.Map
use fdra.Prelude.Map.{Map}
use fdra.Adg.Store.{Adg}
use fdra.Mapper.Mapping.{Mapping, EdgeLinkAttr, DfgEdgeAttr, DfgEdgePassAttr, AdgNodeAttr}
use fdra.Mapper.Mapping.Unroute.{drop_edge, unroute_node, unroute_links, unroute_dfg_edge}
use fdra.Mapper.Mapping.Walk.{links_of}
use fdra.Mapper.Mapping.Walk.Lead.{AllLeadOut, AllLead, has_node, LeadsTo-has_node}

drop_edge-twice :
    (id : ℕ) (xs : List DfgEdgePassAttr) → drop_edge id (drop_edge id xs) ≡ drop_edge id xs
unfolding drop_edge
drop_edge-twice id [] = refl
drop_edge-twice id (x ∷ xs) = ground (arith, drop_edge-twice id xs)

-- The entries that are left at a node: those of other edges, if the edge had a link there.
abbrev left_at : ℕ → ℕ → List EdgeLinkAttr → List DfgEdgePassAttr → List DfgEdgePassAttr
left_at id a links xs = if has_node a links then drop_edge id xs else xs

left_at-dropped :
    (id a : ℕ) (links : List EdgeLinkAttr) (xs : List DfgEdgePassAttr)
    → left_at id a links (drop_edge id xs) ≡ drop_edge id xs
left_at-dropped id a links xs = elim (Bool-cases (has_node a links)) [
  | inl again ↦ rw again (drop_edge-twice id xs)
  | inr away ↦ rw away refl
]

unroute_links-left :
    (id a : ℕ) (links : List EdgeLinkAttr) (attrs : Map ℕ AdgNodeAttr) (new : AdgNodeAttr)
    → Map.lookup a (unroute_links id links attrs) ≡ some new
    → (old : AdgNodeAttr) × (Map.lookup a attrs ≡ some old)
      × (new.dfg_edge_pass ≡ left_at id a links old.dfg_edge_pass)
unfolding unroute_links unroute_node
unroute_links-left id a [] attrs new h = (new, h, refl)
unroute_links-left id a (link ∷ links) attrs new h =
    elim (Option-cases (Map.lookup link.adg_node attrs)) [
      | inl absent ↦
          let (old, found, same) = unroute_links-left id a links attrs new (rw absent at h) in
          (old, found, ground (arith, ==_iff link.adg_node a))
      | inr (attr, there) ↦
          let written = unroute_node id link attr in
          let attrs' = Map.insert link.adg_node written attrs in
          let (old, found, same) = unroute_links-left id a links attrs' new (rw there at h) in
          elim (Bool-cases (link.adg_node == a)) [
            | inl here ↦
                let e : link.adg_node ≡ a = ground arith in
                let is_written : written ≡ old =
                  ground (arith, Map.lookup-insert a link.adg_node written attrs) in
                let dropped : drop_edge id attr.dfg_edge_pass ≡ old.dfg_edge_pass =
                  ap (λ x. x.dfg_edge_pass) is_written in
                (
                  attr,
                  rw e at there,
                  same ∙ rw (sym dropped, here) (left_at-dropped id a links attr.dfg_edge_pass),
                )
            | inr away ↦ (
              old,
              ground (arith, Map.lookup-insert a link.adg_node written attrs),
              ground (arith, away),
            )
          ]
    ]

module _ (adg : Adg) (places : ℕ → ℕ) (old new : ℕ → List EdgeLinkAttr) (id : ℕ)
    (same : (other : ℕ) → other ≢ id → new other ≡ old other) where
  drop_edge-AllLeadOut :
      (a : ℕ) (xs : List DfgEdgePassAttr)
      → AllLeadOut adg places old a xs
      → AllLeadOut adg places new a (drop_edge id xs)
  unfolding drop_edge
  drop_edge-AllLeadOut a [] all = tt
  drop_edge-AllLeadOut a (x ∷ xs) all = elim (Bool-cases (x.edge.id == id)) [
    | inl gone ↦ rw gone (drop_edge-AllLeadOut a xs all.1)
    | inr stays ↦
        let differs : x.edge.id ≢ id = ground arith in
        rw (stays, same x.edge.id differs) (all.0, drop_edge-AllLeadOut a xs all.1)
  ]

  -- Where the edge had no link, it did not pass.
  away-AllLeadOut :
      (a : ℕ) (xs : List DfgEdgePassAttr)
      → has_node a (old id) ≡ false
      → AllLeadOut adg places old a xs
      → AllLeadOut adg places new a xs
  away-AllLeadOut a [] away all = tt
  away-AllLeadOut a (x ∷ xs) away all =
      let differs : x.edge.id ≢ id = λ e.
        ground (arith, rw e at (LeadsTo-has_node adg (a, x.dst_port) (old x.edge.id) all.0.0)) in
      (rw (same x.edge.id differs) all.0, away-AllLeadOut a xs away all.1)

pub unroute_dfg_edge-links :
    (id other : ℕ) (m : Mapping)
    → other ≢ id
    → links_of other (unroute_dfg_edge id m) ≡ links_of other m
unfolding unroute_dfg_edge
unroute_dfg_edge-links id other m differs =
    ground (arith, Map.lookup-erase other id m.dfg_edge_attrs)

unroute-absent :
    (id : ℕ) (m : Mapping) → Map.lookup id m.dfg_edge_attrs ≡ none → unroute_dfg_edge id m ≡ m
unfolding unroute_dfg_edge
unroute-absent id m absent = rw (absent, unroute_dfg_edge) refl

unroute-attrs :
    (id : ℕ) (m : Mapping) (attr : DfgEdgeAttr)
    → Map.lookup id m.dfg_edge_attrs ≡ some attr
    → (unroute_dfg_edge id m).adg_node_attrs ≡ unroute_links id attr.edge_links m.adg_node_attrs
unfolding unroute_dfg_edge
unroute-attrs id m attr there = rw (there, unroute_dfg_edge) refl

-- Unrouting an edge keeps the invariant.
pub unroute_dfg_edge-AllLead :
    (adg : Adg) (places : ℕ → ℕ) (id : ℕ) (m : Mapping)
    → AllLead adg places m
    → AllLead adg places (unroute_dfg_edge id m)
unroute_dfg_edge-AllLead adg places id m all a new found =
    let before : ℕ → List EdgeLinkAttr = λ i. links_of i m in
    let after : ℕ → List EdgeLinkAttr = λ i. links_of i (unroute_dfg_edge id m) in
    let same : (other : ℕ) → other ≢ id → after other ≡ before other =
      λ other differs. unroute_dfg_edge-links id other m differs in
    elim (Option-cases (Map.lookup id m.dfg_edge_attrs)) [
      | inl absent ↦ subst (AllLead adg places) (sym (unroute-absent id m absent)) all a new found
      | inr (attr, there) ↦
          let (old, known, left) =
            unroute_links-left id a attr.edge_links m.adg_node_attrs new
              (rw (unroute-attrs id m attr there) at found) in
          elim (Bool-cases (has_node a attr.edge_links)) [
            | inl here ↦
                let rest =
                  drop_edge-AllLeadOut adg places before after id same a old.dfg_edge_pass
                    (all a old known) in
                subst (AllLeadOut adg places after a) (sym (left ∙ rw here refl)) rest
            | inr away ↦
                let not_there : has_node a (before id) ≡ false = ground (arith, away) in
                let rest =
                  away-AllLeadOut adg places before after id same a old.dfg_edge_pass not_there
                    (all a old known) in
                subst (AllLeadOut adg places after a) (sym (left ∙ rw away refl)) rest
          ]
    ]
